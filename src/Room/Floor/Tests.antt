-- ===== src/Room/Floor/Tests.antt =====
-- Floors of service/src/crypto/roomMessageVersionFloor.ts with a concrete encoding: a floor is written
-- as a text of that length, for one room and one identity.
use k3ncrypt.Base.{
  ℕ, zero, suc, ◌≡◌, ap, refl, String, string_eq, some, none, List, [], ◌∷◌, ok, arith, length,
}
use k3ncrypt.Base.Text.{codes}
use k3ncrypt.Room.Floor.{
  Json, item, floor_item, bad_item, check_item, parse_room_message_version_floor, assert_address,
  SecureRecordUpdate, raised, prepare_room_message_version_floor_raise,
  prepare_room_message_version_floor_guard, read_room_message_version_floor,
}
use k3ncrypt.Room.Floor.Monotone.{
  RoundTrips, Prepared, raises, guards, commit, update, updates, AtLeast, updates-AtLeast,
}

abbrev marks : ℕ → String
marks zero = ""
marks (suc n) = String.◌∷◌ "a" (marks n)

length-marks : (n : ℕ) → length (codes (marks n)) ≡ n
length-marks zero = refl
length-marks (suc n) = omega (arith, length-marks n)

abbrev json : Json
json = record {
  parse = λ s. item (floor_item "room" "key" (length (codes s)));
  stringify = λ v. marks v.minimum_wrapper_version;
}

json-RoundTrips : RoundTrips json "room" "key"
json-RoundTrips n = ap (λ m. item (floor_item "room" "key" m)) (length-marks n)

floors : Unit {0}
unfolding bad_item check_item parse_room_message_version_floor assert_address raised
    prepare_room_message_version_floor_raise prepare_room_message_version_floor_guard
    read_room_message_version_floor commit update updates
floors = tt

abbrev to_two : SecureRecordUpdate
to_two = record { expected = none; next = "aa" }

prepared : prepare_room_message_version_floor_raise json "room" "key" 2 none ≡ ok (2, to_two)
unfolding floors
prepared = refl

-- The second raise was prepared before the first was made, and is lost; the third stays at two.
abbrev log : List Prepared
log = raises 2 none ∷ raises 3 none ∷ raises 1 (some "aa") ∷ guards (some "aa") ∷ []

log_test : updates json "room" "key" json-RoundTrips log none ≡ some "aa"
unfolding floors
log_test = refl

at_two : AtLeast json "room" "key" json-RoundTrips 2 (some "aa")
unfolding floors
at_two = record { floor = 2; read = refl; enough = omega arith }

updates-AtLeast_example :
    AtLeast json "room" "key" json-RoundTrips 2
      (updates json "room" "key" json-RoundTrips log (some "aa"))
updates-AtLeast_example = updates-AtLeast json "room" "key" json-RoundTrips log 2 (some "aa") at_two
