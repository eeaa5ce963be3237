-- ===== src/Room/Floor/Monotone.antt =====
-- service/src/crypto/roomMessageVersionFloor.ts: the floor never falls.
use k3ncrypt.Base.{
  ℕ, max, ◌≤◌, ◌≡◌, refl, sym, ◌∙◌, String, string_eq, ◌==◌, Bool, true, false, ◌||◌, Option, none,
  some, List, [], ◌∷◌, ltb, eqb, if◌then◌else◌, Result, ok, err, arith, inl, inr, Bool-cases,
  Result-cases, passed, returned,
}
use text.Mathlib.TextEquality.{eq_iff}
use k3ncrypt.Room.Floor.{
  RoomMessageVersionFloor, item, Json, bad_item, check_item, parse_room_message_version_floor,
  assert_address, SecureRecordUpdate, minimum_of, floor_item, or_encode, raised,
  prepare_room_message_version_floor_raise, prepare_room_message_version_floor_guard,
  read_room_message_version_floor,
}

-- What the code relies on: parsing gives back what was written.
abbrev pub RoundTrips : Json → String → String → Type 0
RoundTrips json room remote =
    (n : ℕ)
    → json.parse (json.stringify (floor_item room remote n)) ≡ item (floor_item room remote n)

pub data Prepared : Type 0 where
  raises : ℕ → Option String → Prepared
  guards : Option String → Prepared

abbrev pub same_text : Option String → Option String → Bool
same_text none none = true
same_text (some s) (some t) = s == t
same_text _ _ = false

same_text_eq : (s t : Option String) → same_text s t ≡ true → s ≡ t
same_text_eq none none h = refl
same_text_eq none (some t) h = cc
same_text_eq (some s) none h = cc
same_text_eq (some s) (some t) h = ground (arith, eq_iff s t, h)

module _ (json : Json) (room remote : String) (round_trips : RoundTrips json room remote) where
  written_lem :
      (n : ℕ)
      → n ≤ 255
      → assert_address room remote ≡ ok tt
      → read_room_message_version_floor json room remote
          (some (json.stringify (floor_item room remote n)))
        ≡ ok n
  unfolding read_room_message_version_floor parse_room_message_version_floor check_item bad_item
  written_lem n small address =
      ground (arith, round_trips n, address, small, eq_iff room room, eq_iff remote remote)

  parse_none : parse_room_message_version_floor json room remote none ≡ ok none
  unfolding parse_room_message_version_floor
  parse_none = refl

  parsed_small :
      (stored : Option String) (v : RoomMessageVersionFloor)
      → parse_room_message_version_floor json room remote stored ≡ ok (some v)
      → v.minimum_wrapper_version ≤ 255
  unfolding parse_room_message_version_floor check_item bad_item
  parsed_small none v h = cc
  parsed_small (some bytes) v h = ground (arith, h)

  read_lem :
      (stored : Option String) (known : Option RoomMessageVersionFloor)
      → assert_address room remote ≡ ok tt
      → parse_room_message_version_floor json room remote stored ≡ ok known
      → read_room_message_version_floor json room remote stored ≡ ok (minimum_of known)
  unfolding read_room_message_version_floor
  read_lem stored known address parsed = ground (arith, address, parsed)

  raised_lem :
      (floor : ℕ) (stored : Option String) (known : Option RoomMessageVersionFloor)
      → assert_address room remote ≡ ok tt
      → parse_room_message_version_floor json room remote stored ≡ ok known
      → floor ≤ 255
      → read_room_message_version_floor json room remote
          (some (raised json room remote floor stored known))
        ≡ ok floor
  unfolding raised
  raised_lem floor stored none address parsed small = written_lem floor small address
  raised_lem floor none (some v) address parsed small = absurd (ground (arith, parse_none, parsed))
  raised_lem floor (some bytes) (some v) address parsed small =
      elim (Bool-cases (eqb floor v.minimum_wrapper_version)) [
        | inl same ↦ rw same (read_lem (some bytes) (some v) address parsed ∙ ground (arith, same))
        | inr differs ↦ rw differs (written_lem floor small address)
      ]

  minimum_small :
      (stored : Option String) (known : Option RoomMessageVersionFloor)
      → parse_room_message_version_floor json room remote stored ≡ ok known
      → minimum_of known ≤ 255
  minimum_small stored none parsed = omega arith
  minimum_small stored (some v) parsed = parsed_small stored v parsed

  pub record Raises (version floor : ℕ) (stored : Option String) (u : SecureRecordUpdate)
      : Type 0 where
    pub before : ℕ
    pub read : read_room_message_version_floor json room remote stored ≡ ok before
    pub greater : floor ≡ max before version
    pub expected : u.expected ≡ stored
    pub after : read_room_message_version_floor json room remote (some u.next) ≡ ok floor

  -- A raise that is prepared leads from the floor that is read to the greater of it and the version.
  pub raise-Raises :
      (version floor : ℕ) (stored : Option String) (u : SecureRecordUpdate)
      → prepare_room_message_version_floor_raise json room remote version stored ≡ ok (floor, u)
      → Raises version floor stored u
  unfolding prepare_room_message_version_floor_raise
  raise-Raises version floor stored u h =
      let (fits, h1) = passed (ltb version 1 || ltb 255 version) _ _ h in
      let (_, address, h2) = returned (assert_address room remote) _ h1 in
      let (known, parsed, h3) =
        returned (parse_room_message_version_floor json room remote stored) _ h2 in
      let small = minimum_small stored known parsed in
      let floor_same : floor ≡ max (minimum_of known) version = ground (arith, h3) in
      let next_same : u.next
          ≡ raised json room remote (max (minimum_of known) version) stored known =
        ground (arith, h3) in
      record {
        before = minimum_of known;
        read = read_lem stored known address parsed;
        greater = floor_same;
        expected = ground (arith, h3);
        after =
            rw (next_same, floor_same)
              (raised_lem (max (minimum_of known) version) stored known address parsed
                (ground (arith, fits, small)));
      }

  guard_next_lem :
      (stored : Option String) (known : Option RoomMessageVersionFloor)
      → assert_address room remote ≡ ok tt
      → parse_room_message_version_floor json room remote stored ≡ ok known
      → read_room_message_version_floor json room remote
          (some (or_encode stored (json.stringify (floor_item room remote 0))))
        ≡ ok (minimum_of known)
  guard_next_lem none known address parsed =
      let same : none ≡ known = ground (arith, parse_none, parsed) in
      rw (← same) (written_lem 0 (omega arith) address)
  guard_next_lem (some bytes) known address parsed = read_lem (some bytes) known address parsed

  -- A prepared guard leaves the floor that it was prepared on.
  pub record Guards (floor : ℕ) (stored : Option String) (u : SecureRecordUpdate) : Type 0 where
    pub read : read_room_message_version_floor json room remote stored ≡ ok floor
    pub expected : u.expected ≡ stored
    pub after : read_room_message_version_floor json room remote (some u.next) ≡ ok floor

  guard-Guards :
      (floor : ℕ) (stored : Option String) (u : SecureRecordUpdate)
      → prepare_room_message_version_floor_guard json room remote stored ≡ ok (floor, u)
      → Guards floor stored u
  unfolding prepare_room_message_version_floor_guard
  guard-Guards floor stored u h =
      let (_, address, h2) = returned (assert_address room remote) _ h in
      let (known, parsed, h3) =
        returned (parse_room_message_version_floor json room remote stored) _ h2 in
      let floor_same : floor ≡ minimum_of known = ground (arith, h3) in
      let next_same : u.next ≡ or_encode stored (json.stringify (floor_item room remote 0)) =
        ground (arith, h3) in
      record {
        read = rw floor_same (read_lem stored known address parsed);
        expected = ground (arith, h3);
        after = rw (next_same, floor_same) (guard_next_lem stored known address parsed);
      }

  -- An update that was prepared on a text seen earlier, by anyone at any time, and is made only where
  -- that text is still stored.
  unfoldable pub commit : Result String (ℕ × SecureRecordUpdate) → Option String → Option String
  commit (err e) stored = stored
  commit (ok (floor, u)) stored = if same_text u.expected stored then some u.next else stored

  unfoldable pub update : Prepared → Option String → Option String
  update (raises version seen) stored =
      commit (prepare_room_message_version_floor_raise json room remote version seen) stored
  update (guards seen) stored =
      commit (prepare_room_message_version_floor_guard json room remote seen) stored

  unfoldable pub updates : List Prepared → Option String → Option String
  updates [] stored = stored
  updates (p ∷ log) stored = updates log (update p stored)

  -- The floor that is read is at least `n`.
  pub record AtLeast (n : ℕ) (stored : Option String) : Type 0 where
    pub floor : ℕ
    pub read : read_room_message_version_floor json room remote stored ≡ ok floor
    pub enough : n ≤ floor

  commit-AtLeast :
      (n floor : ℕ) (u : SecureRecordUpdate) (stored : Option String)
      → AtLeast n stored
      → (u.expected ≡ stored → AtLeast n (some u.next))
      → AtLeast n (commit (ok (floor, u)) stored)
  unfolding commit
  commit-AtLeast n floor u stored a next = elim (Bool-cases (same_text u.expected stored)) [
    | inr lost ↦ rw lost a
    | inl won ↦ rw won (next (same_text_eq u.expected stored won))
  ]

  thrown-AtLeast :
      (n : ℕ) (e : String) (stored : Option String)
      → AtLeast n stored
      → AtLeast n (commit (err e) stored)
  unfolding commit
  thrown-AtLeast n e stored a = a

  update-AtLeast :
      (n : ℕ) (p : Prepared) (stored : Option String)
      → AtLeast n stored
      → AtLeast n (update p stored)
  unfolding update
  update-AtLeast n (raises version seen) stored a =
      elim (Result-cases (prepare_room_message_version_floor_raise json room remote version seen)) [
        | inr (e, thrown) ↦ rw thrown (thrown-AtLeast n e stored a)
        | inl ((floor, u), prepared) ↦
            let r = raise-Raises version floor seen u prepared in
            rw prepared (
              commit-AtLeast n floor u stored a (λ won.
                let same : seen ≡ stored = sym r.expected ∙ won in
                let before : a.floor ≡ r.before = ground (arith, a.read, r.read, same) in
                record {
                  floor = floor;
                  read = r.after;
                  enough = omega (arith, a.enough, before, r.greater);
                }))
      ]
  update-AtLeast n (guards seen) stored a =
      elim (Result-cases (prepare_room_message_version_floor_guard json room remote seen)) [
        | inr (e, thrown) ↦ rw thrown (thrown-AtLeast n e stored a)
        | inl ((floor, u), prepared) ↦
            let r = guard-Guards floor seen u prepared in
            rw prepared (
              commit-AtLeast n floor u stored a (λ won.
                let same : seen ≡ stored = sym r.expected ∙ won in
                let before : a.floor ≡ floor = ground (arith, a.read, r.read, same) in
                record { floor = floor; read = r.after; enough = omega (arith, a.enough, before) }))
      ]

  -- A floor that can be read never falls: through any history of raises and guards, each prepared on any
  -- text and made only where that text is still stored, it stays readable and at least what it was.
  pub updates-AtLeast :
      (log : List Prepared) (n : ℕ) (stored : Option String)
      → AtLeast n stored
      → AtLeast n (updates log stored)
  unfolding updates
  updates-AtLeast [] n stored a = a
  updates-AtLeast (p ∷ log) n stored a =
      updates-AtLeast log n (update p stored) (update-AtLeast n p stored a)
