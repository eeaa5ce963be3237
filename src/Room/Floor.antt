-- ===== src/Room/Floor.antt =====
-- service/src/crypto/roomMessageVersionFloor.ts: the least version of messages accepted in a room from a
-- pinned identity. What is stored under a record's address is a text; the runtime's JSON is a parameter.
-- The address, a digest of the room and the identity, stands for the two.
pub mod Monotone
mod Tests
use k3ncrypt.Base.{
  ℕ, max, String, string_eq, ◌==◌, Bool, true, false, not, ◌||◌, Option, none, some, leb, ltb, eqb,
  if◌then◌else◌, Result, ok, err, ◌>>=◌, ◌>>◌, throw_if,
}

pub record RoomMessageVersionFloor : Type 0 where
  pub version : ℕ
  pub room_id : String
  pub remote_identity_reference : String
  pub minimum_wrapper_version : ℕ

-- What `JSON.parse` makes of a stored text: it throws, gives something that is not an object with exactly
-- the four fields of their types, or gives such an object.
pub data Parsed : Type 0 where
  corrupted other : Parsed
  item : RoomMessageVersionFloor → Parsed

pub record Json : Type 0 where
  pub parse : String → Parsed
  pub stringify : RoomMessageVersionFloor → String

pub bad_item : String → String → RoomMessageVersionFloor → Bool
bad_item room remote v =
    not (eqb v.version 1)
    || not (v.room_id == room)
    || not (v.remote_identity_reference == remote)
    || ltb 255 v.minimum_wrapper_version

pub check_item : String → String → Parsed → Result String (Option RoomMessageVersionFloor)
check_item room remote corrupted = err "Persisted room message security state is corrupted."
check_item room remote other = err "Persisted room message security state is invalid."
check_item room remote (item v) = do
  throw_if (bad_item room remote v) "Persisted room message security state is invalid."
  ok (some v)

pub parse_room_message_version_floor :
    Json → String → String → Option String → Result String (Option RoomMessageVersionFloor)
parse_room_message_version_floor json room remote none = ok none
parse_room_message_version_floor json room remote (some bytes) =
    check_item room remote (json.parse bytes)

-- The check of `roomMessageVersionFloorRecordId`.
pub assert_address : String → String → Result String (Unit {0})
assert_address room remote =
    throw_if (room == "" || remote == "") "Room message security identity is unavailable."

-- `SecureRecordUpdate`: what has to be stored for the update to be made, and what is stored then.
pub record SecureRecordUpdate : Type 0 where
  pub expected : Option String
  pub next : String

abbrev pub minimum_of : Option RoomMessageVersionFloor → ℕ
minimum_of none = 0
minimum_of (some v) = v.minimum_wrapper_version

abbrev pub floor_item : String → String → ℕ → RoomMessageVersionFloor
floor_item room remote n = record {
  version = 1;
  room_id = room;
  remote_identity_reference = remote;
  minimum_wrapper_version = n;
}

-- `expected?.slice(0) ?? encode(…)`.
abbrev pub or_encode : Option String → String → String
or_encode none text = text
or_encode (some bytes) text = bytes

abbrev pub is_known : Option RoomMessageVersionFloor → Bool
is_known none = false
is_known (some v) = true

-- The next text: the stored one if it has that floor already.
pub raised : Json → String → String → ℕ → Option String → Option RoomMessageVersionFloor → String
raised json room remote floor expected none = json.stringify (floor_item room remote floor)
raised json room remote floor expected (some v) =
    if eqb floor v.minimum_wrapper_version
    then or_encode expected (json.stringify (floor_item room remote floor))
    else json.stringify (floor_item room remote floor)

pub prepare_room_message_version_floor_raise :
    Json → String → String → ℕ → Option String → Result String (ℕ × SecureRecordUpdate)
prepare_room_message_version_floor_raise json room remote version stored = do
  throw_if (ltb version 1 || ltb 255 version) "Authenticated room message version is invalid."
  assert_address room remote
  now ← parse_room_message_version_floor json room remote stored
  let floor = max (minimum_of now) version
  ok (floor, record { expected = stored; next = raised json room remote floor stored now })

pub prepare_room_message_version_floor_guard :
    Json → String → String → Option String → Result String (ℕ × SecureRecordUpdate)
prepare_room_message_version_floor_guard json room remote stored = do
  assert_address room remote
  now ← parse_room_message_version_floor json room remote stored
  ok (
    minimum_of now,
    record {
      expected = stored;
      next = or_encode stored (json.stringify (floor_item room remote 0));
    },
  )

pub read_room_message_version_floor : Json → String → String → Option String → Result String ℕ
read_room_message_version_floor json room remote stored = do
  assert_address room remote
  parsed ← parse_room_message_version_floor json room remote stored
  ok (minimum_of parsed)
