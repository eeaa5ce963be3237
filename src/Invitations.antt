-- ===== src/Invitations.antt =====
-- backend/db: one-time keys and invitations, in the mode without MongoDB (inMemDB.ts, and its use in
-- index.ts). Rows are in insertion order. A time in a `Date` is its number; no date is `none`.
pub mod Keys
pub mod Admission
mod Tests
use k3ncrypt.Base.{
  ℕ, ◌+◌, ◌-◌, String, string_eq, ◌==◌, Bool, true, false, not, ◌&&◌, ◌||◌, Option, none, some,
  List, [], ◌∷◌, leb, ltb, if◌then◌else◌, length, keep, find, any,
}

pub record OneTimeKey : Type 0 where
  pub id : String
  pub key : String

-- A published bundle. Its keys may not be an array.
pub record PrekeyRow : Type 0 where
  pub channel : String
  pub address : String
  pub expires_at : Option ℕ
  pub one_time_keys : Option (List OneTimeKey)

abbrev pub with_id : String → OneTimeKey → Bool
with_id id k = k.id == id

-- `entry.expiresAt instanceof Date && entry.expiresAt.getTime() > now`.
abbrev pub is_fresh : ℕ → Option ℕ → Bool
is_fresh now none = false
is_fresh now (some t) = ltb now t

abbrev pub holds : String → Option (List OneTimeKey) → Bool
holds id none = false
holds id (some keys) = any (with_id id) keys

pub has_key : ℕ → String → String → String → PrekeyRow → Bool
has_key now channel address id row =
    row.channel == channel
    && row.address == address
    && is_fresh now row.expires_at
    && holds id row.one_time_keys

-- `findIndex` and `splice`.
pub take_key : String → List OneTimeKey → List OneTimeKey × Option OneTimeKey
take_key id [] = ([], none)
take_key id (k ∷ ks) =
    let rest = take_key id ks in if with_id id k then (ks, some k) else (k ∷ rest.0, rest.1)

abbrev pub keys_of : Option (List OneTimeKey) → List OneTimeKey
keys_of none = []
keys_of (some keys) = keys

abbrev pub take_from : String → PrekeyRow → PrekeyRow × Option OneTimeKey
take_from id row =
    let r = take_key id (keys_of row.one_time_keys) in
    (record row { one_time_keys = some r.0 }, r.1)

pub claim_one_time_key :
    ℕ → String → String → String → List PrekeyRow → List PrekeyRow × Option OneTimeKey
claim_one_time_key now channel address id [] = ([], none)
claim_one_time_key now channel address id (row ∷ rows) =
    let rest = claim_one_time_key now channel address id rows in
    if has_key now channel address id row
    then ((take_from id row).0 ∷ rows, (take_from id row).1)
    else (row ∷ rest.0, rest.1)

-- `!(expiresAt instanceof Date) || expiresAt > now` stays.
abbrev pub is_retained : ℕ → Option ℕ → Bool
is_retained now none = true
is_retained now (some t) = ltb now t

pub delete_expired_prekey_bundles : ℕ → List PrekeyRow → List PrekeyRow × ℕ
delete_expired_prekey_bundles now rows =
    let retained = keep (λ row. is_retained now row.expires_at) rows in
    (retained, length rows - length retained)

-- A room's row. `publications` is a safe integer, or none where it is not one.
pub record Room : Type 0 where
  pub hash : String
  pub deleted : Bool
  pub expired : Bool
  pub invitation_expires_at : Option ℕ
  pub publications : Option ℕ

abbrev pub publication_limit : ℕ
publication_limit = 2

abbrev pub is_below_limit : Option ℕ → Bool
is_below_limit none = false
is_below_limit (some n) = ltb n publication_limit

abbrev pub one_more : Option ℕ → Option ℕ
one_more none = none
one_more (some n) = some (n + 1)

-- `findOneFromArr` with the condition `{ hash }`, where an empty hash finds nothing.
pub is_room : String → Room → Bool
is_room channel room = not (channel == "") && room.hash == channel

pub find_room : String → List Room → Option Room
find_room channel rooms = find (is_room channel) rooms

-- The room found, changed in place.
pub change_room : String → Room → List Room → List Room
change_room channel new [] = []
change_room channel new (room ∷ rooms) =
    if is_room channel room then new ∷ rooms else room ∷ change_room channel new rooms

pub reserve_in : String → ℕ → Room → List Room → List Room × Bool
reserve_in channel now room rooms =
    if room.deleted || room.expired then (rooms, false) else elim room.invitation_expires_at [
      | none ↦ (rooms, true)
      | some at ↦ if leb at now || not (is_below_limit room.publications) then (rooms, false) else (
        change_room channel (record room { publications = one_more room.publications }) rooms,
        true,
      )
    ]

pub reserve_invitation_publication : String → ℕ → List Room → List Room × Bool
reserve_invitation_publication channel now rooms = elim (find_room channel rooms) [
  | none ↦ (rooms, false)
  | some room ↦ reserve_in channel now room rooms
]

abbrev pub is_dated : Option ℕ → Bool
is_dated none = false
is_dated (some t) = true

pub is_revocable : Room → Bool
is_revocable room = not (
    room.deleted
    || room.expired
    || not (is_dated room.invitation_expires_at)
    || not (is_below_limit room.publications))

pub revoke_pending_invitation : String → List Room → List Room × Bool
revoke_pending_invitation channel rooms = elim (find_room channel rooms) [
  | none ↦ (rooms, false)
  | some room ↦
      if is_revocable room
      then (change_room channel (record room { deleted = true }) rooms, true)
      else (rooms, false)
]
