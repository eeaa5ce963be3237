-- ===== src/Devices/Entries.antt =====
-- service/src/devices/deviceList.ts: what an accepted list looks like.
use k3ncrypt.Base.{
  ◌≡◌, String, string_eq, Bool, false, not, none, some, List, [], ◌∷◌, ◌++◌, eqb, includes, arith,
  ok, passed, returned,
}
use text.Mathlib.TextEquality.{eq_iff}
use k3ncrypt.Devices.{
  DeviceEntry, DeviceList, create_device_entry, create_entries, assert_distinct, create_device_list,
  bad_string, bad_timestamp, bad_commitment, device_entry_by_id,
}

pub create_device_entry-same :
    (is_nfc : String → Bool) (e f : DeviceEntry) → create_device_entry is_nfc e ≡ ok f → f ≡ e
unfolding create_device_entry
create_device_entry-same is_nfc e f h = ground arith

create_entries-same :
    (is_nfc : String → Bool) (es fs : List DeviceEntry) → create_entries is_nfc es ≡ ok fs → fs ≡ es
unfolding create_entries
create_entries-same is_nfc [] fs h = ground arith
create_entries-same is_nfc (e ∷ es) fs h =
    let (f, made, h1) = returned (create_device_entry is_nfc e) _ h in
    let (gs, rest, h2) = returned (create_entries is_nfc es) _ h1 in
    ground
      (arith, create_device_entry-same is_nfc e f made, create_entries-same is_nfc es gs rest, h2)

-- No identifier and no public identity stands twice, or among those seen before.
abbrev pub AllDistinct : List String → List String → List DeviceEntry → Type 0
AllDistinct ids identities [] = Unit
AllDistinct ids identities (e ∷ es) =
    (includes ids e.device_id ≡ false)
    × (includes identities e.public_identity_reference ≡ false)
    × AllDistinct (e.device_id ∷ ids) (e.public_identity_reference ∷ identities) es

assert_distinct-AllDistinct :
    (ids identities : List String) (es : List DeviceEntry)
    → assert_distinct ids identities es ≡ ok tt
    → AllDistinct ids identities es
unfolding assert_distinct
assert_distinct-AllDistinct ids identities [] h = tt
assert_distinct-AllDistinct ids identities (e ∷ es) h =
    let (fresh_id, h1) = passed (includes ids e.device_id) _ _ h in
    let (fresh_identity, h2) = passed (includes identities e.public_identity_reference) _ _ h1 in
    (
      fresh_id,
      fresh_identity,
      assert_distinct-AllDistinct (e.device_id ∷ ids) (e.public_identity_reference ∷ identities) es
          h2,
    )

-- An accepted list is the one that was given, of version 1, without a repeated identifier or public
-- identity.
pub create_device_list-AllDistinct :
    (is_nfc : String → Bool) (v l : DeviceList)
    → create_device_list is_nfc v ≡ ok l
    → (l ≡ v) × (v.version ≡ 1) × AllDistinct [] [] v.devices
unfolding create_device_list
create_device_list-AllDistinct is_nfc v l h =
    let (version, h1) = passed (not (eqb v.version 1)) _ _ h in
    let (_, h2) = passed (bad_string is_nfc v.identity_reference 256) _ _ h1 in
    let (_, h3) = passed (bad_timestamp v.epoch) _ _ h2 in
    let (_, h4) = passed (bad_commitment v.previous_commitment) _ _ h3 in
    let (es, made, h5) = returned (create_entries is_nfc v.devices) _ h4 in
    let (_, distinct, h6) = returned (assert_distinct [] [] es) _ h5 in
    let same : es ≡ v.devices = create_entries-same is_nfc v.devices es made in
    (
      ground (arith, h6, same),
      ground (arith, version),
      rw (← same) (assert_distinct-AllDistinct [] [] es distinct),
    )

-- Adding an entry for a new identifier hides no other.
pub found-append :
    (es : List DeviceEntry) (e f : DeviceEntry) (id : String)
    → device_entry_by_id es id ≡ some f
    → device_entry_by_id (es ++ e ∷ []) id ≡ some f
unfolding device_entry_by_id
found-append [] e f id h = cc
found-append (x ∷ es) e f id h = ground (arith, found-append es e f id, h)

pub found_id :
    (es : List DeviceEntry) (f : DeviceEntry) (id : String)
    → device_entry_by_id es id ≡ some f
    → f.device_id ≡ id
unfolding device_entry_by_id
found_id [] f id h = cc
found_id (x ∷ es) f id h = ground (arith, found_id es f id, eq_iff x.device_id id, h)

-- A new entry is found.
pub found-append_new :
    (es : List DeviceEntry) (e : DeviceEntry) (id : String)
    → device_entry_by_id es id ≡ none
    → e.device_id ≡ id
    → device_entry_by_id (es ++ e ∷ []) id ≡ some e
unfolding device_entry_by_id
found-append_new [] e id absent same = ground (arith, eq_iff e.device_id id, same)
found-append_new (x ∷ es) e id absent same = ground (arith, found-append_new es e id, absent, same)
