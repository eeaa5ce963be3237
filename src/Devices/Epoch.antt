-- ===== src/Devices/Epoch.antt =====
-- service/src/devices/epoch.ts: the order of the lists of one identity. `canonical` stands for
-- `canonicalDeviceListJson`.
use k3ncrypt.Base.{
  ℕ, ◌+◌, String, string_eq, nat_eq, ◌==◌, Bool, true, false, not, ◌&&◌, ◌||◌, Option, none, some,
  ltb, eqb, if◌then◌else◌, Result, ok, ◌>>=◌, ◌>>◌, throw_if,
}
use k3ncrypt.Guard.{max_safe_integer}
use k3ncrypt.Devices.{DeviceList, create_device_list}

pub data EpochValidation : Type 0 where
  current stale future : EpochValidation

pub compare_epoch : ℕ → ℕ → Result String EpochValidation
compare_epoch now candidate = do
  throw_if (ltb max_safe_integer now || ltb max_safe_integer candidate) "Invalid device-list epoch."
  ok (if eqb candidate now then current else if ltb candidate now then stale else future)

abbrev pub is_null : Option String → Bool
is_null none = true
is_null (some c) = false

unfoldable pub assert_next_epoch :
    (String → Bool) → DeviceList → DeviceList → Result String (Unit {0})
assert_next_epoch is_nfc previous next = do
  prior ← create_device_list is_nfc previous
  candidate ← create_device_list is_nfc next
  throw_if (not (candidate.identity_reference == prior.identity_reference))
      "Device-list identity scope changed."
  throw_if (not (eqb candidate.epoch (prior.epoch + 1))) "Device-list epoch must increase by one."
  throw_if (is_null candidate.previous_commitment)
      "Next device list requires a previous commitment."

pub assert_not_rollback :
    (String → Bool) → (DeviceList → String) → DeviceList → DeviceList → Result String (Unit {0})
assert_not_rollback is_nfc canonical held candidate = do
  held_list ← create_device_list is_nfc held
  candidate_list ← create_device_list is_nfc candidate
  throw_if (not (candidate_list.identity_reference == held_list.identity_reference))
      "Device-list identity scope changed."
  throw_if (ltb candidate_list.epoch held_list.epoch) "Device-list rollback rejected."
  throw_if
      (eqb candidate_list.epoch held_list.epoch
        && not (canonical candidate_list == canonical held_list))
      "Same-epoch device-list fork rejected."

abbrev pub is_current : EpochValidation → Bool
is_current current = true
is_current _ = false

pub assert_current_epoch : (String → Bool) → DeviceList → ℕ → Result String (Unit {0})
assert_current_epoch is_nfc held candidate = do
  list ← create_device_list is_nfc held
  v ← compare_epoch list.epoch candidate
  throw_if (not (is_current v)) "Stale device-list epoch."
