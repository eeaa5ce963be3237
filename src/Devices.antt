-- ===== src/Devices.antt =====
-- service/src/devices/deviceIdentity.ts and deviceList.ts: public entries of devices and their lists.
-- An error is the text of the thrown message. `is_nfc` stands for the runtime's normalisation of
-- Unicode, which leaves a text as it is or not. A safe integer that is not negative is a natural number
-- up to the largest safe one.
pub mod Freshness
pub mod Trust
pub mod Entries
pub mod Epoch
pub mod Lifecycle
use k3ncrypt.Base.{
  ℕ, ◌+◌, String, string_eq, ◌==◌, Bool, true, false, not, ◌&&◌, ◌||◌, Option, none, some, List, [],
  ◌∷◌, leb, ltb, eqb, if◌then◌else◌, any, all, find, includes, length, Result, ok, err, ◌>>=◌, ◌>>◌,
  throw_if,
}
use k3ncrypt.Base.Text.{codes, is_lower_hex}
use k3ncrypt.Guard.{max_safe_integer}

pub data DeviceLifecycleState : Type 0 where
  pending_enrollment approved_pending_confirmation active revoked : DeviceLifecycleState

pub record DeviceEntry : Type 0 where
  pub device_id : String
  pub public_identity_reference : String
  pub algorithm : String
  pub state : DeviceLifecycleState
  pub created_at : ℕ
  pub revoked_at : Option ℕ
  pub label : Option String

pub record DeviceList : Type 0 where
  pub version : ℕ
  pub identity_reference : String
  pub epoch : ℕ
  pub previous_commitment : Option String
  pub devices : List DeviceEntry

abbrev pub max_id_length : ℕ
max_id_length = 256

abbrev pub max_algorithm_length : ℕ
max_algorithm_length = 128

abbrev pub max_label_length : ℕ
max_label_length = 128

-- The length of a JavaScript string, in units of sixteen bits.
unfoldable pub units : List ℕ → ℕ
units [] = 0
units (c ∷ cs) = (if leb 65_536 c then 2 else 1) + units cs

abbrev pub is_control : ℕ → Bool
is_control c = leb c 31 || eqb c 127

pub is_revoked : DeviceLifecycleState → Bool
is_revoked revoked = true
is_revoked _ = false

unfoldable pub is_active : DeviceLifecycleState → Bool
is_active active = true
is_active _ = false

abbrev pub is_set : Option ℕ → Bool
is_set none = false
is_set (some n) = true

abbrev pub bad_timestamp : ℕ → Bool
bad_timestamp n = ltb max_safe_integer n

abbrev pub bad_revoked_at : Option ℕ → Bool
bad_revoked_at none = false
bad_revoked_at (some n) = bad_timestamp n

abbrev pub precedes : Option ℕ → ℕ → Bool
precedes none created = false
precedes (some n) created = ltb n created

module _ (is_nfc : String → Bool) where
  -- The throwing condition of `assertString`.
  pub bad_string : String → ℕ → Bool
  bad_string value most =
      eqb (length (codes value)) 0
      || ltb most (units (codes value))
      || any is_control (codes value)
      || not (is_nfc value)

  abbrev pub bad_label : Option String → Bool
  bad_label none = false
  bad_label (some label) = bad_string label max_label_length

  pub create_device_entry : DeviceEntry → Result String DeviceEntry
  create_device_entry value = do
    throw_if (bad_string value.device_id max_id_length) "Invalid device identity deviceId."
    throw_if (bad_string value.public_identity_reference max_id_length)
        "Invalid device identity publicIdentityReference."
    throw_if (bad_string value.algorithm max_algorithm_length) "Invalid device identity algorithm."
    throw_if (bad_timestamp value.created_at) "Invalid device identity createdAt."
    throw_if (bad_revoked_at value.revoked_at) "Invalid device identity revokedAt."
    throw_if (bad_label value.label) "Invalid device identity label."
    throw_if (is_revoked value.state && not (is_set value.revoked_at))
        "Revoked devices require revokedAt."
    throw_if (not (is_revoked value.state) && is_set value.revoked_at)
        "Only revoked devices may have revokedAt."
    throw_if (precedes value.revoked_at value.created_at) "Device revocation precedes creation."
    ok value

  pub create_entries : List DeviceEntry → Result String (List DeviceEntry)
  create_entries [] = ok []
  create_entries (e ∷ es) = do
    entry ← create_device_entry e
    entries ← create_entries es
    ok (entry ∷ entries)

-- `isValidDeviceLifecycleTransition`.
pub is_valid_device_lifecycle_transition : DeviceLifecycleState → DeviceLifecycleState → Bool
is_valid_device_lifecycle_transition pending_enrollment active = false
is_valid_device_lifecycle_transition pending_enrollment _ = true
is_valid_device_lifecycle_transition approved_pending_confirmation pending_enrollment = false
is_valid_device_lifecycle_transition approved_pending_confirmation _ = true
is_valid_device_lifecycle_transition active active = true
is_valid_device_lifecycle_transition active revoked = true
is_valid_device_lifecycle_transition active _ = false
is_valid_device_lifecycle_transition revoked revoked = true
is_valid_device_lifecycle_transition revoked _ = false

pub assert_device_can_authorize : DeviceEntry → Result String (Unit {0})
assert_device_can_authorize entry =
    throw_if (not (is_active entry.state)) "Only active devices may authorize operations."

unfoldable pub is_commitment : String → Bool
is_commitment value = eqb (length (codes value)) 64 && all is_lower_hex (codes value)

abbrev pub bad_commitment : Option String → Bool
bad_commitment none = false
bad_commitment (some c) = not (is_commitment c)

-- The loop over the entries, with the identifiers and the identities so far.
pub assert_distinct : List String → List String → List DeviceEntry → Result String (Unit {0})
assert_distinct ids identities [] = ok tt
assert_distinct ids identities (entry ∷ entries) = do
  throw_if (includes ids entry.device_id) "Duplicate device identifier."
  throw_if (includes identities entry.public_identity_reference) "Duplicate device public identity."
  assert_distinct (entry.device_id ∷ ids) (entry.public_identity_reference ∷ identities) entries

pub create_device_list : (String → Bool) → DeviceList → Result String DeviceList
create_device_list is_nfc value = do
  throw_if (not (eqb value.version 1)) "Unsupported device-list version."
  throw_if (bad_string is_nfc value.identity_reference 256) "Invalid device list."
  throw_if (bad_timestamp value.epoch) "Invalid device list."
  throw_if (bad_commitment value.previous_commitment) "Invalid device list."
  devices ← create_entries is_nfc value.devices
  assert_distinct [] [] devices
  ok (record value { devices = devices })

unfoldable pub device_entry_by_id : List DeviceEntry → String → Option DeviceEntry
device_entry_by_id devices id = find (λ entry. entry.device_id == id) devices
