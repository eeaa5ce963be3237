-- ===== src/Devices/Lifecycle.antt =====
-- service/src/devices/lifecycle.ts: the data of enrollment, confirmation and revocation of devices, and
-- the checks that the calls share.
pub mod Calls
pub mod Epochs
use k3ncrypt.Base.{
  ℕ, ◌+◌, ◌*◌, String, string_eq, ◌==◌, Bool, true, false, not, ◌&&◌, ◌||◌, Option, none, some,
  List, [], ◌∷◌, ◌++◌, map, leb, ltb, eqb, if◌then◌else◌, all, length, Result, ok, err, ◌>>=◌, ◌>>◌,
  throw_if, or_throw,
}
use k3ncrypt.Base.Text.{codes, is_digit, is_lower_hex}
use k3ncrypt.Devices.{
  DeviceLifecycleState, approved_pending_confirmation, active, revoked, DeviceEntry, DeviceList,
  is_revoked, bad_timestamp, create_device_entry, create_device_list, assert_device_can_authorize,
  device_entry_by_id,
}
use k3ncrypt.Devices.Epoch.{assert_next_epoch}

pub data DeviceAuthorizationOperation : Type 0 where
  enroll revoke : DeviceAuthorizationOperation

pub record AuthenticatedSenderIdentity : Type 0 where
  pub device_id : String
  pub identity_reference : String
  pub user_scope : String
  pub verified : Bool

-- Of the session, only whether it is encrypted and ready is read.
pub record AuthenticatedDeviceContext : Type 0 where
  pub encrypted : Bool
  pub ready : Bool
  pub conversation_id : String
  pub user_scope : String
  pub authenticated_sender : AuthenticatedSenderIdentity

pub record DeviceAuthorization : Type 0 where
  pub version : ℕ
  pub operation : DeviceAuthorizationOperation
  pub user_scope : String
  pub author_device_id : String
  pub author_identity_reference : String
  pub target_device_id : String
  pub target_public_identity_reference : Option String
  pub target_algorithm : Option String
  pub previous_epoch : ℕ
  pub previous_commitment : String
  pub transaction_nonce : String
  pub sequence : ℕ
  pub created_at : ℕ
  pub expires_at : ℕ
  pub authorization_digest : String

pub record EnrollmentConfirmation : Type 0 where
  pub version : ℕ
  pub authorization_digest : String
  pub target_device_id : String
  pub target_identity_reference : String
  pub confirmation_nonce : String
  pub confirmed_at : ℕ
  pub expires_at : ℕ
  pub confirmation_digest : String

pub record RevocationConfirmation : Type 0 where
  pub version : ℕ
  pub authorization_digest : String
  pub target_device_id : String
  pub confirmation_nonce : String
  pub confirmed_at : ℕ
  pub expires_at : ℕ
  pub confirmation_digest : String

pub record LifecycleStateSnapshot : Type 0 where
  pub list : DeviceList
  pub commitment : String

pub record AuthorizationRecord : Type 0 where
  pub operation : DeviceAuthorizationOperation
  pub transaction_nonce : String
  pub author_device_id : String
  pub sequence : ℕ
  pub digest : String
  pub expires_at : ℕ

-- The payloads that a context can have been issued for.
pub data Payload : Type 0 where
  no_payload : Payload
  authorizing : DeviceAuthorization → Payload
  confirming : DeviceAuthorization → EnrollmentConfirmation → Payload
  revoking : DeviceAuthorization → RevocationConfirmation → Payload

-- What is not in this file: Unicode's normal form, the digests (SHA-256 of a canonical encoding), the
-- check that a context was issued for a payload, and the verifier of an authorization.
pub record DeviceRuntime : Type 0 where
  pub is_nfc : String → Bool
  pub list_commitment : DeviceList → String
  pub digest_authorization : DeviceAuthorization → String
  pub digest_enrollment : EnrollmentConfirmation → String
  pub digest_revocation : RevocationConfirmation → String
  pub assert_issued : AuthenticatedDeviceContext → Payload → Result String (Unit {0})
  pub verify : AuthenticatedDeviceContext → DeviceAuthorization → Result String (Unit {0})

is_nonce_char : ℕ → Bool
is_nonce_char c =
    (leb b'A' c && leb c b'Z')
    || (leb b'a' c && leb c b'z')
    || is_digit c
    || eqb c b'_'
    || eqb c b'-'

-- `NONCE_PATTERN` and `DIGEST_PATTERN`.
pub is_nonce : String → Bool
is_nonce s = leb 16 (length (codes s)) && leb (length (codes s)) 128 && all is_nonce_char (codes s)

unfoldable pub is_digest : String → Bool
is_digest s = eqb (length (codes s)) 64 && all is_lower_hex (codes s)

abbrev pub is_empty : String → Bool
is_empty s = s == ""

pub bad_context : AuthenticatedDeviceContext → Bool
bad_context context =
    let sender = context.authenticated_sender in
    not context.encrypted
    || not context.ready
    || not sender.verified
    || is_empty context.conversation_id
    || is_empty context.user_scope
    || not (context.user_scope == sender.user_scope)
    || is_empty sender.device_id
    || is_empty sender.identity_reference

pub assert_context : DeviceRuntime → AuthenticatedDeviceContext → Payload → Result String (Unit {0})
assert_context rt context payload = do
  rt.assert_issued context payload
  throw_if (bad_context context) "Authenticated device context unavailable."

pub outside_window : ℕ → ℕ → ℕ → Bool
outside_window created expires now =
    bad_timestamp created
    || bad_timestamp expires
    || ltb expires created
    || ltb now created
    || ltb expires now

pub assert_window : ℕ → ℕ → ℕ → Result String (Unit {0})
assert_window created expires now =
    throw_if (outside_window created expires now) "Device authorization expired."

pub bad_author : LifecycleStateSnapshot → DeviceAuthorization → DeviceEntry → Bool
bad_author state authorization author =
    not (author.public_identity_reference == authorization.author_identity_reference)
    || not (state.list.identity_reference == authorization.user_scope)
    || not (eqb authorization.version 1)
    || not (is_nonce authorization.transaction_nonce)
    || not (eqb authorization.sequence (authorization.previous_epoch + 1))

pub assert_author : LifecycleStateSnapshot → DeviceAuthorization → Result String (Unit {0})
assert_author state authorization = do
  author ←
      or_throw (device_entry_by_id state.list.devices authorization.author_device_id)
        "Authorization issuer unavailable."
  assert_device_can_authorize author
  throw_if (bad_author state authorization author) "Authorization issuer or scope rejected."

pub verify_authorization_digest : DeviceRuntime → DeviceAuthorization → Bool
verify_authorization_digest rt authorization =
    is_digest authorization.authorization_digest
    && rt.digest_authorization authorization == authorization.authorization_digest

-- `applyEnrollment` and `applyRevocation` compare the authorization with the sender.
pub not_from_sender : AuthenticatedDeviceContext → DeviceAuthorization → Bool
not_from_sender context authorization =
    not (authorization.user_scope == context.user_scope)
    || not (authorization.author_device_id == context.authenticated_sender.device_id)
    || not
        (authorization.author_identity_reference == context.authenticated_sender.identity_reference)

abbrev pub is_enroll : DeviceAuthorizationOperation → Bool
is_enroll enroll = true
is_enroll revoke = false

-- The authorization was made for exactly this state.
pub other_state : LifecycleStateSnapshot → DeviceAuthorization → Bool
other_state state authorization =
    not (eqb state.list.epoch authorization.previous_epoch)
    || not (state.commitment == authorization.previous_commitment)

abbrev pub is_present : Option DeviceEntry → Bool
is_present none = false
is_present (some e) = true

-- A missing text fails the checks of an entry just as an empty one does.
abbrev pub or_empty : Option String → String
or_empty none = ""
or_empty (some s) = s

-- The next list, checked against the one before.
pub next_list :
    DeviceRuntime → LifecycleStateSnapshot → List DeviceEntry → Result String LifecycleStateSnapshot
next_list rt state devices = do
  list ← create_device_list rt.is_nfc (record {
    version = 1;
    identity_reference = state.list.identity_reference;
    epoch = state.list.epoch + 1;
    previous_commitment = some state.commitment;
    devices = devices;
  })
  assert_next_epoch rt.is_nfc state.list list
  ok (record { list = list; commitment = rt.list_commitment list })

-- The devices with one entry put in place of the one with its identifier.
abbrev pub with_entry : DeviceEntry → List DeviceEntry → List DeviceEntry
with_entry e = map (λ entry. if entry.device_id == e.device_id then e else entry)
