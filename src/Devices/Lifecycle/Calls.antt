-- ===== src/Devices/Lifecycle/Calls.antt =====
-- service/src/devices/lifecycle.ts: the calls of `DeviceLifecycleService` that change a list. The clock
-- is read as one instant during a call. What a call gets from the persistence is an argument: the
-- stored state, a stored approval, and the answer of the atomic commit.
pub mod Authority
pub mod Enrollment
pub mod History
mod Tests
use k3ncrypt.Base.{
  ℕ, ◌+◌, String, string_eq, ◌==◌, Bool, true, false, not, ◌&&◌, ◌||◌, Option, none, some, List, [],
  ◌∷◌, ◌++◌, eqb, Result, ok, err, ◌>>=◌, ◌>>◌, throw_if, or_throw,
}
use k3ncrypt.Devices.{
  DeviceLifecycleState, approved_pending_confirmation, active, revoked, DeviceEntry, is_revoked,
  create_device_entry, device_entry_by_id,
}
use k3ncrypt.Devices.Lifecycle.{
  DeviceRuntime, AuthenticatedDeviceContext, DeviceAuthorization, EnrollmentConfirmation,
  RevocationConfirmation, LifecycleStateSnapshot, AuthorizationRecord, enroll, revoke, authorizing,
  confirming, revoking, is_nonce, is_digest, assert_context, assert_window, assert_author,
  verify_authorization_digest, not_from_sender, is_enroll, other_state, is_present, or_empty,
  next_list, with_entry,
}

-- `commitEnrollment` and `commitRevocation`: the persistence's answer to the next state.
abbrev pub Commit : Type 0
Commit = LifecycleStateSnapshot → AuthorizationRecord → Result String (Unit {0})

-- The parts of a revocation and its confirmation that have to agree.
pub other_revocation :
    DeviceAuthorization → AuthenticatedDeviceContext → RevocationConfirmation → Bool
other_revocation authorization context confirmation =
    is_enroll authorization.operation
    || not_from_sender context authorization
    || not (confirmation.authorization_digest == authorization.authorization_digest)
    || not (confirmation.target_device_id == authorization.target_device_id)

pub verify_revocation_digest : DeviceRuntime → RevocationConfirmation → Bool
verify_revocation_digest rt confirmation =
    is_digest confirmation.confirmation_digest
    && rt.digest_revocation confirmation == confirmation.confirmation_digest

pub verify_enrollment_digest : DeviceRuntime → EnrollmentConfirmation → Bool
verify_enrollment_digest rt confirmation =
    is_digest confirmation.confirmation_digest
    && rt.digest_enrollment confirmation == confirmation.confirmation_digest

pub irrevocable : DeviceEntry → DeviceAuthorization → Bool
irrevocable target authorization =
    is_revoked target.state || target.device_id == authorization.author_device_id

pub bad_version_or_nonce : ℕ → String → Bool
bad_version_or_nonce version nonce = not (eqb version 1) || not (is_nonce nonce)

pub not_enrolled_by : AuthenticatedDeviceContext → DeviceAuthorization → Bool
not_enrolled_by context authorization =
    not (is_enroll authorization.operation) || not_from_sender context authorization

-- `applyEnrollment` up to the new entry: the state that it was checked against.
pub enrollment_allowed :
    DeviceRuntime
    → ℕ
    → Option LifecycleStateSnapshot
    → DeviceAuthorization
    → AuthenticatedDeviceContext
    → Result String LifecycleStateSnapshot
enrollment_allowed rt now stored authorization context = do
  assert_context rt context (authorizing authorization)
  rt.verify context authorization
  throw_if (not_enrolled_by context authorization) "Enrollment authorization rejected."
  throw_if (not (verify_authorization_digest rt authorization)) "Enrollment authorization rejected."
  assert_window authorization.created_at authorization.expires_at now
  state ← or_throw stored "Device list unavailable."
  throw_if (other_state state authorization) "Enrollment commitment mismatch."
  assert_author state authorization
  throw_if (is_present (device_entry_by_id state.list.devices authorization.target_device_id))
      "Device identifier already exists."
  ok state

abbrev pub enrolled_entry : DeviceAuthorization → DeviceEntry
enrolled_entry authorization = record {
  device_id = authorization.target_device_id;
  public_identity_reference = or_empty authorization.target_public_identity_reference;
  algorithm = or_empty authorization.target_algorithm;
  state = approved_pending_confirmation;
  created_at = authorization.created_at;
  revoked_at = none;
  label = none;
}

pub apply_enrollment :
    DeviceRuntime
    → Commit
    → ℕ
    → Option LifecycleStateSnapshot
    → DeviceAuthorization
    → AuthenticatedDeviceContext
    → Result String LifecycleStateSnapshot
apply_enrollment rt commit now stored authorization context = do
  state ← enrollment_allowed rt now stored authorization context
  entry ← create_device_entry rt.is_nfc (enrolled_entry authorization)
  next ← next_list rt state (state.list.devices ++ entry ∷ [])
  commit next (record {
    operation = enroll;
    transaction_nonce = authorization.transaction_nonce;
    author_device_id = authorization.author_device_id;
    sequence = authorization.sequence;
    digest = authorization.authorization_digest;
    expires_at = authorization.expires_at;
  })
  ok next

abbrev pub is_text : Option String → String → Bool
is_text none s = false
is_text (some t) s = t == s

-- `confirmation.targetIdentityReference !== …` and the rest of that condition.
pub other_confirmation :
    DeviceAuthorization → AuthenticatedDeviceContext → EnrollmentConfirmation → Bool
other_confirmation authorization context confirmation =
    not (is_enroll authorization.operation)
    || not (confirmation.authorization_digest == authorization.authorization_digest)
    || not (confirmation.target_device_id == authorization.target_device_id)
    || not (
        is_text authorization.target_public_identity_reference
          confirmation.target_identity_reference)
    || not (context.authenticated_sender.device_id == authorization.target_device_id)
    || not (
        is_text authorization.target_public_identity_reference
          context.authenticated_sender.identity_reference)

-- The epoch after the authorization's, and either commitment is the authorization's.
pub other_epoch : LifecycleStateSnapshot → DeviceAuthorization → Bool
other_epoch state authorization =
    not (eqb state.list.epoch (authorization.previous_epoch + 1))
    || (not (state.commitment == authorization.previous_commitment)
        && not (is_text state.list.previous_commitment authorization.previous_commitment))

abbrev pub other_nonce : Option AuthorizationRecord → DeviceAuthorization → Bool
other_nonce none authorization = true
other_nonce (some approved) authorization =
    not (approved.transaction_nonce == authorization.transaction_nonce)

pub other_approval :
    Option AuthorizationRecord → DeviceAuthorization → EnrollmentConfirmation → DeviceEntry → Bool
other_approval approved authorization confirmation target =
    other_nonce approved authorization
    || not (target.public_identity_reference == confirmation.target_identity_reference)
    || not (is_text authorization.target_algorithm target.algorithm)

pub is_approved : DeviceLifecycleState → Bool
is_approved approved_pending_confirmation = true
is_approved _ = false

-- `confirmEnrollment` up to the active entry: the state and the entry that it was checked against.
pub confirmation_allowed :
    DeviceRuntime
    → ℕ
    → Option LifecycleStateSnapshot
    → Option AuthorizationRecord
    → DeviceAuthorization
    → AuthenticatedDeviceContext
    → EnrollmentConfirmation
    → Result String (LifecycleStateSnapshot × DeviceEntry)
confirmation_allowed rt now stored approved authorization context confirmation = do
  assert_context rt context (confirming authorization confirmation)
  throw_if
      (not (authorization.user_scope == context.user_scope)
        || bad_version_or_nonce confirmation.version confirmation.confirmation_nonce)
      "Enrollment confirmation rejected."
  throw_if (other_confirmation authorization context confirmation)
      "Enrollment confirmation rejected."
  throw_if
      (not (verify_authorization_digest rt authorization)
        || not (verify_enrollment_digest rt confirmation))
      "Enrollment confirmation rejected."
  assert_window authorization.created_at authorization.expires_at now
  assert_window confirmation.confirmed_at confirmation.expires_at now
  state ← or_throw stored "Device list unavailable."
  throw_if (other_epoch state authorization) "Enrollment confirmation epoch mismatch."
  target ←
      or_throw (device_entry_by_id state.list.devices authorization.target_device_id)
        "Enrollment target unavailable."
  assert_author state authorization
  throw_if (other_approval approved authorization confirmation target)
      "Enrollment confirmation does not match stored approval."
  throw_if (not (is_approved target.state)) "Enrollment confirmation state invalid."
  ok (state, target)

pub confirm_enrollment :
    DeviceRuntime
    → Commit
    → ℕ
    → Option LifecycleStateSnapshot
    → Option AuthorizationRecord
    → DeviceAuthorization
    → AuthenticatedDeviceContext
    → EnrollmentConfirmation
    → Result String LifecycleStateSnapshot
confirm_enrollment rt commit now stored approved authorization context confirmation = do
  (state, target) ← confirmation_allowed rt now stored approved authorization context confirmation
  entry ← create_device_entry rt.is_nfc (record target { state = active })
  next ← next_list rt state (with_entry entry state.list.devices)
  commit next (record {
    operation = enroll;
    transaction_nonce = confirmation.confirmation_nonce;
    author_device_id = context.authenticated_sender.device_id;
    sequence = authorization.sequence + 1;
    digest = confirmation.confirmation_digest;
    expires_at = confirmation.expires_at;
  })
  ok next

-- `applyRevocation` up to the revoked entry, with its confirmation at hand.
pub revocation_allowed :
    DeviceRuntime
    → ℕ
    → Option LifecycleStateSnapshot
    → DeviceAuthorization
    → AuthenticatedDeviceContext
    → RevocationConfirmation
    → Result String (LifecycleStateSnapshot × DeviceEntry)
revocation_allowed rt now stored authorization context confirmation = do
  assert_context rt context (revoking authorization confirmation)
  rt.verify context authorization
  throw_if (other_revocation authorization context confirmation)
      "Revocation authorization rejected."
  throw_if (not (verify_revocation_digest rt confirmation)) "Revocation confirmation rejected."
  throw_if (not (verify_authorization_digest rt authorization)) "Revocation authorization rejected."
  assert_window authorization.created_at authorization.expires_at now
  state ← or_throw stored "Device list unavailable."
  throw_if (other_state state authorization) "Revocation commitment mismatch."
  assert_author state authorization
  assert_window confirmation.confirmed_at confirmation.expires_at now
  throw_if (bad_version_or_nonce confirmation.version confirmation.confirmation_nonce)
      "Revocation confirmation rejected."
  target ←
      or_throw (device_entry_by_id state.list.devices authorization.target_device_id)
        "Device cannot be revoked."
  throw_if (irrevocable target authorization) "Device cannot be revoked."
  ok (state, target)

pub apply_revocation :
    DeviceRuntime
    → Commit
    → ℕ
    → Option LifecycleStateSnapshot
    → DeviceAuthorization
    → AuthenticatedDeviceContext
    → Option RevocationConfirmation
    → Result String LifecycleStateSnapshot
apply_revocation rt commit now stored authorization context none =
    err "Explicit revocation confirmation required."
apply_revocation rt commit now stored authorization context (some confirmation) = do
  (state, target) ← revocation_allowed rt now stored authorization context confirmation
  entry ← create_device_entry rt.is_nfc (record target { state = revoked; revoked_at = some now })
  next ← next_list rt state (with_entry entry state.list.devices)
  commit next (record {
    operation = revoke;
    transaction_nonce = authorization.transaction_nonce;
    author_device_id = authorization.author_device_id;
    sequence = authorization.sequence;
    digest = authorization.authorization_digest;
    expires_at = authorization.expires_at;
  })
  ok next
