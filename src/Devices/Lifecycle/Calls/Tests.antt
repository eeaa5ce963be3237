-- ===== src/Devices/Lifecycle/Calls/Tests.antt =====
-- Calls of service/src/devices/lifecycle.ts on a concrete list.
use k3ncrypt.Base.{
  ℕ, ◌≡◌, refl, String, string_eq, true, Option, some, none, List, [], ◌∷◌, ok, err,
}
use k3ncrypt.Base.Text.{is_digit, is_lower_hex}
use k3ncrypt.Devices.{
  active, revoked, DeviceEntry, units, is_revoked, is_active, bad_string, create_device_entry,
  create_entries, assert_device_can_authorize, is_commitment, assert_distinct, create_device_list,
  device_entry_by_id,
}
use k3ncrypt.Devices.Epoch.{assert_next_epoch}
use k3ncrypt.Devices.Lifecycle.{
  DeviceRuntime, AuthenticatedDeviceContext, DeviceAuthorization, EnrollmentConfirmation,
  RevocationConfirmation, LifecycleStateSnapshot, AuthorizationRecord, enroll, revoke,
  is_nonce_char, is_nonce, is_digest, bad_context, assert_context, outside_window, assert_window,
  bad_author, assert_author, verify_authorization_digest, not_from_sender, other_state, next_list,
}
use k3ncrypt.Devices.Lifecycle.Calls.{
  Commit, other_revocation, verify_revocation_digest, verify_enrollment_digest, irrevocable,
  bad_version_or_nonce, not_enrolled_by, enrollment_allowed, enrolled_entry, apply_enrollment,
  other_confirmation, other_epoch, other_approval, is_approved, confirmation_allowed,
  confirm_enrollment, revocation_allowed, apply_revocation,
}
use k3ncrypt.Devices.Lifecycle.Calls.Authority.{Revokes, apply_revocation-Revokes}
use k3ncrypt.Devices.Lifecycle.Calls.Enrollment.{
  Enrolls, apply_enrollment-Enrolls, Confirms, confirm_enrollment-Confirms,
}
use k3ncrypt.Devices.Lifecycle.Calls.History.{
  Call, enrolls, confirms, revokes, serve, run, Evolves, run-Evolves,
}

devices : Unit {0}
unfolding is_digit is_lower_hex units is_revoked is_active bad_string create_device_entry
    create_entries assert_device_can_authorize is_commitment assert_distinct create_device_list
    device_entry_by_id assert_next_epoch is_nonce_char is_nonce is_digest bad_context assert_context
    outside_window assert_window bad_author assert_author verify_authorization_digest
    not_from_sender other_state next_list other_revocation verify_revocation_digest
    verify_enrollment_digest irrevocable bad_version_or_nonce not_enrolled_by enrollment_allowed
    apply_enrollment other_confirmation other_epoch other_approval is_approved confirmation_allowed
    confirm_enrollment revocation_allowed apply_revocation serve run
devices = tt

abbrev digest_a : String
digest_a = "aaaaaaaaaaaaaaaaaaaaaaaaaaaaaaaaaaaaaaaaaaaaaaaaaaaaaaaaaaaaaaaa"

abbrev digest_b : String
digest_b = "bbbbbbbbbbbbbbbbbbbbbbbbbbbbbbbbbbbbbbbbbbbbbbbbbbbbbbbbbbbbbbbb"

-- Digests that are one text each, and a verifier that passes.
abbrev runtime : DeviceRuntime
runtime = record {
  is_nfc = λ s. true;
  list_commitment = λ l. digest_b;
  digest_authorization = λ a. digest_a;
  digest_enrollment = λ c. digest_b;
  digest_revocation = λ c. digest_b;
  assert_issued = λ context payload. ok tt;
  verify = λ context a. ok tt;
}

abbrev phone : DeviceEntry
phone = record {
  device_id = "phone";
  public_identity_reference = "phone-key";
  algorithm = "ed25519";
  state = active;
  created_at = 5;
  revoked_at = none;
  label = none;
}

abbrev first : LifecycleStateSnapshot
first = record {
  list = record {
    version = 1;
    identity_reference = "ann";
    epoch = 0;
    previous_commitment = none;
    devices = phone ∷ [];
  };
  commitment = digest_a;
}

abbrev from_phone : AuthenticatedDeviceContext
from_phone = record {
  encrypted = true;
  ready = true;
  conversation_id = "self";
  user_scope = "ann";
  authenticated_sender = record {
    device_id = "phone";
    identity_reference = "phone-key";
    user_scope = "ann";
    verified = true;
  };
}

abbrev from_tablet : AuthenticatedDeviceContext
from_tablet = record from_phone {
  authenticated_sender = record {
    device_id = "tablet";
    identity_reference = "tablet-key";
    user_scope = "ann";
    verified = true;
  };
}

abbrev enrolling : DeviceAuthorization
enrolling = record {
  version = 1;
  operation = enroll;
  user_scope = "ann";
  author_device_id = "phone";
  author_identity_reference = "phone-key";
  target_device_id = "tablet";
  target_public_identity_reference = some "tablet-key";
  target_algorithm = some "ed25519";
  previous_epoch = 0;
  previous_commitment = digest_a;
  transaction_nonce = "0123456789abcdef";
  sequence = 1;
  created_at = 10;
  expires_at = 90;
  authorization_digest = digest_a;
}

abbrev committed : Commit
committed next r = ok tt

abbrev confirmation : EnrollmentConfirmation
confirmation = record {
  version = 1;
  authorization_digest = digest_a;
  target_device_id = "tablet";
  target_identity_reference = "tablet-key";
  confirmation_nonce = "0123456789abcdeF";
  confirmed_at = 12;
  expires_at = 90;
  confirmation_digest = digest_b;
}

abbrev approval : AuthorizationRecord
approval = record {
  operation = enroll;
  transaction_nonce = "0123456789abcdef";
  author_device_id = "phone";
  sequence = 1;
  digest = digest_a;
  expires_at = 90;
}

abbrev listed : ℕ → Option String → List DeviceEntry → LifecycleStateSnapshot
listed epoch previous devices = record {
  list = record {
    version = 1;
    identity_reference = "ann";
    epoch = epoch;
    previous_commitment = previous;
    devices = devices;
  };
  commitment = digest_b;
}

abbrev tablet : DeviceEntry
tablet = enrolled_entry enrolling

abbrev second : LifecycleStateSnapshot
second = listed 1 (some digest_a) (phone ∷ tablet ∷ [])

abbrev third : LifecycleStateSnapshot
third = listed 2 (some digest_b) (phone ∷ record tablet { state = active } ∷ [])

abbrev revoking_tablet : DeviceAuthorization
revoking_tablet = record enrolling {
  operation = revoke;
  previous_epoch = 2;
  previous_commitment = digest_b;
  sequence = 3;
}

abbrev revocation : RevocationConfirmation
revocation = record {
  version = 1;
  authorization_digest = digest_a;
  target_device_id = "tablet";
  confirmation_nonce = "0123456789abcdeG";
  confirmed_at = 20;
  expires_at = 90;
  confirmation_digest = digest_b;
}

abbrev fourth : LifecycleStateSnapshot
fourth =
    listed 3 (some digest_b) (phone ∷ record tablet { state = revoked; revoked_at = some 21 } ∷ [])

enrolled : apply_enrollment runtime committed 11 (some first) enrolling from_phone ≡ ok second
unfolding devices
enrolled = refl

confirmed :
    confirm_enrollment runtime committed 13
      (some second)
      (some approval)
      enrolling
      from_tablet
      confirmation
    ≡ ok third
unfolding devices
confirmed = refl

gone :
    apply_revocation runtime committed 21 (some third) revoking_tablet from_phone (some revocation)
    ≡ ok fourth
unfolding devices
gone = refl

refusals :
    (apply_revocation runtime committed 21
        (some third)
        (record revoking_tablet { target_device_id = "phone" })
        from_phone
        (some (record revocation { target_device_id = "phone" }))
      ≡ err "Device cannot be revoked.")
    × (apply_enrollment runtime committed 11 (some second) enrolling from_phone
        ≡ err "Enrollment commitment mismatch.")
    × (apply_enrollment runtime committed 91 (some first) enrolling from_phone
        ≡ err "Device authorization expired.")
    × (apply_revocation runtime committed 21 (some third) revoking_tablet from_phone none
        ≡ err "Explicit revocation confirmation required.")
unfolding devices
refusals = (refl, refl, refl, refl)

apply_enrollment-Enrolls_example : Enrolls (some first) enrolling from_phone second
apply_enrollment-Enrolls_example =
    apply_enrollment-Enrolls runtime committed 11 (some first) enrolling from_phone second enrolled

confirm_enrollment-Confirms_example : Confirms (some second) enrolling from_tablet third
confirm_enrollment-Confirms_example =
    confirm_enrollment-Confirms runtime committed 13 (some second) (some approval) enrolling
      from_tablet confirmation third confirmed

apply_revocation-Revokes_example : Revokes (some third) revoking_tablet from_phone 21 fourth
apply_revocation-Revokes_example =
    apply_revocation-Revokes runtime committed 21 (some third) revoking_tablet from_phone
      (some revocation) fourth gone

abbrev history : List (Commit × ℕ × Call)
history =
    (committed, 11, enrolls enrolling from_phone)
    ∷ (committed, 13, confirms (some approval) enrolling from_tablet confirmation)
    ∷ (committed, 21, revokes revoking_tablet from_phone (some revocation))
    ∷ []

run-Evolves_example : Evolves first (run runtime history first)
run-Evolves_example = run-Evolves runtime history first
