-- ===== src/Devices/Lifecycle/Calls/Enrollment.antt =====
-- service/src/devices/lifecycle.ts: what an enrollment and its confirmation have checked and leave.
use k3ncrypt.Base.{
  ℕ, ◌≡◌, refl, ap, ◌∙◌, string_eq, ◌==◌, true, false, not, ◌||◌, Option, none, some, [], ◌∷◌, ◌++◌,
  arith, ok, passed, present, returned,
}
use text.Mathlib.TextEquality.{eq_iff}
use k3ncrypt.Devices.{
  DeviceLifecycleState, approved_pending_confirmation, active, DeviceEntry, create_device_entry,
  device_entry_by_id, is_valid_device_lifecycle_transition,
}
use k3ncrypt.Devices.Entries.{create_device_entry-same, found-append_new}
use k3ncrypt.Devices.Lifecycle.{
  DeviceRuntime, AuthenticatedDeviceContext, DeviceAuthorization, EnrollmentConfirmation,
  LifecycleStateSnapshot, AuthorizationRecord, assert_author, other_state, next_list, with_entry,
  assert_context, verify_authorization_digest, assert_window, is_present, authorizing, confirming,
}
use k3ncrypt.Devices.Lifecycle.Epochs.{
  Continues, append-KeepsEntries, with_entry-KeepsEntries, Follows, next_list-Follows,
  next_list-devices,
}
use k3ncrypt.Devices.Lifecycle.Calls.{
  Commit, bad_version_or_nonce, verify_enrollment_digest, not_enrolled_by, enrollment_allowed,
  enrolled_entry, apply_enrollment, confirmation_allowed, confirm_enrollment, is_approved,
  other_confirmation, other_epoch, other_approval,
}
use k3ncrypt.Devices.Lifecycle.Calls.Authority.{
  Authored, SentByAuthor, not_from_sender-SentByAuthor, assert_author-Authored, replaced-found,
}

record EnrollmentChecked (stored : Option LifecycleStateSnapshot) (a : DeviceAuthorization)
    (context : AuthenticatedDeviceContext) (s : LifecycleStateSnapshot) : Type 0 where
  sent : SentByAuthor context a
  found : stored ≡ some s
  author : assert_author s a ≡ ok tt
  absent : device_entry_by_id s.list.devices a.target_device_id ≡ none

no_entry : (o : Option DeviceEntry) → is_present o ≡ false → o ≡ none
no_entry none h = refl
no_entry (some e) h = cc

enrollment_allowed_lem :
    (rt : DeviceRuntime) (now : ℕ) (stored : Option LifecycleStateSnapshot)
    (a : DeviceAuthorization) (context : AuthenticatedDeviceContext) (s : LifecycleStateSnapshot)
    → enrollment_allowed rt now stored a context ≡ ok s
    → EnrollmentChecked stored a context s
unfolding enrollment_allowed not_enrolled_by
enrollment_allowed_lem rt now stored a context s h =
    let (_, _, h1) = returned (assert_context rt context (authorizing a)) _ h in
    let (_, _, h2) = returned (rt.verify context a) _ h1 in
    let (from_author, h3) = passed (not_enrolled_by context a) _ _ h2 in
    let (_, h4) = passed (not (verify_authorization_digest rt a)) _ _ h3 in
    let (_, _, h5) = returned (assert_window a.created_at a.expires_at now) _ h4 in
    let (s', found, h6) = present stored _ _ h5 in
    let (_, h7) = passed (other_state s' a) _ _ h6 in
    let (_, author, h8) = returned (assert_author s' a) _ h7 in
    let (absent, h9) =
      passed (is_present (device_entry_by_id s'.list.devices a.target_device_id)) _ _ h8 in
    let same : s ≡ s' = ground (arith, h9) in
    record {
      sent = not_from_sender-SentByAuthor context a (ground (arith, from_author));
      found = ground (arith, found, same);
      author = rw same author;
      absent = rw same (no_entry (device_entry_by_id s'.list.devices a.target_device_id) absent);
    }

-- An accepted enrollment: the list follows the stored one, in which the target was not, and has the
-- target waiting for its confirmation; the sender is an active device.
pub record Enrolls (stored : Option LifecycleStateSnapshot) (a : DeviceAuthorization)
    (context : AuthenticatedDeviceContext) (t : LifecycleStateSnapshot) : Type 0 where
  pub before : LifecycleStateSnapshot
  pub was_stored : stored ≡ some before
  pub absent : device_entry_by_id before.list.devices a.target_device_id ≡ none
  pub follows : Follows before t
  pub authored : Authored before a
  pub sent : SentByAuthor context a
  pub after : device_entry_by_id t.list.devices a.target_device_id ≡ some (enrolled_entry a)

enrollment-Enrolls :
    (rt : DeviceRuntime) (stored : Option LifecycleStateSnapshot) (a : DeviceAuthorization)
    (context : AuthenticatedDeviceContext) (s t : LifecycleStateSnapshot) (e : DeviceEntry)
    → EnrollmentChecked stored a context s
    → e ≡ enrolled_entry a
    → next_list rt s (s.list.devices ++ e ∷ []) ≡ ok t
    → Enrolls stored a context t
enrollment-Enrolls rt stored a context s t e k made listed = record {
  before = s;
  was_stored = k.found;
  absent = k.absent;
  follows =
      next_list-Follows rt s t (s.list.devices ++ e ∷ []) listed
        (append-KeepsEntries s.list.devices e);
  authored = assert_author-Authored s a k.author;
  sent = k.sent;
  after =
      rw (next_list-devices rt s t (s.list.devices ++ e ∷ []) listed, ← made)
        (found-append_new s.list.devices e a.target_device_id k.absent
          (ap (λ (x : DeviceEntry). x.device_id) made));
}

-- An enrollment succeeds only if the sender that the session has authenticated is an active device of the
-- stored list, by its device identifier and its identity, and is the author in the authorization, in the
-- session's user scope; its target is an identifier that the list does not have, and waits for its
-- confirmation in a list that follows the stored one.
pub apply_enrollment-Enrolls :
    (rt : DeviceRuntime) (commit : Commit) (now : ℕ) (stored : Option LifecycleStateSnapshot)
    (a : DeviceAuthorization) (context : AuthenticatedDeviceContext) (t : LifecycleStateSnapshot)
    → apply_enrollment rt commit now stored a context ≡ ok t
    → Enrolls stored a context t
unfolding apply_enrollment
apply_enrollment-Enrolls rt commit now stored a context t h =
    let (s, allowed, h1) = returned (enrollment_allowed rt now stored a context) _ h in
    let (e, made, h2) = returned (create_device_entry rt.is_nfc _) _ h1 in
    let (next, listed, h3) = returned (next_list rt s (s.list.devices ++ e ∷ [])) _ h2 in
    let (_, _, h4) = returned (commit next _) _ h3 in
    enrollment-Enrolls rt stored a context s t e
      (enrollment_allowed_lem rt now stored a context s allowed)
      (create_device_entry-same rt.is_nfc _ e made) (listed ∙ h4)

record ConfirmationChecked (stored : Option LifecycleStateSnapshot) (a : DeviceAuthorization)
    (context : AuthenticatedDeviceContext) (s : LifecycleStateSnapshot) (target : DeviceEntry)
    : Type 0 where
  found : stored ≡ some s
  author : assert_author s a ≡ ok tt
  listed : device_entry_by_id s.list.devices a.target_device_id ≡ some target
  waiting : target.state ≡ approved_pending_confirmation
  sender : context.authenticated_sender.device_id ≡ a.target_device_id

approved_state :
    (x : DeviceLifecycleState) → is_approved x ≡ true → x ≡ approved_pending_confirmation
unfolding is_approved
approved_state x h = ground arith

target_sends :
    (a : DeviceAuthorization) (context : AuthenticatedDeviceContext) (c : EnrollmentConfirmation)
    → other_confirmation a context c ≡ false
    → context.authenticated_sender.device_id ≡ a.target_device_id
unfolding other_confirmation
target_sends a context c h =
    ground (arith, eq_iff context.authenticated_sender.device_id a.target_device_id)

confirmation_allowed_lem :
    (rt : DeviceRuntime) (now : ℕ) (stored : Option LifecycleStateSnapshot)
    (approved : Option AuthorizationRecord) (a : DeviceAuthorization)
    (context : AuthenticatedDeviceContext) (c : EnrollmentConfirmation) (s : LifecycleStateSnapshot)
    (target : DeviceEntry)
    → confirmation_allowed rt now stored approved a context c ≡ ok (s, target)
    → ConfirmationChecked stored a context s target
unfolding confirmation_allowed
confirmation_allowed_lem rt now stored approved a context c s target h =
    let (_, _, h1) = returned (assert_context rt context (confirming a c)) _ h in
    let (_, h2) =
      passed
        (not (a.user_scope == context.user_scope)
          || bad_version_or_nonce c.version c.confirmation_nonce)
        _ _ h1 in
    let (agrees, h3) = passed (other_confirmation a context c) _ _ h2 in
    let (_, h4) =
      passed (not (verify_authorization_digest rt a) || not (verify_enrollment_digest rt c)) _ _
        h3 in
    let (_, _, h5) = returned (assert_window a.created_at a.expires_at now) _ h4 in
    let (_, _, h6) = returned (assert_window c.confirmed_at c.expires_at now) _ h5 in
    let (s', found, h7) = present stored _ _ h6 in
    let (_, h8) = passed (other_epoch s' a) _ _ h7 in
    let (t, listed, h9) = present (device_entry_by_id s'.list.devices a.target_device_id) _ _ h8 in
    let (_, author, h10) = returned (assert_author s' a) _ h9 in
    let (_, h11) = passed (other_approval approved a c t) _ _ h10 in
    let (waiting, h12) = passed (not (is_approved t.state)) _ _ h11 in
    let same_s : s ≡ s' = ground (arith, h12) in
    let same_t : target ≡ t = ground (arith, h12) in
    record {
      found = ground (arith, found, same_s);
      author = rw same_s author;
      listed = rw (same_s, same_t) listed;
      waiting = rw same_t (approved_state t.state (ground (arith, waiting)));
      sender = target_sends a context c agrees;
    }

-- An accepted confirmation: the list follows the stored one, in which the target waited for it, and
-- has the target active; it was sent by the target, and the author is an active device.
pub record Confirms (stored : Option LifecycleStateSnapshot) (a : DeviceAuthorization)
    (context : AuthenticatedDeviceContext) (t : LifecycleStateSnapshot) : Type 0 where
  pub before : LifecycleStateSnapshot
  pub target : DeviceEntry
  pub was_stored : stored ≡ some before
  pub listed : device_entry_by_id before.list.devices a.target_device_id ≡ some target
  pub waiting : target.state ≡ approved_pending_confirmation
  pub follows : Follows before t
  pub authored : Authored before a
  pub sender : context.authenticated_sender.device_id ≡ a.target_device_id
  pub after :
      device_entry_by_id t.list.devices a.target_device_id ≡ some (record target { state = active })

active-Continues :
    (e : DeviceEntry)
    → e.state ≡ approved_pending_confirmation
    → Continues e (record e { state = active })
unfolding is_valid_device_lifecycle_transition
active-Continues e waiting = record {
  device_id = refl;
  identity = refl;
  algorithm = refl;
  created_at = refl;
  allowed = ground (arith, waiting);
}

confirmation-Confirms :
    (rt : DeviceRuntime) (stored : Option LifecycleStateSnapshot) (a : DeviceAuthorization)
    (context : AuthenticatedDeviceContext) (s t : LifecycleStateSnapshot) (target e : DeviceEntry)
    → ConfirmationChecked stored a context s target
    → e ≡ record target { state = active }
    → next_list rt s (with_entry e s.list.devices) ≡ ok t
    → Confirms stored a context t
confirmation-Confirms rt stored a context s t target e k made listed =
    let continued : Continues target e = rw made (active-Continues target k.waiting) in
    record {
      before = s;
      target = target;
      was_stored = k.found;
      listed = k.listed;
      waiting = k.waiting;
      follows =
          next_list-Follows rt s t (with_entry e s.list.devices) listed
            (with_entry-KeepsEntries s.list.devices target e a.target_device_id k.listed continued);
      authored = assert_author-Authored s a k.author;
      sender = k.sender;
      after =
          rw (← made)
            (replaced-found rt s t e target a.target_device_id k.listed continued.device_id listed);
    }

-- A confirmation succeeds only from the device that was approved and waits for it, on the authorization
-- of an active device, and leaves that device active in a list that follows the stored one.
pub confirm_enrollment-Confirms :
    (rt : DeviceRuntime) (commit : Commit) (now : ℕ) (stored : Option LifecycleStateSnapshot)
    (approved : Option AuthorizationRecord) (a : DeviceAuthorization)
    (context : AuthenticatedDeviceContext) (c : EnrollmentConfirmation) (t : LifecycleStateSnapshot)
    → confirm_enrollment rt commit now stored approved a context c ≡ ok t
    → Confirms stored a context t
unfolding confirm_enrollment
confirm_enrollment-Confirms rt commit now stored approved a context c t h =
    let ((s, target), allowed, h1) =
      returned (confirmation_allowed rt now stored approved a context c) _ h in
    let (e, made, h2) = returned (create_device_entry rt.is_nfc _) _ h1 in
    let (next, listed, h3) = returned (next_list rt s (with_entry e s.list.devices)) _ h2 in
    let (_, _, h4) = returned (commit next _) _ h3 in
    confirmation-Confirms rt stored a context s t target e
      (confirmation_allowed_lem rt now stored approved a context c s target allowed)
      (create_device_entry-same rt.is_nfc _ e made) (listed ∙ h4)
