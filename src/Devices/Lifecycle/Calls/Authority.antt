-- ===== src/Devices/Lifecycle/Calls/Authority.antt =====
-- service/src/devices/lifecycle.ts: what each call that succeeds has checked, and what it leaves.
use k3ncrypt.Base.{
  ℕ, ◌≡◌, refl, sym, ◌∙◌, String, string_eq, ◌==◌, true, false, not, Option, none, some, arith, ok,
  passed, present, returned,
}
use text.Mathlib.TextEquality.{eq_iff}
use k3ncrypt.Devices.{
  DeviceLifecycleState, active, revoked, DeviceEntry, is_revoked, is_active, create_device_entry,
  device_entry_by_id, is_valid_device_lifecycle_transition, assert_device_can_authorize,
}
use k3ncrypt.Devices.Entries.{create_device_entry-same, found_id}
use k3ncrypt.Devices.Lifecycle.{
  DeviceRuntime, AuthenticatedDeviceContext, DeviceAuthorization, RevocationConfirmation,
  LifecycleStateSnapshot, assert_author, bad_author, other_state, next_list, with_entry,
  assert_context, verify_authorization_digest, assert_window, revoking, not_from_sender,
}
use k3ncrypt.Devices.Lifecycle.Calls.{
  Commit, other_revocation, verify_revocation_digest, irrevocable, bad_version_or_nonce,
  revocation_allowed, apply_revocation,
}
use k3ncrypt.Devices.Lifecycle.Epochs.{
  Continues, with_entry-KeepsEntries, found-with_entry, Follows, next_list-Follows,
  next_list-devices,
}

-- The author of the authorization is an active device of the list, under the identity that it names.
pub record Authored (s : LifecycleStateSnapshot) (a : DeviceAuthorization) : Type 0 where
  pub author : DeviceEntry
  pub listed : device_entry_by_id s.list.devices a.author_device_id ≡ some author
  pub is_now_active : author.state ≡ active
  pub identity : author.public_identity_reference ≡ a.author_identity_reference

active_state : (state : DeviceLifecycleState) → is_active state ≡ true → state ≡ active
unfolding is_active
active_state state h = ground arith

pub assert_author-Authored :
    (s : LifecycleStateSnapshot) (a : DeviceAuthorization)
    → assert_author s a ≡ ok tt
    → Authored s a
unfolding assert_author assert_device_can_authorize bad_author
assert_author-Authored s a h =
    let (author, listed, h1) =
      present (device_entry_by_id s.list.devices a.author_device_id) _ _ h in
    record {
      author = author;
      listed = listed;
      is_now_active = active_state author.state (ground arith);
      identity =
          ground (arith, eq_iff author.public_identity_reference a.author_identity_reference);
    }

-- The authorization names the sender that the session has authenticated as its author.
pub record SentByAuthor (context : AuthenticatedDeviceContext) (a : DeviceAuthorization)
    : Type 0 where
  pub same_scope : context.user_scope ≡ a.user_scope
  pub same_device : context.authenticated_sender.device_id ≡ a.author_device_id
  pub same_identity : context.authenticated_sender.identity_reference ≡ a.author_identity_reference

pub not_from_sender-SentByAuthor :
    (context : AuthenticatedDeviceContext) (a : DeviceAuthorization)
    → not_from_sender context a ≡ false
    → SentByAuthor context a
unfolding not_from_sender
not_from_sender-SentByAuthor context a h =
    let sender = context.authenticated_sender in
    record {
      same_scope = sym ((eq_iff a.user_scope context.user_scope).0 (ground (arith, h)));
      same_device = sym ((eq_iff a.author_device_id sender.device_id).0 (ground (arith, h)));
      same_identity =
          sym
            ((eq_iff a.author_identity_reference sender.identity_reference).0 (ground (arith, h)));
    }

-- What a revocation has checked.
record RevocationChecked (stored : Option LifecycleStateSnapshot) (a : DeviceAuthorization)
    (context : AuthenticatedDeviceContext) (s : LifecycleStateSnapshot) (target : DeviceEntry)
    : Type 0 where
  sent : SentByAuthor context a
  found : stored ≡ some s
  author : assert_author s a ≡ ok tt
  listed : device_entry_by_id s.list.devices a.target_device_id ≡ some target
  standing : is_revoked target.state ≡ false
  other : (target.device_id == a.author_device_id) ≡ false

revocation_allowed_lem :
    (rt : DeviceRuntime) (now : ℕ) (stored : Option LifecycleStateSnapshot)
    (a : DeviceAuthorization) (context : AuthenticatedDeviceContext) (c : RevocationConfirmation)
    (s : LifecycleStateSnapshot) (target : DeviceEntry)
    → revocation_allowed rt now stored a context c ≡ ok (s, target)
    → RevocationChecked stored a context s target
unfolding revocation_allowed irrevocable other_revocation
revocation_allowed_lem rt now stored a context c s target h =
    let (_, _, h1) = returned (assert_context rt context (revoking a c)) _ h in
    let (_, _, h2) = returned (rt.verify context a) _ h1 in
    let (from_author, h3) = passed (other_revocation a context c) _ _ h2 in
    let (_, h4) = passed (not (verify_revocation_digest rt c)) _ _ h3 in
    let (_, h5) = passed (not (verify_authorization_digest rt a)) _ _ h4 in
    let (_, _, h6) = returned (assert_window a.created_at a.expires_at now) _ h5 in
    let (s', found, h7) = present stored _ _ h6 in
    let (_, h8) = passed (other_state s' a) _ _ h7 in
    let (_, author, h9) = returned (assert_author s' a) _ h8 in
    let (_, _, h10) = returned (assert_window c.confirmed_at c.expires_at now) _ h9 in
    let (_, h11) = passed (bad_version_or_nonce c.version c.confirmation_nonce) _ _ h10 in
    let (t, listed, h12) =
      present (device_entry_by_id s'.list.devices a.target_device_id) _ _ h11 in
    let (fine, h13) = passed (irrevocable t a) _ _ h12 in
    let same_s : s ≡ s' = ground (arith, h13) in
    let same_t : target ≡ t = ground (arith, h13) in
    record {
      sent = not_from_sender-SentByAuthor context a (ground (arith, from_author));
      found = ground (arith, found, same_s);
      author = rw same_s author;
      listed = rw (same_s, same_t) listed;
      standing = ground (arith, fine, same_t);
      other = ground (arith, fine, same_t);
    }

-- An accepted revocation: the list follows the stored one, the target was not revoked and is now, and
-- the sender is an active device, and another one.
pub record Revokes (stored : Option LifecycleStateSnapshot) (a : DeviceAuthorization)
    (context : AuthenticatedDeviceContext) (now : ℕ) (t : LifecycleStateSnapshot) : Type 0 where
  pub before : LifecycleStateSnapshot
  pub target : DeviceEntry
  pub was_stored : stored ≡ some before
  pub listed : device_entry_by_id before.list.devices a.target_device_id ≡ some target
  pub standing : is_revoked target.state ≡ false
  pub follows : Follows before t
  pub authored : Authored before a
  pub sent : SentByAuthor context a
  pub other : a.target_device_id ≡ a.author_device_id → ⊥
  pub after :
      device_entry_by_id t.list.devices a.target_device_id
      ≡ some (record target { state = revoked; revoked_at = some now })

revoked-Continues :
    (e : DeviceEntry) (now : ℕ) → Continues e (record e { state = revoked; revoked_at = some now })
unfolding is_valid_device_lifecycle_transition
revoked-Continues e now = record {
  device_id = refl;
  identity = refl;
  algorithm = refl;
  created_at = refl;
  allowed = ground arith;
}

pub replaced-found :
    (rt : DeviceRuntime) (s t : LifecycleStateSnapshot) (e target : DeviceEntry) (id : String)
    → device_entry_by_id s.list.devices id ≡ some target
    → e.device_id ≡ target.device_id
    → next_list rt s (with_entry e s.list.devices) ≡ ok t
    → device_entry_by_id t.list.devices id ≡ some e
replaced-found rt s t e target id listed same_id made =
    rw (next_list-devices rt s t (with_entry e s.list.devices) made) (
      ground (
        arith,
        found-with_entry s.list.devices e target id listed,
        same_id,
        eq_iff target.device_id e.device_id,
      ))

revocation-Revokes :
    (rt : DeviceRuntime) (now : ℕ) (stored : Option LifecycleStateSnapshot)
    (a : DeviceAuthorization) (context : AuthenticatedDeviceContext) (s t : LifecycleStateSnapshot)
    (target e : DeviceEntry)
    → RevocationChecked stored a context s target
    → e ≡ record target { state = revoked; revoked_at = some now }
    → next_list rt s (with_entry e s.list.devices) ≡ ok t
    → Revokes stored a context now t
revocation-Revokes rt now stored a context s t target e k made listed =
    let target_id = found_id s.list.devices target a.target_device_id k.listed in
    let continued : Continues target e = rw made (revoked-Continues target now) in
    record {
      before = s;
      target = target;
      was_stored = k.found;
      listed = k.listed;
      standing = k.standing;
      follows =
          next_list-Follows rt s t (with_entry e s.list.devices) listed
            (with_entry-KeepsEntries s.list.devices target e a.target_device_id k.listed continued);
      authored = assert_author-Authored s a k.author;
      sent = k.sent;
      other = λ same.
          absurd
            (ground (arith, k.other, target_id, same, eq_iff target.device_id a.author_device_id));
      after =
          rw (← made)
            (replaced-found rt s t e target a.target_device_id k.listed continued.device_id listed);
    }

-- A revocation succeeds only if the sender that the session has authenticated is an active device of the
-- stored list, by its device identifier and its identity, and is the author in the authorization, in the
-- session's user scope; its target is another device of the list that was not revoked, and is revoked in
-- a list that follows the stored one.
pub apply_revocation-Revokes :
    (rt : DeviceRuntime) (commit : Commit) (now : ℕ) (stored : Option LifecycleStateSnapshot)
    (a : DeviceAuthorization) (context : AuthenticatedDeviceContext)
    (c : Option RevocationConfirmation) (t : LifecycleStateSnapshot)
    → apply_revocation rt commit now stored a context c ≡ ok t
    → Revokes stored a context now t
unfolding apply_revocation
apply_revocation-Revokes rt commit now stored a context none t h = cc
apply_revocation-Revokes rt commit now stored a context (some c) t h =
    let ((s, target), allowed, h1) = returned (revocation_allowed rt now stored a context c) _ h in
    let (e, made, h2) = returned (create_device_entry rt.is_nfc _) _ h1 in
    let (next, listed, h3) = returned (next_list rt s (with_entry e s.list.devices)) _ h2 in
    let (_, _, h4) = returned (commit next _) _ h3 in
    revocation-Revokes rt now stored a context s t target e
      (revocation_allowed_lem rt now stored a context c s target allowed)
      (create_device_entry-same rt.is_nfc _ e made) (listed ∙ h4)
