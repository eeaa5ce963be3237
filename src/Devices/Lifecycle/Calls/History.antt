-- ===== src/Devices/Lifecycle/Calls/History.antt =====
-- service/src/devices/lifecycle.ts: the lists of an identity over any history of calls. A call that
-- throws, and one whose commit is refused, leaves the stored list.
use k3ncrypt.Base.{
  ℕ, ◌≡◌, ◌≤◌, refl, ◌∙◌, String, string_eq, Option, some, List, [], ◌∷◌, arith, inl, inr,
  Result-cases, Result, ok, err,
}
use k3ncrypt.Devices.{
  revoked, DeviceEntry, device_entry_by_id, is_valid_device_lifecycle_transition,
}
use k3ncrypt.Devices.Lifecycle.{
  DeviceRuntime, AuthenticatedDeviceContext, DeviceAuthorization, EnrollmentConfirmation,
  RevocationConfirmation, LifecycleStateSnapshot, AuthorizationRecord,
}
use k3ncrypt.Devices.Lifecycle.Epochs.{Continues, Follows}
use k3ncrypt.Devices.Lifecycle.Calls.{
  Commit, apply_enrollment, confirm_enrollment, apply_revocation,
}
use k3ncrypt.Devices.Lifecycle.Calls.Authority.{apply_revocation-Revokes}
use k3ncrypt.Devices.Lifecycle.Calls.Enrollment.{
  apply_enrollment-Enrolls, confirm_enrollment-Confirms,
}

-- A call with its arguments, its time, and the answer of the persistence to its commit.
pub data Call : Type 0 where
  enrolls : DeviceAuthorization → AuthenticatedDeviceContext → Call
  confirms :
      Option AuthorizationRecord
      → DeviceAuthorization
      → AuthenticatedDeviceContext
      → EnrollmentConfirmation
      → Call
  revokes : DeviceAuthorization → AuthenticatedDeviceContext → Option RevocationConfirmation → Call

unfoldable pub serve :
    DeviceRuntime
    → Commit
    → ℕ
    → Call
    → LifecycleStateSnapshot
    → Result String LifecycleStateSnapshot
serve rt commit now (enrolls a context) s = apply_enrollment rt commit now (some s) a context
serve rt commit now (confirms approved a context c) s =
    confirm_enrollment rt commit now (some s) approved a context c
serve rt commit now (revokes a context c) s = apply_revocation rt commit now (some s) a context c

abbrev pub after :
    LifecycleStateSnapshot → Result String LifecycleStateSnapshot → LifecycleStateSnapshot
after s (ok t) = t
after s (err e) = s

unfoldable pub run :
    DeviceRuntime → List (Commit × ℕ × Call) → LifecycleStateSnapshot → LifecycleStateSnapshot
run rt [] s = s
run rt ((commit, now, call) ∷ log) s = run rt log (after s (serve rt commit now call s))

some_injective : {s t : LifecycleStateSnapshot} → some s ≡ some t → s ≡ t
some_injective h = ground (arith, h)

serve-Follows :
    (rt : DeviceRuntime) (commit : Commit) (now : ℕ) (call : Call) (s t : LifecycleStateSnapshot)
    → serve rt commit now call s ≡ ok t
    → Follows s t
unfolding serve
serve-Follows rt commit now (enrolls a context) s t h =
    let r = apply_enrollment-Enrolls rt commit now (some s) a context t h in
    rw (some_injective r.was_stored) r.follows
serve-Follows rt commit now (confirms approved a context c) s t h =
    let r = confirm_enrollment-Confirms rt commit now (some s) approved a context c t h in
    rw (some_injective r.was_stored) r.follows
serve-Follows rt commit now (revokes a context c) s t h =
    let r = apply_revocation-Revokes rt commit now (some s) a context c t h in
    rw (some_injective r.was_stored) r.follows

-- The device has the same identity as in `e`, and is revoked if it was in `e`.
pub record Survives (e f : DeviceEntry) : Type 0 where
  pub identity : f.public_identity_reference ≡ e.public_identity_reference
  pub algorithm : f.algorithm ≡ e.algorithm
  pub created_at : f.created_at ≡ e.created_at
  pub stays_revoked : e.state ≡ revoked → f.state ≡ revoked

Continues-Survives : (e f : DeviceEntry) → Continues e f → Survives e f
unfolding is_valid_device_lifecycle_transition
Continues-Survives e f c = record {
  identity = c.identity;
  algorithm = c.algorithm;
  created_at = c.created_at;
  stays_revoked = λ was. ground (arith, c.allowed, was);
}

Survives-trans : {e f g : DeviceEntry} → Survives e f → Survives f g → Survives e g
Survives-trans p q = record {
  identity = q.identity ∙ p.identity;
  algorithm = q.algorithm ∙ p.algorithm;
  created_at = q.created_at ∙ p.created_at;
  stays_revoked = λ was. q.stays_revoked (p.stays_revoked was);
}

-- `t` is a later list of the same identity, in which every device of `s` survives.
pub record Evolves (s t : LifecycleStateSnapshot) : Type 0 where
  pub scope : t.list.identity_reference ≡ s.list.identity_reference
  pub epoch : s.list.epoch ≤ t.list.epoch
  pub devices :
      (id : String) (e : DeviceEntry)
      → device_entry_by_id s.list.devices id ≡ some e
      → (f : DeviceEntry) × (device_entry_by_id t.list.devices id ≡ some f) × Survives e f

Evolves-refl : (s : LifecycleStateSnapshot) → Evolves s s
Evolves-refl s = record {
  scope = refl;
  epoch = omega arith;
  devices = λ id e found. (
    e,
    found,
    record { identity = refl; algorithm = refl; created_at = refl; stays_revoked = λ was. was },
  );
}

Follows-Evolves : {s t u : LifecycleStateSnapshot} → Follows s t → Evolves t u → Evolves s u
Follows-Evolves p q = record {
  scope = q.scope ∙ p.scope;
  epoch = omega (arith, p.epoch, q.epoch);
  devices = λ id e found.
      let (f, found_f, continued) = p.entries id e found in
      let (g, found_g, survived) = q.devices id f found_f in
      (g, found_g, Survives-trans (Continues-Survives e f continued) survived);
}

-- Over any history of enrollments, confirmations and revocations, whoever sends them and whether or not
-- they succeed: the list stays the same identity's, its epoch never goes back, no device disappears or
-- changes its public identity, algorithm or creation time, and a device once revoked stays revoked.
pub run-Evolves :
    (rt : DeviceRuntime) (log : List (Commit × ℕ × Call)) (s : LifecycleStateSnapshot)
    → Evolves s (run rt log s)
unfolding run
run-Evolves rt [] s = Evolves-refl s
run-Evolves rt ((commit, now, call) ∷ log) s = elim (Result-cases (serve rt commit now call s)) [
  | inl (t, served) ↦
      rw served
        (Follows-Evolves (serve-Follows rt commit now call s t served) (run-Evolves rt log t))
  | inr (e, thrown) ↦ rw thrown (run-Evolves rt log s)
]
