-- ===== src/Devices/Trust/Suspension.antt =====
-- Once trust is suspended (service/src/devices/trust.ts) nothing lifts the suspension.
use k3ncrypt.Base.{
  ℕ, ◌≡◌, refl, String, string_eq, ◌==◌, Bool, true, false, not, ◌&&◌, ◌||◌, Option, List, [], ◌∷◌,
  ltb, eqb, includes, arith, Result, ok, err,
}
use k3ncrypt.Devices.{DeviceList}
use k3ncrypt.Devices.Lifecycle.{LifecycleStateSnapshot}
use k3ncrypt.Devices.Freshness.{TrustFreshnessEvidence}
use k3ncrypt.Devices.Trust.{
  TrustStateEvent, TrustError, freshness_conflicts, Enforcer, Device, unavailable,
  configure_freshness_members, snapshot, decision, assert_trusted, assert_trusted_at,
  record_freshness_evidence, suspend, bad_event, compare_event, accept,
}

-- A call, with what the persistence has stored when it is made.
pub data TrustCall : Type 0 where
  accepting :
      (durable : Bool) (max_seen : ℕ) → TrustStateEvent → Option LifecycleStateSnapshot → TrustCall
  recording : TrustFreshnessEvidence → Option LifecycleStateSnapshot → TrustCall
  configuring : List String → TrustCall

abbrev pub is_ok {ℓ} : {A : Type ℓ} → Result TrustError A → Bool
is_ok (ok a) = true
is_ok (err e) = false

-- An event of a later epoch than the stored one, or of the same epoch with another commitment.
unfoldable pub is_conflicting : TrustStateEvent → LifecycleStateSnapshot → Bool
is_conflicting e current =
    ltb current.list.epoch e.epoch
    || (eqb e.epoch current.list.epoch && not (e.commitment == current.commitment))

module _ (list_commitment : DeviceList → String) (device : Device) where
  unfoldable pub call : TrustCall → Enforcer → Enforcer
  call (accepting durable max_seen e stored) t =
      (accept list_commitment device durable max_seen e stored t).0
  call (recording e stored) t = (record_freshness_evidence list_commitment device e stored t).0
  call (configuring members) t = configure_freshness_members members t

  unfoldable pub run : List TrustCall → Enforcer → Enforcer
  run [] t = t
  run (c ∷ cs) t = run cs (call c t)

  snapshot_suspended :
      (stored : Option LifecycleStateSnapshot) (t : Enforcer)
      → t.suspended ≡ true
      → snapshot list_commitment device stored t ≡ err freshness_conflicts
  unfolding snapshot
  snapshot_suspended stored t h = rw (h, snapshot) refl

  call_suspended : (c : TrustCall) (t : Enforcer) → t.suspended ≡ true → (call c t).suspended ≡ true
  unfolding call accept record_freshness_evidence
  call_suspended (accepting durable max_seen e stored) t h =
      rw (call, accept, snapshot_suspended stored t h) (ground (arith, h))
  call_suspended (recording e stored) t h =
      rw (call, record_freshness_evidence, snapshot_suspended stored t h) h
  call_suspended (configuring members) t h = h

  run_suspended :
      (cs : List TrustCall) (t : Enforcer) → t.suspended ≡ true → (run cs t).suspended ≡ true
  unfolding run
  run_suspended [] t h = h
  run_suspended (c ∷ cs) t h = run_suspended cs (call c t) (call_suspended c t h)

  -- Nothing is granted: the decision is `unavailable`, and every other call throws.
  pub record Refuses (t : Enforcer) : Type 0 where
    pub decides :
        (stored : Option LifecycleStateSnapshot)
        → decision list_commitment device stored t ≡ unavailable
    pub trusts :
        (stored : Option LifecycleStateSnapshot)
        → is_ok (assert_trusted list_commitment device stored t) ≡ false
    pub trusts_at :
        (epoch : ℕ) (stored : Option LifecycleStateSnapshot)
        → is_ok (assert_trusted_at list_commitment device epoch stored t) ≡ false
    pub accepts :
        (durable : Bool) (max_seen : ℕ) (e : TrustStateEvent)
        (stored : Option LifecycleStateSnapshot)
        → is_ok (accept list_commitment device durable max_seen e stored t).1 ≡ false

  suspended-Refuses : (t : Enforcer) → t.suspended ≡ true → Refuses t
  unfolding decision assert_trusted assert_trusted_at accept
  suspended-Refuses t h = record {
    decides = λ stored. rw (decision, snapshot_suspended stored t h) refl;
    trusts = λ stored. rw (assert_trusted, decision, snapshot_suspended stored t h) refl;
    trusts_at = λ epoch stored. rw (assert_trusted_at, snapshot_suspended stored t h) refl;
    accepts =
        λ durable max_seen e stored. rw (accept, snapshot_suspended stored t h) (ground arith);
  }

  conflict_suspends :
      (durable : Bool) (max_seen : ℕ) (e : TrustStateEvent) (current : LifecycleStateSnapshot)
      (t : Enforcer)
      → is_conflicting e current ≡ true
      → (compare_event durable max_seen e current t).0.suspended ≡ true
  unfolding compare_event suspend is_conflicting
  conflict_suspends durable max_seen e current t h = ground (arith, h)

  -- A well-formed event, not seen before, that is of a later epoch than the stored state or of its
  -- epoch with another commitment, ends trust for good: whatever calls follow and whatever is stored
  -- when they are made, the device is `unavailable`, nothing asserts its trust and no event is
  -- accepted, also where the suspension itself could not be stored.
  pub accept-Refuses :
      (durable : Bool) (max_seen : ℕ) (e : TrustStateEvent) (stored : Option LifecycleStateSnapshot)
      (current : LifecycleStateSnapshot) (t : Enforcer) (later : List TrustCall)
      → bad_event list_commitment device e ≡ false
      → includes t.seen e.event_id ≡ false
      → snapshot list_commitment device stored t ≡ ok current
      → is_conflicting e current ≡ true
      → Refuses (run later (accept list_commitment device durable max_seen e stored t).0)
  unfolding accept
  accept-Refuses durable max_seen e stored current t later b n s c =
      suspended-Refuses (run later (accept list_commitment device durable max_seen e stored t).0) (
        run_suspended later (accept list_commitment device durable max_seen e stored t).0
          (rw (accept, b, n, s) (conflict_suspends durable max_seen e current t c)))
