-- ===== src/Devices/Trust.antt =====
-- service/src/devices/trust.ts: the decision whether a device is trusted, and the notifications that
-- can suspend trust. What the persistence has stored is an argument of each call, and so is whether
-- it can store a suspension; the commitment to a list, a digest, is a parameter.
pub mod Suspension
pub mod Current
mod Tests
use k3ncrypt.Base.{
  ℕ, ◌+◌, String, string_eq, ◌==◌, Bool, true, false, not, ◌&&◌, ◌||◌, Option, none, some, List, [],
  ◌∷◌, ◌++◌, leb, ltb, eqb, if◌then◌else◌, length, drop, includes, Result, ok, err, ◌>>=◌, ◌>>◌,
  throw_if, or_throw,
}
use k3ncrypt.Devices.{
  DeviceEntry, DeviceList, DeviceLifecycleState, active, revoked, approved_pending_confirmation,
  pending_enrollment, device_entry_by_id, is_active,
}
use k3ncrypt.Devices.Lifecycle.{LifecycleStateSnapshot, is_digest}
use k3ncrypt.Devices.Freshness.{
  TrustFreshnessEvidence, FreshnessError, Evidence, default_max_members,
  record_authenticated_evidence, assert_current, is_empty,
}

pub data DeviceTrustDecision : Type 0 where
  trusted is_revoked unavailable : DeviceTrustDecision

pub data TrustState : Type 0 where
  active_state revoked_state : TrustState

pub record TrustStateEvent : Type 0 where
  pub version : ℕ
  pub event_id : String
  pub scope : String
  pub epoch : ℕ
  pub commitment : String
  pub device_id : String
  pub identity_reference : String
  pub state : TrustState

pub data TrustError : Type 0 where
  freshness_conflicts trust_unavailable trust_corrupted trust_stale not_durable : TrustError
  event_invalid event_replayed event_stale event_unavailable event_conflicts event_mismatch :
      TrustError
  freshness : FreshnessError → TrustError

-- The enforcer's fields that change, with the coordinator's identifiers of events seen.
pub record Enforcer : Type 0 where
  pub suspended : Bool
  pub freshness_members : Option (List String)
  pub evidence : Evidence
  pub seen : List String

pub record Device : Type 0 where
  pub scope : String
  pub device_id : String
  pub identity_reference : String

abbrev pub configure_freshness_members : List String → Enforcer → Enforcer
configure_freshness_members members t = record t { freshness_members = some members }

abbrev pub as_trust_error : {A : Type 0} → Result FreshnessError A → Result TrustError A
as_trust_error (ok a) = ok a
as_trust_error (err e) = err (freshness e)

abbrev pub matches_state : TrustState → DeviceLifecycleState → Bool
matches_state active_state active = true
matches_state revoked_state revoked = true
matches_state active_state revoked = false
matches_state active_state approved_pending_confirmation = false
matches_state revoked_state active = false
matches_state revoked_state approved_pending_confirmation = false
matches_state active_state pending_enrollment = false
matches_state revoked_state pending_enrollment = false

abbrev pub decision_of : DeviceLifecycleState → DeviceTrustDecision
decision_of active = trusted
decision_of revoked = is_revoked
decision_of approved_pending_confirmation = unavailable
decision_of pending_enrollment = unavailable

abbrev pub is_trusted : DeviceTrustDecision → Bool
is_trusted trusted = true
is_trusted is_revoked = false
is_trusted unavailable = false

-- `suspend`, and the error that the caller throws after it.
pub suspend :
    (durable : Bool) → TrustError → Enforcer → Enforcer × Result TrustError LifecycleStateSnapshot
suspend durable e t = (record t { suspended = true }, err (if durable then e else not_durable))

abbrev pub describes : TrustStateEvent → Option DeviceEntry → Bool
describes e none = false
describes e (some d) =
    d.public_identity_reference == e.identity_reference && matches_state e.state d.state

-- The identifier is remembered; the oldest one is dropped where there are too many.
abbrev pub remember : ℕ → String → List String → List String
remember max_seen id seen =
    if ltb max_seen (length (seen ++ id ∷ [])) then drop 1 (seen ++ id ∷ []) else seen ++ id ∷ []

pub compare_event :
    (durable : Bool) (max_seen : ℕ)
    → TrustStateEvent
    → LifecycleStateSnapshot
    → Enforcer
    → Enforcer × Result TrustError LifecycleStateSnapshot
compare_event durable max_seen e current t =
    if ltb e.epoch current.list.epoch
    then (t, err event_stale)
    else if ltb current.list.epoch e.epoch
    then suspend durable event_unavailable t
    else if not (e.commitment == current.commitment)
    then suspend durable event_conflicts t
    else if not (describes e (device_entry_by_id current.list.devices e.device_id))
    then (t, err event_mismatch)
    else (record t { seen = remember max_seen e.event_id t.seen }, ok current)

module _ (list_commitment : DeviceList → String) (device : Device) where
  pub snapshot : Option LifecycleStateSnapshot → Enforcer → Result TrustError LifecycleStateSnapshot
  snapshot stored t = do
    throw_if t.suspended freshness_conflicts
    state ← or_throw stored trust_unavailable
    throw_if (not (list_commitment state.list == state.commitment)) trust_corrupted
    ok state

  pub decision_in : Option DeviceEntry → DeviceTrustDecision
  decision_in none = unavailable
  decision_in (some d) =
      if d.public_identity_reference == device.identity_reference
      then decision_of d.state
      else unavailable

  pub decision : Option LifecycleStateSnapshot → Enforcer → DeviceTrustDecision
  decision stored t = elim (snapshot stored t) [
    | err e ↦ unavailable
    | ok state ↦ decision_in (device_entry_by_id state.list.devices device.device_id)
  ]

  pub assert_trusted : Option LifecycleStateSnapshot → Enforcer → Result TrustError (Unit {0})
  assert_trusted stored t = throw_if (not (is_trusted (decision stored t))) trust_unavailable

  pub assert_fresh :
      LifecycleStateSnapshot → Option (List String) → Evidence → Result TrustError (Unit {0})
  assert_fresh state none evidence = ok tt
  assert_fresh state (some members) evidence =
      as_trust_error (assert_current default_max_members device.device_id state members evidence)

  abbrev pub is_own : Option DeviceEntry → Bool
  is_own none = false
  is_own (some d) = d.public_identity_reference == device.identity_reference && is_active d.state

  pub assert_trusted_at :
      ℕ → Option LifecycleStateSnapshot → Enforcer → Result TrustError (Unit {0})
  assert_trusted_at epoch stored t = do
    state ← snapshot stored t
    throw_if (not (eqb state.list.epoch epoch)) trust_stale
    assert_fresh state t.freshness_members t.evidence
    throw_if (not (is_own (device_entry_by_id state.list.devices device.device_id)))
        trust_unavailable

  pub record_freshness_evidence :
      TrustFreshnessEvidence
      → Option LifecycleStateSnapshot
      → Enforcer
      → Enforcer × Result TrustError (Unit {0})
  record_freshness_evidence e stored t = elim (snapshot stored t) [
    | err x ↦ (t, err x)
    | ok state ↦
        let r = record_authenticated_evidence default_max_members e state t.evidence in
        (record t { evidence = r.0 }, as_trust_error r.1)
  ]

  pub bad_event : TrustStateEvent → Bool
  bad_event e =
      not (eqb e.version 1)
      || not (e.scope == device.scope)
      || is_empty e.event_id
      || not (is_digest e.commitment)
      || is_empty e.device_id
      || is_empty e.identity_reference

  pub accept :
      (durable : Bool) (max_seen : ℕ)
      → TrustStateEvent
      → Option LifecycleStateSnapshot
      → Enforcer
      → Enforcer × Result TrustError LifecycleStateSnapshot
  accept durable max_seen e stored t =
      if bad_event e
      then (t, err event_invalid)
      else if includes t.seen e.event_id
      then (t, err event_replayed)
      else elim (snapshot stored t) [
        | err x ↦ (t, err x)
        | ok current ↦ compare_event durable max_seen e current t
      ]
