-- ===== src/Devices/Freshness.antt =====
-- service/src/devices/freshness.ts: evidence that the other members are at the same epoch.
use k3ncrypt.Base.{
  ℕ, String, string_eq, ◌==◌, Bool, false, not, ◌&&◌, ◌||◌, Option, none, some, List, [], ◌∷◌, ltb,
  eqb, length, find, includes, Result, ok, err, ◌>>=◌, ◌>>◌, throw_if, or_throw,
}
use k3ncrypt.Base.Dict.{Dict, get, put}
use k3ncrypt.Devices.{DeviceEntry, is_active, device_entry_by_id}
use k3ncrypt.Devices.Lifecycle.{LifecycleStateSnapshot, is_digest}

pub record TrustFreshnessEvidence : Type 0 where
  pub version : ℕ
  pub device_id : String
  pub identity_reference : String
  pub epoch : ℕ
  pub commitment : String
  pub evidence_id : String

pub data FreshnessError : Type 0 where
  evidence_rejected evidence_stale evidence_conflicts evidence_unavailable : FreshnessError
  membership_rejected freshness_unavailable : FreshnessError

abbrev pub Evidence : Type 0
Evidence = Dict String TrustFreshnessEvidence

abbrev pub default_max_members : ℕ
default_max_members = 8

abbrev pub is_empty : String → Bool
is_empty s = s == ""

unfoldable pub bad_evidence : TrustFreshnessEvidence → Bool
bad_evidence e =
    not (eqb e.version 1)
    || is_empty e.device_id
    || is_empty e.identity_reference
    || is_empty e.evidence_id
    || not (is_digest e.commitment)

-- The active device that the evidence speaks for.
abbrev pub speaks_for : TrustFreshnessEvidence → Option DeviceEntry → Bool
speaks_for e none = false
speaks_for e (some d) = is_active d.state && d.public_identity_reference == e.identity_reference

abbrev pub is_at : LifecycleStateSnapshot → TrustFreshnessEvidence → Bool
is_at state e = eqb e.epoch state.list.epoch && e.commitment == state.commitment

abbrev pub conflicts : TrustFreshnessEvidence → Option TrustFreshnessEvidence → Bool
conflicts e none = false
conflicts e (some prior) =
    not (prior.evidence_id == e.evidence_id) || not (prior.commitment == e.commitment)

unfoldable pub evidence_allowed :
    TrustFreshnessEvidence → LifecycleStateSnapshot → Evidence → Result FreshnessError (Unit {0})
evidence_allowed e state evidence = do
  throw_if (bad_evidence e) evidence_rejected
  throw_if (not (speaks_for e (device_entry_by_id state.list.devices e.device_id)))
      evidence_rejected
  throw_if (not (is_at state e)) evidence_stale
  throw_if (conflicts e (get e.device_id evidence)) evidence_conflicts

-- The evidence is kept also where there is more of it than members.
unfoldable pub record_authenticated_evidence :
    ℕ
    → TrustFreshnessEvidence
    → LifecycleStateSnapshot
    → Evidence
    → Evidence × Result FreshnessError (Unit {0})
record_authenticated_evidence max_members e state evidence =
    elim (evidence_allowed e state evidence) [
      | err x ↦ (evidence, err x)
      | ok u ↦
          let next = put e.device_id e evidence in
          (next, throw_if (ltb max_members (length next)) evidence_unavailable)
    ]

abbrev pub has_repeats : List String → Bool
has_repeats [] = false
has_repeats (m ∷ ms) = includes ms m || has_repeats ms

unfoldable pub bad_members : ℕ → List String → Bool
bad_members max_members members =
    eqb (length members) 0 || ltb max_members (length members) || has_repeats members

unfoldable pub active_entry : LifecycleStateSnapshot → String → Option DeviceEntry
active_entry state id = find (λ d. d.device_id == id && is_active d.state) state.list.devices

abbrev pub attests : LifecycleStateSnapshot → DeviceEntry → Option TrustFreshnessEvidence → Bool
attests state d none = false
attests state d (some e) = e.identity_reference == d.public_identity_reference && is_at state e

unfoldable pub assert_member :
    (local_device : String)
    → LifecycleStateSnapshot
    → Evidence
    → String
    → Result FreshnessError (Unit {0})
assert_member local_device state evidence id = do
  entry ← or_throw (active_entry state id) membership_rejected
  throw_if (not (id == local_device) && not (attests state entry (get id evidence)))
      freshness_unavailable

unfoldable pub assert_members :
    (local_device : String)
    → LifecycleStateSnapshot
    → Evidence
    → List String
    → Result FreshnessError (Unit {0})
assert_members local_device state evidence [] = ok tt
assert_members local_device state evidence (id ∷ ids) =
    assert_member local_device state evidence id >> assert_members local_device state evidence ids

unfoldable pub assert_current :
    (max_members : ℕ) (local_device : String)
    → LifecycleStateSnapshot
    → List String
    → Evidence
    → Result FreshnessError (Unit {0})
assert_current max_members local_device state members evidence = do
  throw_if (bad_members max_members members) membership_rejected
  assert_members local_device state evidence members
