-- ===== src/Delivery/Eligibility/Checklist.antt =====
-- service/src/delivery/pathEligibility.ts: nothing on the checklist can be missing.
use k3ncrypt.Base.{◌≡◌, ◌≢◌, ◌↔◌, refl, Bool, true, false, List, [], ◌∷◌, eqb, length, arith}
use k3ncrypt.Delivery.Eligibility.{
  DeliveryPathKind, relay, lan, direct, OptionalPathBlocker, OptionalPathReadiness, unless,
  optional_path_blockers, is_optional, is_optional_path_eligible,
}

-- Every point of the checklist.
pub record Ready (r : OptionalPathReadiness) : Type 0 where
  pub feature : r.feature_enabled ≡ true
  pub privacy : r.privacy_allows_address_disclosure ≡ true
  pub contact : r.contact_verified_and_unchanged ≡ true
  pub freshness : r.required_trust_freshness_available ≡ true
  pub capabilities : r.capabilities_authenticated ≡ true
  pub admission : r.peer_admission_authenticated_and_current ≡ true
  pub identity : r.stable_envelope_identity_available ≡ true
  pub deduplication : r.receiver_deduplicates_before_decrypt ≡ true
  pub horizon : r.shared_dedupe_horizon_defined ≡ true
  pub acceptance : r.acceptance_crash_consistent ≡ true
  pub receipt : r.authenticated_receipt_available ≡ true
  pub outbox : r.outbox_completion_supports_path ≡ true

unless_nil :
    (ready : Bool) (b : OptionalPathBlocker) (rest : List OptionalPathBlocker)
    → unless ready b rest ≡ []
    → (ready ≡ true) × (rest ≡ [])
unfolding unless
unless_nil true b rest h = (refl, h)
unless_nil false b rest h = cc

blockers-Ready : (r : OptionalPathReadiness) → optional_path_blockers r ≡ [] → Ready r
unfolding optional_path_blockers
blockers-Ready r h0 =
    let (a, h1) = unless_nil r.feature_enabled _ _ h0 in
    let (b, h2) = unless_nil r.privacy_allows_address_disclosure _ _ h1 in
    let (c, h3) = unless_nil r.contact_verified_and_unchanged _ _ h2 in
    let (d, h4) = unless_nil r.required_trust_freshness_available _ _ h3 in
    let (e, h5) = unless_nil r.capabilities_authenticated _ _ h4 in
    let (f, h6) = unless_nil r.peer_admission_authenticated_and_current _ _ h5 in
    let (g, h7) = unless_nil r.stable_envelope_identity_available _ _ h6 in
    let (i, h8) = unless_nil r.receiver_deduplicates_before_decrypt _ _ h7 in
    let (j, h9) = unless_nil r.shared_dedupe_horizon_defined _ _ h8 in
    let (k, h10) = unless_nil r.acceptance_crash_consistent _ _ h9 in
    let (l, h11) = unless_nil r.authenticated_receipt_available _ _ h10 in
    let (m, _) = unless_nil r.outbox_completion_supports_path _ _ h11 in
    record {
      feature = a;
      privacy = b;
      contact = c;
      freshness = d;
      capabilities = e;
      admission = f;
      identity = g;
      deduplication = i;
      horizon = j;
      acceptance = k;
      receipt = l;
      outbox = m;
    }

Ready-blockers : (r : OptionalPathReadiness) → Ready r → optional_path_blockers r ≡ []
unfolding optional_path_blockers unless
Ready-blockers r h =
    rw
      (
        h.feature, h.privacy, h.contact, h.freshness, h.capabilities, h.admission, h.identity,
        h.deduplication, h.horizon, h.acceptance, h.receipt, h.outbox,
      )
      refl

no_blockers : (bs : List OptionalPathBlocker) → (eqb (length bs) 0 ≡ true) ↔ (bs ≡ [])
no_blockers [] = ground arith
no_blockers (b ∷ bs) = ground arith

-- A path is eligible exactly when it is not the relay and every point of the checklist holds.
pub eligible_iff :
    (path : DeliveryPathKind) (r : OptionalPathReadiness)
    → (is_optional_path_eligible path r ≡ true) ↔ ((path ≢ relay) × Ready r)
unfolding is_optional_path_eligible is_optional
eligible_iff relay r = (λ h. cc, λ h. absurd (h.0 refl))
eligible_iff lan r = (
  λ h. (λ e. cc, blockers-Ready r ((no_blockers (optional_path_blockers r)).0 h)),
  λ h. (no_blockers (optional_path_blockers r)).1 (Ready-blockers r h.1),
)
eligible_iff direct r = (
  λ h. (λ e. cc, blockers-Ready r ((no_blockers (optional_path_blockers r)).0 h)),
  λ h. (no_blockers (optional_path_blockers r)).1 (Ready-blockers r h.1),
)
