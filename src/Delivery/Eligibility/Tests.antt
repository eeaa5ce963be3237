-- ===== src/Delivery/Eligibility/Tests.antt =====
-- Paths of service/src/delivery/pathEligibility.ts at concrete checklists.
use k3ncrypt.Base.{◌≡◌, refl, true, false, [], ◌∷◌}
use k3ncrypt.Delivery.Eligibility.{
  relay, lan, OptionalPathReadiness, feature_disabled, dedupe_horizon_undefined, unless,
  optional_path_blockers, is_optional, is_optional_path_eligible,
}

abbrev all_ready : OptionalPathReadiness
all_ready = record {
  feature_enabled = true;
  privacy_allows_address_disclosure = true;
  contact_verified_and_unchanged = true;
  required_trust_freshness_available = true;
  capabilities_authenticated = true;
  peer_admission_authenticated_and_current = true;
  stable_envelope_identity_available = true;
  receiver_deduplicates_before_decrypt = true;
  shared_dedupe_horizon_defined = true;
  acceptance_crash_consistent = true;
  authenticated_receipt_available = true;
  outbox_completion_supports_path = true;
}

path_tests :
    (is_optional_path_eligible lan all_ready ≡ true)
    × (is_optional_path_eligible relay all_ready ≡ false)
    × (optional_path_blockers
          (record all_ready { feature_enabled = false; shared_dedupe_horizon_defined = false })
        ≡ feature_disabled ∷ dedupe_horizon_undefined ∷ [])
unfolding unless optional_path_blockers is_optional is_optional_path_eligible
path_tests = (refl, refl, refl)
