-- ===== src/Delivery/Eligibility.antt =====
-- service/src/delivery/pathEligibility.ts: what has to hold before a path other than the relay is used.
pub mod Checklist
mod Tests
use k3ncrypt.Base.{ℕ, Bool, true, false, not, ◌&&◌, ◌||◌, List, [], ◌∷◌, eqb, length, if◌then◌else◌}

-- Of contracts.ts; the type of the call leaves the relay out.
pub data DeliveryPathKind : Type 0 where
  relay lan direct : DeliveryPathKind

pub data OptionalPathBlocker : Type 0 where
  feature_disabled privacy_disallows_address_disclosure : OptionalPathBlocker
  contact_not_verified_and_unchanged trust_freshness_unavailable : OptionalPathBlocker
  capability_not_authenticated peer_admission_unavailable : OptionalPathBlocker
  stable_envelope_identity_unavailable receiver_deduplication_unavailable : OptionalPathBlocker
  dedupe_horizon_undefined acceptance_not_crash_consistent : OptionalPathBlocker
  authenticated_receipt_unavailable outbox_completion_incompatible : OptionalPathBlocker

pub record OptionalPathReadiness : Type 0 where
  pub feature_enabled : Bool
  pub privacy_allows_address_disclosure : Bool
  pub contact_verified_and_unchanged : Bool
  pub required_trust_freshness_available : Bool
  pub capabilities_authenticated : Bool
  pub peer_admission_authenticated_and_current : Bool
  pub stable_envelope_identity_available : Bool
  pub receiver_deduplicates_before_decrypt : Bool
  pub shared_dedupe_horizon_defined : Bool
  pub acceptance_crash_consistent : Bool
  pub authenticated_receipt_available : Bool
  pub outbox_completion_supports_path : Bool

-- `if (!ready) blockers.push(blocker)`, before the rest of the list.
pub unless : Bool → OptionalPathBlocker → List OptionalPathBlocker → List OptionalPathBlocker
unless ready blocker rest = if ready then rest else blocker ∷ rest

pub optional_path_blockers : OptionalPathReadiness → List OptionalPathBlocker
optional_path_blockers r = unless r.feature_enabled feature_disabled (
    unless r.privacy_allows_address_disclosure privacy_disallows_address_disclosure (
      unless r.contact_verified_and_unchanged contact_not_verified_and_unchanged (
        unless r.required_trust_freshness_available trust_freshness_unavailable (
          unless r.capabilities_authenticated capability_not_authenticated (
            unless r.peer_admission_authenticated_and_current peer_admission_unavailable (
              unless r.stable_envelope_identity_available stable_envelope_identity_unavailable (
                unless r.receiver_deduplicates_before_decrypt receiver_deduplication_unavailable (
                  unless r.shared_dedupe_horizon_defined dedupe_horizon_undefined (
                    unless r.acceptance_crash_consistent acceptance_not_crash_consistent (
                      unless r.authenticated_receipt_available authenticated_receipt_unavailable (
                        unless r.outbox_completion_supports_path outbox_completion_incompatible
                          [])))))))))))

pub is_optional : DeliveryPathKind → Bool
is_optional relay = false
is_optional lan = true
is_optional direct = true

pub is_optional_path_eligible : DeliveryPathKind → OptionalPathReadiness → Bool
is_optional_path_eligible path r = is_optional path && eqb (length (optional_path_blockers r)) 0
