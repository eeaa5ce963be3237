-- ===== src/Calls/Replay/Tests.antt =====
-- Claims of service/src/calls/replayProtection.ts at concrete stores.
use k3ncrypt.Base.{◌≡◌, refl, String, List, [], ◌∷◌, arith, string_eq}
use k3ncrypt.Base.Dict.{get, put, retain}
use k3ncrypt.Calls.Replay.{
  MemoryReplayProtectionStore, accepted, duplicate, capacity_exceeded, cleanup, claim_live, claim,
}
use k3ncrypt.Calls.Replay.Window.{IsValid, Attempt, outcomes, NeverAccepted, accepted_once}

store : Unit {0}
unfolding get put retain cleanup claim_live claim
store = tt

abbrev two_slots : MemoryReplayProtectionStore String
two_slots = record { entries = ("a", 50) ∷ []; max_entries = 2 }

abbrev again : List (Attempt String)
again =
    record { key = "b"; expires_at = 90; now = 20 }
    ∷ record { key = "c"; expires_at = 95; now = 30 }
    ∷ []

claim_tests :
    ((claim "b" 60 10 two_slots).1 ≡ accepted)
    × ((claim "a" 60 10 two_slots).1 ≡ duplicate)
    × ((claim "a" 60 50 two_slots).1 ≡ accepted)
    × ((claim "c" 60 10 (claim "b" 60 10 two_slots).0).1 ≡ capacity_exceeded)
unfolding store
claim_tests = (refl, refl, refl, refl)

two_slots-IsValid : IsValid two_slots
unfolding store
two_slots-IsValid = record { keys = (refl, tt); bounded = omega arith }

accepted_once_example : NeverAccepted "b" (outcomes (claim "b" 60 10 two_slots).0 again)
unfolding store
accepted_once_example = accepted_once "b" 60 10 two_slots again two_slots-IsValid refl (omega arith)
