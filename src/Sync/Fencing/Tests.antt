-- ===== src/Sync/Fencing/Tests.antt =====
-- Fences and a conflict recorded and resolved.
use k3ncrypt.Base.{◌≡◌, refl, String, string_eq, true, false, List, [], ◌∷◌, ok, err}
use k3ncrypt.Base.Text.{is_lower_hex, is_digit}
use k3ncrypt.Base.Dict.{get, put, delete}
use k3ncrypt.Devices.{units}
use k3ncrypt.Sync.{resolution_incomplete}
use k3ncrypt.Sync.Fencing.{
  FenceRecord, ConflictRecord, SyncScope, Fences, no_fences, bad_fence, record_fence, is_proposal,
  bad_conflict, record_conflict, has_all_fences, can_resume, clear_after_resolution,
}
use k3ncrypt.Sync.Fencing.Resume.{
  FenceCall, fencing, clearing, call, run, can_resume-record_conflict,
}

abbrev commitment : String
commitment = "0123456789abcdef0123456789abcdef0123456789abcdef0123456789abcdef"

abbrev two_members : SyncScope
two_members = record {
  scope = "user";
  checkpoint = record { epoch = 2; commitment = commitment };
  members = "a" ∷ "b" ∷ [];
}

abbrev fence_of : String → FenceRecord
fence_of id = record {
  attempt_id = "attempt-00000001";
  scope = "user";
  checkpoint = two_members.checkpoint;
  device_id = id;
  ledger_digest = "d";
}

abbrev forked : ConflictRecord
forked = record {
  attempt_id = "attempt-00000001";
  scope = "user";
  checkpoint = two_members.checkpoint;
  proposals = commitment ∷ [];
}

abbrev with_conflict : Fences
with_conflict = record no_fences { conflicts = ("attempt-00000001", forked) ∷ []; blocked = true }

abbrev unsorted : List String → List String
unsorted texts = texts

conflict_test : record_conflict unsorted two_members forked no_fences ≡ ok with_conflict
unfolding record_conflict bad_conflict is_proposal is_lower_hex is_digit put
conflict_test = refl

early_test :
    clear_after_resolution two_members "attempt-00000001" with_conflict ≡ err resolution_incomplete
unfolding clear_after_resolution has_all_fences get
early_test = refl

abbrev resolving : List FenceCall
resolving = fencing (fence_of "a") ∷ fencing (fence_of "b") ∷ clearing "attempt-00000001" ∷ []

resumed_test : can_resume two_members (run unsorted two_members resolving with_conflict) ≡ true
unfolding can_resume run call record_fence bad_fence units clear_after_resolution has_all_fences get
    put delete
resumed_test = refl

abbrev waiting : List FenceCall
waiting = fencing (fence_of "a") ∷ fencing (fence_of "b") ∷ clearing "attempt-00000002" ∷ []

can_resume-record_conflict_example :
    ((run unsorted two_members waiting with_conflict).blocked ≡ true)
    × (can_resume two_members (run unsorted two_members waiting with_conflict) ≡ false)
can_resume-record_conflict_example =
    can_resume-record_conflict unsorted two_members forked no_fences with_conflict waiting
      conflict_test refl
