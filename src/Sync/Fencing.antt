-- ===== src/Sync/Fencing.antt =====
-- service/src/sync/fencing.ts: the fences that the members set, and conflicts that block until they are
-- resolved.
pub mod Resume
mod Tests
use k3ncrypt.Base.{
  ℕ, String, string_eq, ◌==◌, Bool, true, false, not, ◌&&◌, ◌||◌, Option, none, some, List, [], ◌∷◌,
  leb, ltb, eqb, if◌then◌else◌, any, all, length, includes, Result, ok, err,
}
use k3ncrypt.Base.Text.{codes, is_lower_hex}
use k3ncrypt.Base.Dict.{Dict, get, put, delete, has}
use k3ncrypt.Devices.{units}
use k3ncrypt.Sync.{
  SyncCheckpoint, same_checkpoint, SyncError, fence_rejected, conflicting_fence, conflict_rejected,
  resolution_incomplete,
}

pub record FenceRecord : Type 0 where
  pub attempt_id : String
  pub scope : String
  pub checkpoint : SyncCheckpoint
  pub device_id : String
  pub ledger_digest : String

-- The reason of a conflict is only kept.
pub record ConflictRecord : Type 0 where
  pub attempt_id : String
  pub scope : String
  pub checkpoint : SyncCheckpoint
  pub proposals : List String

-- What the coordinator is made for.
pub record SyncScope : Type 0 where
  pub scope : String
  pub checkpoint : SyncCheckpoint
  pub members : List String

pub record Fences : Type 0 where
  pub fences : Dict String FenceRecord
  pub conflicts : Dict String ConflictRecord
  pub blocked : Bool

abbrev pub no_fences : Fences
no_fences = record { fences = []; conflicts = []; blocked = false }

-- The length of a text is in units of sixteen bits.
pub bad_fence : SyncScope → FenceRecord → Bool
bad_fence s f =
    not (f.scope == s.scope)
    || ltb (units (codes f.attempt_id)) 16
    || not (same_checkpoint f.checkpoint s.checkpoint)
    || not (includes s.members f.device_id)

abbrev pub other_ledger : FenceRecord → Option FenceRecord → Bool
other_ledger f none = false
other_ledger f (some prior) = not (prior.ledger_digest == f.ledger_digest)

pub record_fence : SyncScope → FenceRecord → Fences → Result SyncError Fences
record_fence s f t =
    if bad_fence s f
    then err fence_rejected
    else if other_ledger f (get f.device_id t.fences)
    then err conflicting_fence
    else ok (record t { fences = put f.device_id f t.fences; blocked = true })

pub is_proposal : String → Bool
is_proposal p = eqb (length (codes p)) 64 && all is_lower_hex (codes p)

pub bad_conflict : SyncScope → ConflictRecord → Bool
bad_conflict s c =
    not (c.scope == s.scope)
    || not (same_checkpoint c.checkpoint s.checkpoint)
    || eqb (length c.proposals) 0
    || not (all is_proposal c.proposals)

-- The proposals are stored in an order that `sort_texts`, the runtime's, gives them.
pub record_conflict :
    (sort_texts : List String → List String)
    → SyncScope
    → ConflictRecord
    → Fences
    → Result SyncError Fences
record_conflict sort_texts s c t =
    if bad_conflict s c
    then err conflict_rejected
    else ok (record t {
      conflicts = put c.attempt_id (record c { proposals = sort_texts c.proposals }) t.conflicts;
      blocked = true;
    })

pub has_all_fences : SyncScope → Fences → Bool
has_all_fences s t = all (λ member. has member t.fences) s.members

pub can_resume : SyncScope → Fences → Bool
can_resume s t = has_all_fences s t && eqb (length t.conflicts) 0

pub conflicts_for : String → Fences → Option ConflictRecord
conflicts_for attempt_id t = get attempt_id t.conflicts

pub clear_after_resolution : SyncScope → String → Fences → Result SyncError Fences
clear_after_resolution s attempt_id t =
    if not (has attempt_id t.conflicts) || not (has_all_fences s t)
    then err resolution_incomplete
    else let rest = delete attempt_id t.conflicts in
      ok (record t { conflicts = rest; blocked = ltb 0 (length rest) })
