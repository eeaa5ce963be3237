-- ===== src/Calls/Replay.antt =====
-- service/src/calls/replayProtection.ts: the in-memory store of claimed signal keys, and the boundary
-- to a durable one. The source's keys are texts; any type with an equality test serves here.
pub mod Window
mod Tests
use k3ncrypt.Base.{
  ℕ, ◌≡◌, Bool, true, false, ◌||◌, String, Eq, ◌==◌, ltb, leb, if◌then◌else◌, length,
}
use k3ncrypt.Base.Dict.{Dict, has, put, retain}

pub data ReplayClaimResult : Type 0 where
  accepted duplicate expired capacity_exceeded : ReplayClaimResult

-- The map of keys to the time until which each is held, and the bound on its size.
pub record MemoryReplayProtectionStore {ℓ} (K : Type ℓ) : Type ℓ where
  pub entries : Dict K ℕ
  pub max_entries : ℕ

module _ {ℓ} {K : Type ℓ} ⦃e : Eq K⦄ where
  -- Entries with `expiresAt <= now` go.
  pub cleanup : ℕ → MemoryReplayProtectionStore K → MemoryReplayProtectionStore K
  cleanup now s = record s { entries = retain (λ expires_at. ltb now expires_at) s.entries }

  -- `claim` below its call of `cleanup`.
  pub claim_live :
      K → ℕ → ℕ → MemoryReplayProtectionStore K → MemoryReplayProtectionStore K × ReplayClaimResult
  claim_live key expires_at now s =
      if leb expires_at now
      then (s, expired)
      else if has key s.entries
      then (s, duplicate)
      else if leb s.max_entries (length s.entries)
      then (s, capacity_exceeded)
      else (record s { entries = put key expires_at s.entries }, accepted)

  pub claim :
      K → ℕ → ℕ → MemoryReplayProtectionStore K → MemoryReplayProtectionStore K × ReplayClaimResult
  claim key expires_at now s = claim_live key expires_at now (cleanup now s)
