-- ===== src/Calls/Replay/Window.antt =====
-- What service/src/calls/replayProtection.ts promises: a key is accepted once while it is held.
use k3ncrypt.Base.{
  ℕ, ◌≤◌, ◌<◌, ◌≡◌, ◌↔◌, ◌≢◌, refl, true, Eq, some, List, [], ◌∷◌, arith, ltb, lt→ltb, length, All,
  Option-cases, Bool-cases, inl, inr,
}
use k3ncrypt.Base.Dict.{
  IsDict, get, has, get-retain, get-put, retain-IsDict, put-IsDict, length-retain-le, length-put,
}
use k3ncrypt.Calls.Replay.{
  MemoryReplayProtectionStore, ReplayClaimResult, accepted, cleanup, claim_live, claim,
}

-- One claim of a history: its key, the time until which it is to be held, and the time of the call.
pub record Attempt {ℓ} (K : Type ℓ) : Type ℓ where
  pub key : K
  pub expires_at : ℕ
  pub now : ℕ

module _ {ℓ} {K : Type ℓ} ⦃e : Eq K⦄ where
  pub record IsValid (s : MemoryReplayProtectionStore K) : Type ℓ where
    pub keys : IsDict s.entries
    pub bounded : length s.entries ≤ s.max_entries

  cleanup-IsValid :
      (now : ℕ) (s : MemoryReplayProtectionStore K) → IsValid s → IsValid (cleanup now s)
  unfolding cleanup
  cleanup-IsValid now s v = record {
    keys = retain-IsDict _ s.entries v.keys;
    bounded = omega (arith, length-retain-le (λ x. ltb now x) s.entries, v.bounded);
  }

  claim_live-IsValid :
      (key : K) (expires_at now : ℕ) (s : MemoryReplayProtectionStore K)
      → IsValid s
      → IsValid (claim_live key expires_at now s).0
  unfolding claim_live
  claim_live-IsValid key expires_at now s v = ground (
    arith,
    put-IsDict key expires_at s.entries v.keys,
    length-put key expires_at s.entries,
    v.keys,
    v.bounded,
  )

  -- A claim keeps the keys distinct and the store within its bound, whatever it answers.
  pub claim-IsValid :
      (key : K) (expires_at now : ℕ) (s : MemoryReplayProtectionStore K)
      → IsValid s
      → IsValid (claim key expires_at now s).0
  unfolding claim
  claim-IsValid key expires_at now s v =
      claim_live-IsValid key expires_at now (cleanup now s) (cleanup-IsValid now s v)

  get-cleanup :
      (k : K) (now d : ℕ) (s : MemoryReplayProtectionStore K)
      → IsValid s
      → now < d
      → get k s.entries ≡ some d
      → get k (cleanup now s).entries ≡ some d
  unfolding cleanup
  get-cleanup k now d s v h held =
      rw (get-retain k (λ x. ltb now x) s.entries v.keys, held) (rw (lt→ltb now d h))

  -- A key that is held until `d` stays held by every claim before `d`, and is not given out again.
  claim_held :
      (k key : K) (d expires_at now : ℕ) (s : MemoryReplayProtectionStore K)
      → IsValid s
      → now < d
      → get k s.entries ≡ some d
      → (get k (claim key expires_at now s).0.entries ≡ some d)
        × (key ≡ k → (claim key expires_at now s).1 ≢ accepted)
  unfolding claim claim_live
  claim_held k key d expires_at now s v h held = ground (
    arith,
    get-cleanup k now d s v h held,
    get-put key k expires_at (cleanup now s).entries,
    e.same_iff key k,
  )

  -- The answers to a history of claims.
  pub outcomes :
      MemoryReplayProtectionStore K → List (Attempt K) → List (Attempt K × ReplayClaimResult)
  outcomes s [] = []
  outcomes s (a ∷ log) =
      let (t, result) = claim a.key a.expires_at a.now s in (a, result) ∷ outcomes t log

  -- The attempts of a list of answers at `k` that were accepted: none.
  abbrev pub NeverAccepted : K → List (Attempt K × ReplayClaimResult) → Type ℓ
  NeverAccepted k = All (λ r. (r.0).key ≡ k → r.1 ≢ accepted)

  outcomes_held :
      (k : K) (d : ℕ) (s : MemoryReplayProtectionStore K) (log : List (Attempt K))
      → IsValid s
      → get k s.entries ≡ some d
      → All (λ a. a.now < d) log
      → NeverAccepted k (outcomes s log)
  unfolding outcomes
  outcomes_held k d s [] v held early = tt
  outcomes_held k d s (a ∷ log) v held (h, early) =
      let (kept, refused) = claim_held k a.key d a.expires_at a.now s v h held in
      (
        refused,
        outcomes_held k d (claim a.key a.expires_at a.now s).0 log
            (claim-IsValid a.key a.expires_at a.now s v) kept early,
      )

  claim-get :
      (key : K) (expires_at now : ℕ) (s : MemoryReplayProtectionStore K)
      → (claim key expires_at now s).1 ≡ accepted
      → get key (claim key expires_at now s).0.entries ≡ some expires_at
  unfolding claim claim_live
  claim-get key expires_at now s h =
      ground (arith, get-put key key expires_at (cleanup now s).entries, e.same_iff key key)

  -- Once a key has been accepted until some time, no later claim of it is accepted, whatever is
  -- claimed in between, as long as every claim comes before that time.
  pub accepted_once :
      (key : K) (expires_at now : ℕ) (s : MemoryReplayProtectionStore K) (log : List (Attempt K))
      → IsValid s
      → (claim key expires_at now s).1 ≡ accepted
      → All (λ a. a.now < expires_at) log
      → NeverAccepted key (outcomes (claim key expires_at now s).0 log)
  accepted_once key expires_at now s log v h early =
      outcomes_held key expires_at (claim key expires_at now s).0 log
        (claim-IsValid key expires_at now s v) (claim-get key expires_at now s h) early

  -- Whether a key is held at a time: it has an entry that has not run out.
  abbrev pub Held : K → ℕ → MemoryReplayProtectionStore K → Type 0
  Held k now s = (d : ℕ) × (get k s.entries ≡ some d) × (now < d)

  cleanup-max_entries :
      (now : ℕ) (s : MemoryReplayProtectionStore K) → (cleanup now s).max_entries ≡ s.max_entries
  unfolding cleanup
  cleanup-max_entries now s = refl

  Held-has :
      (k : K) (now : ℕ) (s : MemoryReplayProtectionStore K)
      → IsValid s
      → Held k now s
      → has k (cleanup now s).entries ≡ true
  Held-has k now s v (d, held, early) = rw (get-cleanup k now d s v early held)

  has-Held :
      (k : K) (now : ℕ) (s : MemoryReplayProtectionStore K)
      → IsValid s
      → has k (cleanup now s).entries ≡ true
      → Held k now s
  unfolding cleanup
  has-Held k now s v h = elim (Option-cases (get k s.entries)) [
    | inl missing ↦ ground (arith, get-retain k (λ x. ltb now x) s.entries v.keys)
    | inr (d, held) ↦ (d, held, ground (arith, get-retain k (λ x. ltb now x) s.entries v.keys))
  ]

  -- A claim is accepted exactly when it is not stale itself, the key is not held, and the entries
  -- that have not run out leave room.
  pub accepted_iff :
      (key : K) (expires_at now : ℕ) (s : MemoryReplayProtectionStore K)
      → IsValid s
      → ((claim key expires_at now s).1 ≡ accepted)
        ↔ ((now < expires_at) × ¬ Held key now s × (length (cleanup now s).entries < s.max_entries))
  unfolding claim claim_live
  accepted_iff key expires_at now s v = (
    λ h. (
      ground arith,
      λ held. ground (arith, Held-has key now s v held),
      ground (arith, cleanup-max_entries now s),
    ),
    λ (fresh, free, room). elim (Bool-cases (has key (cleanup now s).entries)) [
      | inl taken ↦ absurd (free (has-Held key now s v taken))
      | inr open_key ↦ ground (arith, cleanup-max_entries now s)
    ],
  )
