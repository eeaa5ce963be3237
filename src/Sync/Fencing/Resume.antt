-- ===== src/Sync/Fencing/Resume.antt =====
-- A conflict (service/src/sync/fencing.ts) blocks until it is resolved, whatever else is recorded.
use k3ncrypt.Base.{
  ◌≡◌, refl, inl, inr, String, string_eq, ◌==◌, Bool, true, false, not, ◌||◌, List, [], ◌∷◌, eqb,
  any, length, arith, Bool-cases, Result, ok, err,
}
use k3ncrypt.Base.Dict.{get, put, delete, has, get-put, get-put_self, get-delete}
use mathlib.Core.Path.{subst}
use k3ncrypt.Sync.{SyncError}
use k3ncrypt.Sync.Fencing.{
  FenceRecord, ConflictRecord, SyncScope, Fences, bad_fence, other_ledger, record_fence,
  bad_conflict, record_conflict, has_all_fences, can_resume, clear_after_resolution,
}

pub data FenceCall : Type 0 where
  fencing : FenceRecord → FenceCall
  conflicting : ConflictRecord → FenceCall
  clearing : String → FenceCall

abbrev pub clears : String → FenceCall → Bool
clears id (clearing other) = other == id
clears id (fencing f) = false
clears id (conflicting c) = false

-- A call that throws changes nothing.
abbrev pub or_same : Fences → Result SyncError Fences → Fences
or_same t (ok u) = u
or_same t (err e) = t

-- The conflict of an attempt stands.
record Blocks (id : String) (t : Fences) : Type 0 where
  stands : has id t.conflicts ≡ true
  blocked : t.blocked ≡ true

some_conflict :
    (id : String) (d : List (String × ConflictRecord)) → has id d ≡ true → eqb (length d) 0 ≡ false
unfolding get
some_conflict id [] h = cc
some_conflict id ((k, c) ∷ d) h = ground arith

module _ (sort_texts : List String → List String) (s : SyncScope) where
  unfoldable pub call : FenceCall → Fences → Fences
  call (fencing f) t = or_same t (record_fence s f t)
  call (conflicting c) t = or_same t (record_conflict sort_texts s c t)
  call (clearing id) t = or_same t (clear_after_resolution s id t)

  unfoldable pub run : List FenceCall → Fences → Fences
  run [] t = t
  run (c ∷ cs) t = run cs (call c t)

  call-Blocks :
      (id : String) (c : FenceCall) (t : Fences)
      → clears id c ≡ false
      → Blocks id t
      → Blocks id (call c t)
  unfolding call record_fence record_conflict clear_after_resolution
  call-Blocks id (fencing f) t n b = elim (Bool-cases (bad_fence s f)) [
    | inl e ↦ rw (call, record_fence, e) b
    | inr e ↦ elim (Bool-cases (other_ledger f (get f.device_id t.fences))) [
      | inl q ↦ rw (call, record_fence, e, q) b
      | inr q ↦ rw (call, record_fence, e, q) (record { stands = b.stands; blocked = refl })
    ]
  ]
  call-Blocks id (conflicting c) t n b = elim (Bool-cases (bad_conflict s c)) [
    | inl e ↦ rw (call, record_conflict, e) b
    | inr e ↦
        rw (call, record_conflict, e)
          (record {
            stands = ground (
              arith,
              b.stands,
              get-put c.attempt_id id (record c { proposals = sort_texts c.proposals }) t.conflicts,
            );
            blocked = refl;
          })
  ]
  call-Blocks id (clearing other) t n b =
      elim (Bool-cases (not (has other t.conflicts) || not (has_all_fences s t))) [
        | inl e ↦ rw (call, clear_after_resolution, e) b
        | inr e ↦
            let k : has id (delete other t.conflicts) ≡ true =
              ground (arith, n, b.stands, get-delete other id t.conflicts) in
            rw (call, clear_after_resolution, e)
              (record {
                stands = k;
                blocked = ground (arith, some_conflict id (delete other t.conflicts) k);
              })
      ]

  run-Blocks :
      (id : String) (cs : List FenceCall) (t : Fences)
      → any (clears id) cs ≡ false
      → Blocks id t
      → Blocks id (run cs t)
  unfolding run
  run-Blocks id [] t n b = b
  run-Blocks id (c ∷ cs) t n b =
      run-Blocks id cs (call c t) (ground (arith, n)) (call-Blocks id c t (ground (arith, n)) b)

  recorded-Blocks :
      (c : ConflictRecord) (t u : Fences)
      → record_conflict sort_texts s c t ≡ ok u
      → Blocks c.attempt_id u
  unfolding record_conflict
  recorded-Blocks c t u h = elim (Bool-cases (bad_conflict s c)) [
    | inl e ↦ absurd (ground (arith, rw (e, record_conflict) at h))
    | inr e ↦
        let sorted : ConflictRecord = record c { proposals = sort_texts c.proposals } in
        let v : Fences = record t {
          conflicts = put c.attempt_id sorted t.conflicts;
          blocked = true;
        } in
        let k : v ≡ u = ground (arith, rw (e, record_conflict) at h) in
        let d : Blocks c.attempt_id v = record {
          stands = ground (arith, get-put_self c.attempt_id sorted t.conflicts);
          blocked = refl;
        } in
        subst (Blocks c.attempt_id) k d
  ]

  -- Once a conflict of an attempt is recorded, the coordinator is blocked and cannot resume, whatever
  -- fences, conflicts and resolutions of other attempts follow, until the attempt itself is cleared.
  pub can_resume-record_conflict :
      (c : ConflictRecord) (t u : Fences) (later : List FenceCall)
      → record_conflict sort_texts s c t ≡ ok u
      → any (clears c.attempt_id) later ≡ false
      → ((run later u).blocked ≡ true) × (can_resume s (run later u) ≡ false)
  unfolding can_resume
  can_resume-record_conflict c t u later h n =
      let b : Blocks c.attempt_id (run later u) =
        run-Blocks c.attempt_id later u n (recorded-Blocks c t u h) in
      (b.blocked, ground (arith, some_conflict c.attempt_id (run later u).conflicts b.stands))
