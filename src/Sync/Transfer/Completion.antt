-- ===== src/Sync/Transfer/Completion.antt =====
-- A transfer of service/src/sync/transfer.ts that is completed has the content of its manifest.
use k3ncrypt.Base.{
  ℕ, ◌≡◌, refl, nat_eq, inl, inr, string_eq, ◌==◌, Bool, true, false, not, ◌&&◌, some, List, [],
  ◌∷◌, eqb, any, length, arith, Bool-cases, Option-cases, Result-cases, ok, passed,
}
use text.Mathlib.TextEquality.{eq_iff}
use k3ncrypt.Base.Dict.{get}
use k3ncrypt.Sync.{
  approved, syncing, suspended, authorized, transferring, completed, failed, same_transfer,
  SyncState, transition_device, transition_transfer, suspend,
}
use k3ncrypt.Sync.Package.{
  SyncAuthorization, SyncPackage, SyncCompletionManifest, Boundary, Digests, authorize_sync,
  is_package,
}
use k3ncrypt.Sync.Transfer.{
  Transfer, new_transfer, Move, to_device, to_transfer, move, moves, make, sort, is_running,
  other_ends, keep_package, clashes, is_manifest, is_some, authorize, package_allowed, take_package,
  accept, complete_with, complete, begin, fail,
}

abbrev pub is_done : SyncState → Bool
is_done s = same_transfer s.transfer completed

abbrev pub completes : Move → Bool
completes (to_device d) = false
completes (to_transfer t) = same_transfer t completed

move_done :
    (m : Move) (s next : SyncState)
    → move m s ≡ ok next
    → completes m ≡ false
    → is_done next ≡ true
    → is_done s ≡ true
unfolding transition_device transition_transfer
move_done (to_device d) s next h c k = ground (arith, h, k)
move_done (to_transfer t) s next h c k = ground (arith, h, k, c)

moves_done :
    (ms : List Move) (s : SyncState)
    → any completes ms ≡ false
    → is_done (moves ms s).0 ≡ true
    → is_done s ≡ true
unfolding moves
moves_done [] s c k = k
moves_done (m ∷ ms) s c k = elim (Result-cases (move m s)) [
  | inr (e, q) ↦ rw (q, moves) at k
  | inl (next, q) ↦
      move_done m s next q (ground (arith, c))
        (moves_done ms next (ground (arith, c)) (rw (q, moves) at k))
]

suspend_done : (s : SyncState) → is_done (suspend s) ≡ true → is_done s ≡ true
unfolding suspend
suspend_done s h = ground (arith, h)

running_done : (s : SyncState) → is_running s ≡ true → is_done s ≡ false
unfolding is_running
running_done s h = ground (arith, h)

pub data TransferCall : Type 0 where
  authorizing : ℕ → Boundary → TransferCall
  beginning : TransferCall
  accepting : ℕ → (trusted : Bool) → SyncPackage → TransferCall
  completing : TransferCall
  failing : TransferCall

module _ (g : Digests) (a : SyncAuthorization) where
  -- The manifest is there, with as many chunks as it says and the commitment to them.
  pub record HasContent (t : Transfer) : Type 0 where
    pub manifest : SyncCompletionManifest
    pub given : t.manifest ≡ some manifest
    pub counted : length t.chunks ≡ manifest.expected_chunk_count
    pub committed : g.content a.transfer_id (sort t.chunks) ≡ manifest.final_content_commitment

  abbrev pub IsComplete : Transfer → Type 0
  IsComplete t = is_done t.state ≡ true → HasContent t

  unfoldable pub call : TransferCall → Transfer → Transfer
  call (authorizing now b) t = (authorize g a now b t).0
  call beginning t = (begin t).0
  call (accepting now trusted p) t = (accept g a now trusted p t).0
  call completing t = (complete g a t).0
  call failing t = (fail t).0

  unfoldable pub run : List TransferCall → Transfer → Transfer
  run [] t = t
  run (c ∷ cs) t = run cs (call c t)

  make-IsComplete :
      (ms : List Move) (t : Transfer)
      → any completes ms ≡ false
      → IsComplete t
      → IsComplete (make ms t).0
  unfolding make
  make-IsComplete ms t c h k =
      let r : HasContent t = h (moves_done ms t.state c k) in
      record {
        manifest = r.manifest;
        given = r.given;
        counted = r.counted;
        committed = r.committed;
      }

  authorize-IsComplete :
      (now : ℕ) (b : Boundary) (t : Transfer) → IsComplete t → IsComplete (authorize g a now b t).0
  unfolding authorize
  authorize-IsComplete now b t h = elim (Result-cases (authorize_sync g now a b)) [
    | inr (e, q) ↦ rw (q, authorize) h
    | inl (u, q) ↦
        rw (q, authorize)
          (make-IsComplete (to_device approved ∷ to_transfer authorized ∷ []) t refl h)
  ]

  fail-IsComplete : (t : Transfer) → IsComplete t → IsComplete (fail t).0
  unfolding fail
  fail-IsComplete t h = elim (Bool-cases (same_transfer t.state.transfer completed)) [
    | inl e ↦ rw (e, fail) (make-IsComplete (to_device suspended ∷ []) t refl h)
    | inr e ↦
        rw (e, fail) (make-IsComplete (to_transfer failed ∷ to_device suspended ∷ []) t refl h)
  ]

  suspended-IsComplete :
      (t : Transfer) → IsComplete t → IsComplete (record t { state = suspend t.state })
  suspended-IsComplete t h k =
      let r : HasContent t = h (suspend_done t.state k) in
      record {
        manifest = r.manifest;
        given = r.given;
        counted = r.counted;
        committed = r.committed;
      }

  allowed_running :
      (now : ℕ) (trusted : Bool) (p : SyncPackage) (s : SyncState)
      → package_allowed g a now trusted p s ≡ ok tt
      → is_done s ≡ false
  unfolding package_allowed
  allowed_running now trusted p s h =
      let (x, h1) = passed (not (is_package (g.size p) p)) _ _ h in
      let (y, h2) = passed (other_ends now a p) _ _ h1 in
      let (z, h3) = passed (not (is_running s)) _ _ h2 in running_done s (ground (arith, z))

  take-IsComplete :
      (p : SyncPackage) (t : Transfer)
      → is_done t.state ≡ false
      → IsComplete t
      → IsComplete (take_package g a p t).0
  unfolding take_package keep_package
  take-IsComplete p t n h = elim (Bool-cases (clashes (g.digest p) (get p.sequence t.received))) [
    | inl e ↦ rw (e, take_package) (suspended-IsComplete t h)
    | inr e ↦ elim (Bool-cases (is_manifest p.purpose && is_some t.manifest)) [
      | inl q ↦ rw (e, q, take_package) h
      | inr q ↦ rw (e, q, take_package) (λ k. absurd (ground (arith, k, n)))
    ]
  ]

  accept-IsComplete :
      (now : ℕ) (trusted : Bool) (p : SyncPackage) (t : Transfer)
      → IsComplete t
      → IsComplete (accept g a now trusted p t).0
  unfolding accept
  accept-IsComplete now trusted p t h =
      elim (Result-cases (package_allowed g a now trusted p t.state)) [
        | inr (e, q) ↦ rw (q, accept) h
        | inl (u, q) ↦
            rw (q, accept) (take-IsComplete p t (allowed_running now trusted p t.state q) h)
      ]

  complete_with-IsComplete :
      (m : SyncCompletionManifest) (t : Transfer)
      → t.manifest ≡ some m
      → IsComplete t
      → IsComplete (complete_with g a m t).0
  unfolding complete_with make
  complete_with-IsComplete m t e h =
      elim (Bool-cases (eqb (length t.chunks) m.expected_chunk_count)) [
        | inr c ↦ rw (c, complete_with) h
        | inl c ↦
            elim (Bool-cases
              (g.content a.transfer_id (sort t.chunks) == m.final_content_commitment)) [
                | inr d ↦ rw (c, d, complete_with) (suspended-IsComplete t h)
                | inl d ↦
                    rw (c, d, complete_with)
                      (λ k. record {
                        manifest = m;
                        given = e;
                        counted = ground (arith, c);
                        committed =
                            (eq_iff (g.content a.transfer_id (sort t.chunks))
                                m.final_content_commitment).0
                              d;
                      })
              ]
      ]

  complete-IsComplete : (t : Transfer) → IsComplete t → IsComplete (complete g a t).0
  unfolding complete
  complete-IsComplete t h = elim (Option-cases t.manifest) [
    | inl e ↦ rw (e, complete) h
    | inr (m, e) ↦ rw (e, complete) (complete_with-IsComplete m t e h)
  ]

  call-IsComplete : (c : TransferCall) (t : Transfer) → IsComplete t → IsComplete (call c t)
  unfolding call begin
  call-IsComplete (authorizing now b) t h = authorize-IsComplete now b t h
  call-IsComplete beginning t h =
      make-IsComplete (to_device syncing ∷ to_transfer transferring ∷ []) t refl h
  call-IsComplete (accepting now trusted p) t h = accept-IsComplete now trusted p t h
  call-IsComplete completing t h = complete-IsComplete t h
  call-IsComplete failing t h = fail-IsComplete t h

  run-IsComplete : (cs : List TransferCall) (t : Transfer) → IsComplete t → IsComplete (run cs t)
  unfolding run
  run-IsComplete [] t h = h
  run-IsComplete (c ∷ cs) t h = run-IsComplete cs (call c t) (call-IsComplete c t h)

  -- After any history of calls of a new transfer, in any order and whatever they are given: a transfer
  -- that is completed has a manifest, as many chunks as the manifest says, and the commitment to them
  -- that the manifest names.
  pub run-HasContent :
      (cs : List TransferCall)
      → is_done (run cs new_transfer).state ≡ true
      → HasContent (run cs new_transfer)
  run-HasContent cs h = run-IsComplete cs new_transfer (λ k. cc) h
