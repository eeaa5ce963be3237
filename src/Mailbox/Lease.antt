-- ===== src/Mailbox/Lease.antt =====
-- A lease holds: what no history of calls can do to a message that is claimed.
use k3ncrypt.Base.{
  ℕ, ◌<◌, ◌≡◌, ◌≢◌, refl, sym, ap, ◌∙◌, inl, inr, String, nat_eq, true, false, Option, none, some,
  List, [], ◌∷◌, arith, eqb, eqb_iff, All, All-append, All-keep, keep, Bool-cases, Option-cases,
  ltb,
}
use k3ncrypt.Mailbox.{
  OfflineMessage, Collection, Condition, is_active, is_leased, is_deliverable, claim, change_row,
  terminal, is_current, claim_offline_message, claim_head, next_active_offline_message,
}
use k3ncrypt.Mailbox.Store.{
  Call, store, claim_next, ack, reject, record_rejection, delete_expired, call, run, empty, handed,
  handed_all, of_mailbox, add_handed,
}
use k3ncrypt.Mailbox.Moves.{
  Move, stays, adds, adds_rejected, claims, rejects, removes, expires, call-Move,
}
use k3ncrypt.Mailbox.Order.{Among, here, there, claim-Before, next_lem, Before}
use k3ncrypt.Mailbox.Keys.{Different, Fresh, IsKeyed, run-IsKeyed, All-change_row, All-remove_first}

-- If it is the message `p` and still active, it is leased until `lease`.
abbrev Held : ℕ → ℕ → OfflineMessage → Type 0
Held p lease m = m.pk ≡ p → is_active m.state ≡ true → m.claimed_until ≡ some lease

pub All-Among {κ} :
    (P : OfflineMessage → Type κ) (m : OfflineMessage) (ms : List OfflineMessage)
    → Among m ms
    → All P ms
    → P m
All-Among P m [] a h = elim a [ ]
All-Among P m (_ ∷ ms) here h = h.0
All-Among P m (n ∷ ms) (there a) h = All-Among P m ms a h.1

is_deliverable_active :
    (now : ℕ) (c : Condition) (m : OfflineMessage)
    → is_deliverable now c m ≡ true
    → is_active m.state ≡ true
unfolding is_deliverable
is_deliverable_active now c m h = ground (arith, h)

-- A message without a lease is another one.
not-Held :
    (now p lease : ℕ) (c : Condition) (m : OfflineMessage)
    → now < lease
    → is_deliverable now c m ≡ true
    → is_leased now m.claimed_until ≡ false
    → Held p lease m
    → m.pk ≢ p
not-Held now p lease c m t d l h e =
    let k : m.claimed_until ≡ some lease = h e (is_deliverable_active now c m d) in
    let q : ltb now lease ≡ false = rw k at l in ground (arith, q, t)

Move-Held :
    {now : ℕ} (p lease : ℕ) (c d : Collection)
    → Move now c d
    → now < lease
    → p < c.pk
    → All (Held p lease) c.rows
    → (p < d.pk) × All (Held p lease) d.rows
Move-Held p lease c d stays t b h = (b, h)
Move-Held p lease c d (adds m e q) t b h = (
  omega arith,
  All-append (Held p lease) c.rows (record m { pk = c.pk } ∷ []) h
      ((λ e a. absurd (omega (arith, e))), tt),
)
Move-Held p lease c d (adds_rejected m e q) t b h = (
  omega arith,
  All-append (Held p lease) c.rows (record m { pk = c.pk } ∷ []) h
      ((λ e a. absurd (omega (arith, e))), tt),
)
Move-Held {now} p lease c d (claims m condition until id e l) t b h =
    let r : Among m c.rows
        × (is_deliverable now condition m ≡ true)
        × All (Before m) (keep (is_deliverable now condition) c.rows) =
      next_lem now condition m c.rows e in
    let other : m.pk ≢ p =
      not-Held now p lease condition m t r.1 l (All-Among (Held p lease) m c.rows r.0 h) in
    (
      b,
      All-change_row (Held p lease) m.pk (claim until id) c.rows
          (λ n s k x a. absurd (other (sym s ∙ x))) h,
    )
Move-Held {now} p lease c d (rejects pk reason id) t b h =
    (b, All-change_row (Held p lease) pk (terminal reason now id) c.rows (λ n s k x a. cc) h)
Move-Held p lease c d (removes q rest e) t b h =
    (b, All-remove_first (Held p lease) q c.rows rest e h)
Move-Held {now} p lease c d expires t b h =
    (b, All-keep (Held p lease) (λ m. is_current now m.expires_at) c.rows h)

pub claimed_lem :
    (now : ℕ) (channel mailbox : String) (until : ℕ) (id : String) (c : Collection)
    (x : OfflineMessage)
    → handed now (claim_next channel mailbox until id) c ≡ some x
    → (n : OfflineMessage) × (x ≡ claim until id n)
      × Among n c.rows
      × (is_deliverable now (of_mailbox channel mailbox) n ≡ true)
      × (is_leased now n.claimed_until ≡ false)
      × All (Before n) (keep (is_deliverable now (of_mailbox channel mailbox)) c.rows)
unfolding handed
claimed_lem now channel mailbox until id c x h =
    claim-Before now (of_mailbox channel mailbox) until id c
      (claim_offline_message now (of_mailbox channel mailbox) until id c).0 x
      (λ i. ((claim_offline_message now (of_mailbox channel mailbox) until id c).0, h i))

abbrev pub Other : ℕ → OfflineMessage → Type 0
Other p m = m.pk ≢ p

abbrev pub Earlier : ℕ → ℕ × Call → Type 0
Earlier lease e = e.0 < lease

handed-Held :
    (now p lease : ℕ) (e : Call) (c : Collection) (x : OfflineMessage)
    → now < lease
    → All (Held p lease) c.rows
    → handed now e c ≡ some x
    → x.pk ≢ p
unfolding handed
handed-Held now p lease (claim_next channel mailbox until id) c x t h e =
    let (n, s, a, d, l, w) = claimed_lem now channel mailbox until id c x e in
    let other : n.pk ≢ p =
      not-Held now p lease (of_mailbox channel mailbox) n t d l
        (All-Among (Held p lease) n c.rows a h) in
    λ k. other (ap (λ (m : OfflineMessage). m.pk) (sym s) ∙ k)
handed-Held now p lease (store m) c x t h e = cc
handed-Held now p lease (ack condition) c x t h e = cc
handed-Held now p lease (reject condition reason) c x t h e = cc
handed-Held now p lease (record_rejection m reason) c x t h e = cc
handed-Held now p lease delete_expired c x t h e = cc

add_handed-Other :
    (p : ℕ) (o : Option OfflineMessage) (ms : List OfflineMessage)
    → ((x : OfflineMessage) → o ≡ some x → x.pk ≢ p)
    → All (Other p) ms
    → All (Other p) (add_handed o ms)
add_handed-Other p none ms f h = h
add_handed-Other p (some x) ms f h = (f x refl, h)

handed_all-Held :
    (p lease : ℕ) (es : List (ℕ × Call)) (c : Collection)
    → All (Earlier lease) es
    → p < c.pk
    → All (Held p lease) c.rows
    → All (Other p) (handed_all es c)
unfolding handed_all
handed_all-Held p lease [] c t b h = tt
handed_all-Held p lease ((now, e) ∷ es) c t b h =
    let r : (p < (call now e c).pk) × All (Held p lease) (call now e c).rows =
      Move-Held p lease c (call now e c) (call-Move now e c) t.0 b h in
    add_handed-Other p (handed now e c) (handed_all es (call now e c))
      (λ x q. handed-Held now p lease e c x t.0 h q)
      (handed_all-Held p lease es (call now e c) t.1 r.0 r.1)

Fresh-Held :
    (p lease : ℕ) (ms : List OfflineMessage) → Fresh (λ m. m.pk) p ms → All (Held p lease) ms
Fresh-Held p lease [] g = tt
Fresh-Held p lease (m ∷ ms) g = (
  (λ e a. absurd (ground (arith, g, e, eqb_iff m.pk p))),
  Fresh-Held p lease ms (ground (arith, g)),
)

change_row-Held :
    (p lease : ℕ) (id : String) (ms : List OfflineMessage)
    → Different (λ m. m.pk) ms
    → All (Held p lease) (change_row p (claim lease id) ms)
unfolding change_row
change_row-Held p lease id [] d = tt
change_row-Held p lease id (m ∷ ms) d = elim (Bool-cases (eqb m.pk p)) [
  | inl q ↦
      let e : m.pk ≡ p = (eqb_iff m.pk p).0 q in
      rw q ((λ x a. refl), Fresh-Held p lease ms (rw e at d.0))
  | inr q ↦
      rw q
        ((λ e a. absurd (ground (arith, q, e, eqb_iff m.pk p))), change_row-Held p lease id ms d.1)
]

claim-Held :
    (now : ℕ) (channel mailbox : String) (lease : ℕ) (id : String) (c : Collection)
    (x : OfflineMessage)
    → IsKeyed c
    → handed now (claim_next channel mailbox lease id) c ≡ some x
    → (x.pk < (call now (claim_next channel mailbox lease id) c).pk)
      × All (Held x.pk lease) (call now (claim_next channel mailbox lease id) c).rows
unfolding call handed claim_offline_message claim_head
claim-Held now channel mailbox lease id c x k h =
    elim (Option-cases (next_active_offline_message now (of_mailbox channel mailbox) c.rows)) [
      | inl e ↦ absurd (ground (arith, rw (e, handed, claim_offline_message, claim_head) at h))
      | inr (n, e) ↦ elim (Bool-cases (is_leased now n.claimed_until)) [
        | inl l ↦ absurd (ground (arith, rw (e, handed, claim_offline_message, claim_head, l) at h))
        | inr l ↦
            let (a, d, w) = next_lem now (of_mailbox channel mailbox) n c.rows e in
            let s : claim lease id n ≡ x =
              ground (arith, rw (e, handed, claim_offline_message, claim_head, l) at h) in
            let b : n.pk < c.pk = All-Among (λ m. m.pk < c.pk) n c.rows a k.below in
            rw (sym s, e, l, call, claim_offline_message, claim_head)
              (b, change_row-Held n.pk lease id c.rows k.pks)
      ]
    ]

-- After any history that starts with no messages: once a claim hands out a message, no call of any
-- further history that is made before the end of the lease hands that message out again.
pub handed_all-Other :
    (earlier : List (ℕ × Call)) (now : ℕ) (channel mailbox : String) (lease : ℕ) (id : String)
    (x : OfflineMessage)
    → handed now (claim_next channel mailbox lease id) (run earlier empty) ≡ some x
    → (later : List (ℕ × Call)) → All (Earlier lease) later
    → All
        (Other x.pk)
        (handed_all later (call now (claim_next channel mailbox lease id) (run earlier empty)))
handed_all-Other earlier now channel mailbox lease id x h later t =
    let k : IsKeyed (run earlier empty) =
      run-IsKeyed earlier empty (record { below = tt; pks = tt; keys = tt }) in
    let r = claim-Held now channel mailbox lease id (run earlier empty) x k h in
    handed_all-Held x.pk lease later
      (call now (claim_next channel mailbox lease id) (run earlier empty)) t r.0 r.1
