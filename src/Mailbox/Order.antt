-- ===== src/Mailbox/Order.antt =====
-- The message that a claim takes: the first of the deliverable ones in the order of the mailbox.
use k3ncrypt.Base.{
  ℕ, ◌≡◌, refl, inl, inr, ◌∙◌, sym, Bool, true, false, Option, none, some, List, [], ◌∷◌, String,
  arith, if◌then◌else◌, keep, All, All-map, Bool-cases, Option-cases,
}
use mathlib.Core.Path.{subst}
use k3ncrypt.Mailbox.{
  OfflineMessage, Condition, fifo, insert, sort, first, is_deliverable, next_active_offline_message,
  Collection, is_leased, claim, claim_head, claim_offline_message,
}

pub data Among (m : OfflineMessage) : List OfflineMessage → Type 0 where
  here : {ms : List OfflineMessage} → Among m (m ∷ ms)
  there : {n : OfflineMessage} {ms : List OfflineMessage} → Among m ms → Among m (n ∷ ms)

-- The earlier of two, if there is a second.
abbrev earlier : OfflineMessage → Option OfflineMessage → OfflineMessage
earlier m none = m
earlier m (some n) = if fifo m n then m else n

first-insert :
    (m : OfflineMessage) (ms : List OfflineMessage)
    → first (insert m ms) ≡ some (earlier m (first ms))
unfolding insert
first-insert m [] = refl
first-insert m (n ∷ ms) = ground arith

fifo_total : (m n : OfflineMessage) → fifo m n ≡ false → fifo n m ≡ true
unfolding fifo
fifo_total m n h = ground arith

fifo_refl : (m : OfflineMessage) → fifo m m ≡ true
unfolding fifo
fifo_refl m = ground arith

fifo_trans : (a b c : OfflineMessage) → fifo a b ≡ true → fifo b c ≡ true → fifo a c ≡ true
unfolding fifo
fifo_trans a b c h k = ground arith

abbrev pub Before : OfflineMessage → OfflineMessage → Type 0
Before m n = fifo m n ≡ true

sort-none : (ms : List OfflineMessage) → first (sort ms) ≡ none → ms ≡ []
unfolding sort
sort-none [] h = refl
sort-none (m ∷ ms) h = absurd (ground (arith, sym (first-insert m (sort ms)) ∙ h))

first-sort_step :
    (m n k : OfflineMessage) (ms : List OfflineMessage)
    → earlier n (some k) ≡ m
    → Among k ms
    → All (Before k) ms
    → Among m (n ∷ ms) × All (Before m) (n ∷ ms)
first-sort_step m n k ms e a b = elim (Bool-cases (fifo n k)) [
  | inl q ↦
      let same : n ≡ m = rw q at e in
      (
        rw (sym same) here,
        (
          rw (sym same) (fifo_refl n),
          All-map (Before k) (Before m) ms (λ x h. rw (sym same) (fifo_trans n k x q h)) b,
        ),
      )
  | inr q ↦
      let same : k ≡ m = rw q at e in
      subst (λ x. Among x (n ∷ ms) × All (Before x) (n ∷ ms)) same (there a, (fifo_total n k q, b))
]

pub first-sort :
    (m : OfflineMessage) (ms : List OfflineMessage)
    → first (sort ms) ≡ some m
    → Among m ms × All (Before m) ms
first-sort m [] h = absurd (unfold sort in ground (arith, h))
first-sort m (n ∷ ms) h =
    let taken : some (earlier n (first (sort ms))) ≡ some m =
      sym (first-insert n (sort ms)) ∙ (unfold sort in h) in
    elim (Option-cases (first (sort ms))) [
      | inl e ↦
          let same : n ≡ m = ground (arith, rw e at taken) in
          rw (sort-none ms e, same) (here, (fifo_refl m, tt))
      | inr (k, e) ↦
          let same : earlier n (some k) ≡ m = ground (arith, rw e at taken) in
          let ih : Among k ms × All (Before k) ms = first-sort k ms e in
          first-sort_step m n k ms same ih.0 ih.1
    ]

Among-keep :
    (p : OfflineMessage → Bool) (m : OfflineMessage) (ms : List OfflineMessage)
    → Among m (keep p ms)
    → Among m ms × (p m ≡ true)
Among-keep p m [] a = elim a [ ]
Among-keep p m (n ∷ ms) a = elim (Bool-cases (p n)) [
  | inl q ↦ Among-keep_step p m n ms q (Among-keep p m ms) (rw q at a)
  | inr q ↦ let ih : Among m ms × (p m ≡ true) = Among-keep p m ms (rw q at a) in (there ih.0, ih.1)
]
  where
    Among-keep_step :
        (p : OfflineMessage → Bool) (m n : OfflineMessage) (ms : List OfflineMessage)
        → p n ≡ true
        → (Among m (keep p ms) → Among m ms × (p m ≡ true))
        → Among m (n ∷ keep p ms)
        → Among m (n ∷ ms) × (p m ≡ true)
    Among-keep_step p m n ms q f here = (here, q)
    Among-keep_step p m n ms q f (there a) =
        let r : Among m ms × (p m ≡ true) = f a in (there r.0, r.1)

pub next_lem :
    (now : ℕ) (condition : Condition) (m : OfflineMessage) (ms : List OfflineMessage)
    → next_active_offline_message now condition ms ≡ some m
    → Among m ms
      × (is_deliverable now condition m ≡ true)
      × All (Before m) (keep (is_deliverable now condition) ms)
unfolding next_active_offline_message
next_lem now condition m ms h =
    let r : Among m (keep (is_deliverable now condition) ms)
        × All (Before m) (keep (is_deliverable now condition) ms) =
      first-sort m (keep (is_deliverable now condition) ms) h in
    let s : Among m ms × (is_deliverable now condition m ≡ true) =
      Among-keep (is_deliverable now condition) m ms r.0 in
    (s.0, s.1, r.1)

-- What `claim_offline_message` has found of what it hands out.
pub claim-Before :
    (now : ℕ) (condition : Condition) (lease : ℕ) (id : String) (c d : Collection)
    (m : OfflineMessage)
    → claim_offline_message now condition lease id c ≡ (d, some m)
    → (n : OfflineMessage) × (m ≡ claim lease id n)
      × Among n c.rows
      × (is_deliverable now condition n ≡ true)
      × (is_leased now n.claimed_until ≡ false)
      × All (Before n) (keep (is_deliverable now condition) c.rows)
unfolding claim_offline_message claim_head
claim-Before now condition lease id c d m h =
    elim (Option-cases (next_active_offline_message now condition c.rows)) [
      | inl e ↦ absurd (ground (arith, rw (e, claim_offline_message, claim_head) at h))
      | inr (n, e) ↦ elim (Bool-cases (is_leased now n.claimed_until)) [
        | inl l ↦ absurd (ground (arith, rw (e, claim_offline_message, claim_head, l) at h))
        | inr l ↦
            let r : Among n c.rows
                × (is_deliverable now condition n ≡ true)
                × All (Before n) (keep (is_deliverable now condition) c.rows) =
              next_lem now condition n c.rows e in
            (n, ground (arith, rw (e, claim_offline_message, claim_head, l) at h), r.0, r.1, l, r.2)
      ]
    ]
