-- ===== src/Mailbox/Keys.antt =====
-- No two messages of a collection share their `pk` or their key, over every history.
use k3ncrypt.Base.{
  ℕ, ◌+◌, ◌<◌, ◌≡◌, refl, sym, inl, inr, String, string_eq, nat_eq, Eq, ◌==◌, Bool, false, none,
  some, List, [], ◌∷◌, ◌++◌, arith, eqb, eqb_iff, find, any, keep, All, All-append, All-keep,
  All-map, Bool-cases, Option-cases, ◌||◌,
}
use k3ncrypt.Mailbox.{
  OfflineMessage, Collection, with_key, claim, change_row, terminal, remove_first, is_current,
}
use k3ncrypt.Mailbox.Store.{Call, call, run}
use k3ncrypt.Mailbox.Moves.{
  Move, stays, adds, adds_rejected, claims, rejects, removes, expires, appended, with_rows,
  call-Move,
}

-- What all rows have in common, whatever the operation does to one of them.
module _ {κ} (P : OfflineMessage → Type κ) where
  pub All-change_row :
      (pk : ℕ) (f : OfflineMessage → OfflineMessage) (ms : List OfflineMessage)
      → ((m : OfflineMessage) → m.pk ≡ pk → P m → P (f m))
      → All P ms
      → All P (change_row pk f ms)
  unfolding change_row
  All-change_row pk f [] g h = tt
  All-change_row pk f (m ∷ ms) g h = elim (Bool-cases (eqb m.pk pk)) [
    | inl e ↦ rw e (g m ((eqb_iff m.pk pk).0 e) h.0, h.1)
    | inr e ↦ rw e (h.0, All-change_row pk f ms g h.1)
  ]

  pub All-remove_first :
      (p : OfflineMessage → Bool) (ms rest : List OfflineMessage)
      → remove_first p ms ≡ some rest
      → All P ms
      → All P rest
  unfolding remove_first
  All-remove_first p [] rest e h = absurd (ground (arith, e))
  All-remove_first p (m ∷ ms) rest e h = elim (Bool-cases (p m)) [
    | inl q ↦ ground (arith, e, q, h)
    | inr q ↦ elim (Option-cases (remove_first p ms)) [
      | inl n ↦ absurd (ground (arith, e, q, n))
      | inr (tail, n) ↦
          let k : All P tail = All-remove_first p ms tail n h.1 in
          let l : m ∷ tail ≡ rest = ground (arith, e, q, n) in rw (sym l) (h.0, k)
    ]
  ]

module _ {κ} {K : Type κ} ⦃e : Eq K⦄ (f : OfflineMessage → K) where
  abbrev pub Fresh : K → List OfflineMessage → Type 0
  Fresh k ms = any (λ m. f m == k) ms ≡ false

  abbrev pub Different : List OfflineMessage → Type 0
  Different [] = Unit
  Different (m ∷ ms) = Fresh (f m) ms × Different ms

  Fresh-append :
      (k : K) (ms : List OfflineMessage) (n : OfflineMessage)
      → any (λ m. f m == k) (ms ++ n ∷ []) ≡ (any (λ m. f m == k) ms || f n == k)
  Fresh-append k [] n = ground arith
  Fresh-append k (m ∷ ms) n = ground (arith, Fresh-append k ms n)

  Different-append :
      (ms : List OfflineMessage) (n : OfflineMessage)
      → Fresh (f n) ms
      → Different ms
      → Different (ms ++ n ∷ [])
  Different-append [] n g d = (refl, tt)
  Different-append (m ∷ ms) n g d = ground (
    arith,
    Different-append ms n,
    Fresh-append (f m) ms n,
    e.same_iff (f m) (f n),
    e.same_iff (f n) (f m),
  )

  Fresh-keep :
      (p : OfflineMessage → Bool) (k : K) (ms : List OfflineMessage)
      → Fresh k ms
      → Fresh k (keep p ms)
  Fresh-keep p k [] g = refl
  Fresh-keep p k (m ∷ ms) g = ground (arith, Fresh-keep p k ms)

  Different-keep :
      (p : OfflineMessage → Bool) (ms : List OfflineMessage) → Different ms → Different (keep p ms)
  Different-keep p [] d = tt
  Different-keep p (m ∷ ms) d = ground (arith, Different-keep p ms d.1, Fresh-keep p (f m) ms d.0)

  Fresh-remove_first :
      (p : OfflineMessage → Bool) (k : K) (ms rest : List OfflineMessage)
      → remove_first p ms ≡ some rest
      → Fresh k ms
      → Fresh k rest
  unfolding remove_first
  Fresh-remove_first p k [] rest e g = absurd (ground (arith, e))
  Fresh-remove_first p k (m ∷ ms) rest e g = elim (Option-cases (remove_first p ms)) [
    | inl n ↦ ground (arith, e, n, g)
    | inr (tail, n) ↦ ground (arith, e, n, g, Fresh-remove_first p k ms tail n)
  ]

  Different-remove_first :
      (p : OfflineMessage → Bool) (ms rest : List OfflineMessage)
      → remove_first p ms ≡ some rest
      → Different ms
      → Different rest
  unfolding remove_first
  Different-remove_first p [] rest e d = absurd (ground (arith, e))
  Different-remove_first p (m ∷ ms) rest e d = elim (Option-cases (remove_first p ms)) [
    | inl n ↦ ground (arith, e, n, d)
    | inr (tail, n) ↦ ground (
      arith,
      e,
      n,
      d,
      Different-remove_first p ms tail n d.1,
      Fresh-remove_first p (f m) ms tail n d.0,
    )
  ]

  Fresh-change_row :
      (pk : ℕ) (g : OfflineMessage → OfflineMessage) (k : K) (ms : List OfflineMessage)
      → ((m : OfflineMessage) → f (g m) ≡ f m)
      → Fresh k ms
      → Fresh k (change_row pk g ms)
  unfolding change_row
  Fresh-change_row pk g k [] h d = refl
  Fresh-change_row pk g k (m ∷ ms) h d = elim (Bool-cases (eqb m.pk pk)) [
    | inl q ↦ rw (q, h m) d
    | inr q ↦ rw q (ground (arith, d, Fresh-change_row pk g k ms h))
  ]

  Different-change_row :
      (pk : ℕ) (g : OfflineMessage → OfflineMessage) (ms : List OfflineMessage)
      → ((m : OfflineMessage) → f (g m) ≡ f m)
      → Different ms
      → Different (change_row pk g ms)
  unfolding change_row
  Different-change_row pk g [] h d = tt
  Different-change_row pk g (m ∷ ms) h d = elim (Bool-cases (eqb m.pk pk)) [
    | inl q ↦ rw (q, h m) d
    | inr q ↦ rw q (Fresh-change_row pk g (f m) ms h d.0, Different-change_row pk g ms h d.1)
  ]

abbrev Below : ℕ → OfflineMessage → Type 0
Below n m = m.pk < n

-- The rows are told apart by `pk`, the next `pk` is new, and no key stands twice.
pub record IsKeyed (c : Collection) : Type 0 where
  pub below : All (Below c.pk) c.rows
  pub pks : Different (λ m. m.pk) c.rows
  pub keys : Different (λ m. m.dedupe_key) c.rows

Fresh-Below : (n : ℕ) (ms : List OfflineMessage) → All (Below n) ms → Fresh (λ m. m.pk) n ms
Fresh-Below n [] h = refl
Fresh-Below n (m ∷ ms) h = ground (arith, Fresh-Below n ms h.1, eqb_iff m.pk n)

Fresh-key :
    (k : String) (ms : List OfflineMessage)
    → find (with_key k) ms ≡ none
    → Fresh (λ m. m.dedupe_key) k ms
Fresh-key k [] h = refl
Fresh-key k (m ∷ ms) h = ground (arith, Fresh-key k ms)

appended-IsKeyed :
    (c : Collection) (m : OfflineMessage)
    → find (with_key m.dedupe_key) c.rows ≡ none
    → IsKeyed c
    → IsKeyed (appended c m)
appended-IsKeyed c m e k = record {
  below =
      All-append (Below (c.pk + 1)) c.rows (record m { pk = c.pk } ∷ [])
        (All-map (Below c.pk) (Below (c.pk + 1)) c.rows (λ n h. omega arith) k.below)
        (omega arith, tt);
  pks =
      Different-append (λ m. m.pk) c.rows (record m { pk = c.pk }) (Fresh-Below c.pk c.rows k.below)
        k.pks;
  keys =
      Different-append (λ m. m.dedupe_key) c.rows (record m { pk = c.pk })
        (Fresh-key m.dedupe_key c.rows e) k.keys;
}

changed-IsKeyed :
    (c : Collection) (pk : ℕ) (g : OfflineMessage → OfflineMessage)
    → ((m : OfflineMessage) → (g m).pk ≡ m.pk)
    → ((m : OfflineMessage) → (g m).dedupe_key ≡ m.dedupe_key)
    → IsKeyed c
    → IsKeyed (with_rows c (change_row pk g c.rows))
changed-IsKeyed c pk g a b k = record {
  below = All-change_row (Below c.pk) pk g c.rows (λ m e h. rw (a m) h) k.below;
  pks = Different-change_row (λ m. m.pk) pk g c.rows a k.pks;
  keys = Different-change_row (λ m. m.dedupe_key) pk g c.rows b k.keys;
}

pub Move-IsKeyed : {now : ℕ} (c d : Collection) → Move now c d → IsKeyed c → IsKeyed d
Move-IsKeyed c d stays k = k
Move-IsKeyed c d (adds m e q) k = appended-IsKeyed c m e k
Move-IsKeyed c d (adds_rejected m e q) k = appended-IsKeyed c m e k
Move-IsKeyed c d (claims m condition lease id e l) k =
    changed-IsKeyed c m.pk (claim lease id) (λ n. refl) (λ n. refl) k
Move-IsKeyed {now} c d (rejects pk reason id) k =
    changed-IsKeyed c pk (terminal reason now id) (λ n. refl) (λ n. refl) k
Move-IsKeyed c d (removes p rest e) k = record {
  below = All-remove_first (Below c.pk) p c.rows rest e k.below;
  pks = Different-remove_first (λ m. m.pk) p c.rows rest e k.pks;
  keys = Different-remove_first (λ m. m.dedupe_key) p c.rows rest e k.keys;
}
Move-IsKeyed {now} c d expires k = record {
  below = All-keep (Below c.pk) (λ m. is_current now m.expires_at) c.rows k.below;
  pks = Different-keep (λ m. m.pk) (λ m. is_current now m.expires_at) c.rows k.pks;
  keys = Different-keep (λ m. m.dedupe_key) (λ m. is_current now m.expires_at) c.rows k.keys;
}

pub run-IsKeyed : (es : List (ℕ × Call)) (c : Collection) → IsKeyed c → IsKeyed (run es c)
unfolding run
run-IsKeyed [] c k = k
run-IsKeyed ((now, e) ∷ es) c k =
    run-IsKeyed es (call now e c) (Move-IsKeyed c (call now e c) (call-Move now e c) k)
