-- ===== src/Mailbox/Quota.antt =====
-- How many active messages one mailbox can hold.
use k3ncrypt.Base.{
  ℕ, ◌+◌, ◌≤◌, ◌<◌, ◌≡◌, inl, inr, String, string_eq, Bool, true, false, Option, some, List, [],
  ◌∷◌, ◌++◌, arith, eqb, keep, length, Bool-cases, Option-cases, if◌then◌else◌, leb,
}
use text.Mathlib.TextEquality.{eq_iff}
use k3ncrypt.Mailbox.{
  OfflineMessage, OfflineRejectionReason, Collection, Condition, is_deliverable, claim, change_row,
  terminal, remove_first, is_current, count_offline_messages, matches, rejected,
}
use k3ncrypt.Mailbox.Store.{Call, call, run, empty, of_mailbox, is_mailbox_full, mailbox_limit}
use k3ncrypt.Mailbox.Moves.{
  Move, stays, adds, adds_rejected, claims, rejects, removes, expires, appended, call-Move,
}

module _ (p : OfflineMessage → Bool) where
  unfoldable count : List OfflineMessage → ℕ
  count ms = length (keep p ms)

  count-append :
      (ms : List OfflineMessage) (n : OfflineMessage)
      → count (ms ++ n ∷ []) ≡ count ms + (if p n then 1 else 0)
  unfolding count
  count-append [] n = ground arith
  count-append (m ∷ ms) n = ground (arith, count-append ms n)

  count-change_row :
      (pk : ℕ) (g : OfflineMessage → OfflineMessage) (ms : List OfflineMessage)
      → ((m : OfflineMessage) → p (g m) ≡ true → p m ≡ true)
      → count (change_row pk g ms) ≤ count ms
  unfolding count change_row
  count-change_row pk g [] h = omega arith
  count-change_row pk g (m ∷ ms) h = elim (Bool-cases (eqb m.pk pk)) [
    | inl q ↦ rw q (ground (arith, h m))
    | inr q ↦ rw q (ground (arith, count-change_row pk g ms h))
  ]

  count-remove_first :
      (q : OfflineMessage → Bool) (ms rest : List OfflineMessage)
      → remove_first q ms ≡ some rest
      → count rest ≤ count ms
  unfolding count remove_first
  count-remove_first q [] rest e = absurd (ground (arith, e))
  count-remove_first q (m ∷ ms) rest e = elim (Option-cases (remove_first q ms)) [
    | inl n ↦ ground (arith, e, n)
    | inr (tail, n) ↦ ground (arith, e, n, count-remove_first q ms tail n)
  ]

  count-keep : (q : OfflineMessage → Bool) (ms : List OfflineMessage) → count (keep q ms) ≤ count ms
  unfolding count
  count-keep q [] = omega arith
  count-keep q (m ∷ ms) = ground (arith, count-keep q ms)

count-le :
    (p q : OfflineMessage → Bool) (ms : List OfflineMessage)
    → ((m : OfflineMessage) → p m ≡ true → q m ≡ true)
    → count p ms ≤ count q ms
unfolding count
count-le p q [] h = omega arith
count-le p q (m ∷ ms) h = ground (arith, h m, count-le p q ms h)

deliverable_earlier :
    (t now : ℕ) (condition : Condition) (m : OfflineMessage)
    → t ≤ now
    → is_deliverable now condition m ≡ true
    → is_deliverable t condition m ≡ true
unfolding is_deliverable
deliverable_earlier t now condition m h d = elim (Option-cases m.expires_at) [
  | inl e ↦ rw (e, is_deliverable) (rw (e, is_deliverable) at d)
  | inr (x, e) ↦ rw (e, is_deliverable) (ground (arith, h, rw (e, is_deliverable) at d))
]

-- Time alone only lowers the count.
pub count-later :
    (t now : ℕ) (condition : Condition) (c : Collection)
    → t ≤ now
    → count_offline_messages now condition c ≤ count_offline_messages t condition c
unfolding count_offline_messages count
count-later t now condition c h =
    count-le (is_deliverable now condition) (is_deliverable t condition) c.rows
      (λ m. deliverable_earlier t now condition m h)

deliverable_home :
    (now : ℕ) (channel mailbox : String) (m : OfflineMessage)
    → is_deliverable now (of_mailbox channel mailbox) m ≡ true
    → (m.channel ≡ channel) × (m.mailbox ≡ mailbox)
unfolding is_deliverable matches
deliverable_home now channel mailbox m d =
    ground (arith, d, eq_iff m.channel channel, eq_iff m.mailbox mailbox)

room_left : (n : ℕ) → leb mailbox_limit n ≡ false → n < mailbox_limit
room_left n h = ground (arith, h)

not_full :
    (now : ℕ) (m : OfflineMessage) (c : Collection)
    → is_mailbox_full now m c ≡ false
    → count (is_deliverable now (of_mailbox m.channel m.mailbox)) c.rows < mailbox_limit
unfolding is_mailbox_full count_offline_messages count
not_full now m c h =
    room_left (length (keep (is_deliverable now (of_mailbox m.channel m.mailbox)) c.rows)) h

module _ (now : ℕ) (channel mailbox : String) where
  abbrev P : OfflineMessage → Bool
  P = is_deliverable now (of_mailbox channel mailbox)

  appended-bounded :
      (c : Collection) (m : OfflineMessage)
      → is_mailbox_full now m c ≡ false
      → count P c.rows ≤ mailbox_limit
      → count P (appended c m).rows ≤ mailbox_limit
  appended-bounded c m f h = elim (Bool-cases (P (record m { pk = c.pk }))) [
    | inl q ↦
        let (a, b) = deliverable_home now channel mailbox (record m { pk = c.pk }) q in
        let full : count P c.rows < mailbox_limit = rw (a, b) at (not_full now m c f) in
        let added : count P (c.rows ++ record m { pk = c.pk } ∷ []) ≡ count P c.rows + 1 =
          rw q at (count-append P c.rows (record m { pk = c.pk })) in
        rw added (omega (arith, full))
    | inr q ↦
        let added : count P (c.rows ++ record m { pk = c.pk } ∷ []) ≡ count P c.rows + 0 =
          rw q at (count-append P c.rows (record m { pk = c.pk })) in
        rw added (omega (arith, h))
  ]

  rejected-bounded :
      (c : Collection) (m : OfflineMessage)
      → m.state ≡ rejected
      → count P (appended c m).rows ≡ count P c.rows
  unfolding is_deliverable
  rejected-bounded c m e =
      rw (count-append P c.rows (record m { pk = c.pk })) (rw (e, is_deliverable) (omega arith))

  claim_deliverable :
      (lease : ℕ) (id : String) (m : OfflineMessage) → P (claim lease id m) ≡ true → P m ≡ true
  unfolding is_deliverable matches
  claim_deliverable lease id m h = h

  terminal_deliverable :
      (reason : OfflineRejectionReason) (at : ℕ) (id : Option String) (m : OfflineMessage)
      → P (terminal reason at id m) ≡ true
      → P m ≡ true
  unfolding is_deliverable
  terminal_deliverable reason at id m h = cc

  Move-bounded :
      (c d : Collection)
      → Move now c d
      → count P c.rows ≤ mailbox_limit
      → count P d.rows ≤ mailbox_limit
  Move-bounded c d stays h = h
  Move-bounded c d (adds m e f) h = appended-bounded c m f h
  Move-bounded c d (adds_rejected m e r) h = rw (rejected-bounded c m r) h
  Move-bounded c d (claims m condition lease id e l) h =
      omega (arith, h, count-change_row P m.pk (claim lease id) c.rows (claim_deliverable lease id))
  Move-bounded c d (rejects pk reason id) h = omega (
    arith,
    h,
    count-change_row P pk (terminal reason now id) c.rows (terminal_deliverable reason now id),
  )
  Move-bounded c d (removes q rest e) h = omega (arith, h, count-remove_first P q c.rows rest e)
  Move-bounded c d expires h =
      omega (arith, h, count-keep P (λ m. is_current now m.expires_at) c.rows)

-- The calls are in the order of time, from `t` on.
abbrev pub Ordered : ℕ → List (ℕ × Call) → Type 0
Ordered t [] = Unit
Ordered t ((now, e) ∷ es) = (t ≤ now) × Ordered now es

abbrev pub last_time : ℕ → List (ℕ × Call) → ℕ
last_time t [] = t
last_time t ((now, e) ∷ es) = last_time now es

run-bounded :
    (channel mailbox : String) (t : ℕ) (es : List (ℕ × Call)) (c : Collection)
    → Ordered t es
    → count_offline_messages t (of_mailbox channel mailbox) c ≤ mailbox_limit
    → count_offline_messages (last_time t es) (of_mailbox channel mailbox) (run es c)
      ≤ mailbox_limit
unfolding run
run-bounded channel mailbox t [] c o h = h
run-bounded channel mailbox t ((now, e) ∷ es) c o h =
    let k : count_offline_messages now (of_mailbox channel mailbox) c ≤ mailbox_limit =
      omega (arith, h, count-later t now (of_mailbox channel mailbox) c o.0) in
    run-bounded channel mailbox now es (call now e c) o.1 (
      unfold count_offline_messages count in
      Move-bounded now channel mailbox c (call now e c) (call-Move now e c) k)

-- After any history of calls in the order of time that starts with no messages, no mailbox of any
-- channel has more than `mailbox_limit` active unexpired messages, at the time of the last call and
-- at any time after it.
pub count_offline_messages-run :
    (channel mailbox : String) (es : List (ℕ × Call)) (now : ℕ)
    → Ordered 0 es
    → last_time 0 es ≤ now
    → count_offline_messages now (of_mailbox channel mailbox) (run es empty) ≤ mailbox_limit
count_offline_messages-run channel mailbox es now o l =
    let start : count_offline_messages 0 (of_mailbox channel mailbox) empty ≤ mailbox_limit =
      unfold count_offline_messages in omega arith in
    let k : count_offline_messages (last_time 0 es) (of_mailbox channel mailbox) (run es empty)
        ≤ mailbox_limit =
      run-bounded channel mailbox 0 es empty o start in
    omega (arith, k, count-later (last_time 0 es) now (of_mailbox channel mailbox) (run es empty) l)
