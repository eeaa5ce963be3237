-- ===== src/Guard/Window.antt =====
-- service/src/utils/replayGuard.ts: what is accepted, and how much is remembered.
use k3ncrypt.Base.{
  ℕ, ◌+◌, ◌≤◌, ◌<◌, ◌≡◌, ◌↔◌, refl, inl, inr, max, String, string_eq, nat_eq, true, false, not,
  Option, none, some, List, [], ◌∷◌, ltb, keep, includes, add, arith, All, All-append, All-map,
  length, Bool-cases, Option-cases, ◌-◌, ◌==◌,
}
use k3ncrypt.Base.Dict.{get, put, get-put}
use k3ncrypt.Base.Distinct.{Distinct, keep-Distinct, add-Distinct, length-Distinct-le}
use k3ncrypt.Guard.{
  ReplayWindow, ReplayGuard, max_safe_integer, unusable, replayed, slide, accept_in, accept,
}

-- What a usable number has to be for a context: not seen, and above the lower end of the window.
abbrev pub Fresh : ReplayGuard → Option ReplayWindow → ℕ → Type 0
Fresh g none seq = Unit
Fresh g (some w) seq = (includes w.seen seq ≡ false) × (w.highest < seq + g.window_size)

-- A number is accepted exactly when it is a positive safe integer and the context is new, or the
-- number was not seen and is above the highest less the window's size. Numbers below the highest
-- are accepted, in any order.
pub accept_iff :
    (g : ReplayGuard) (context : String) (seq : ℕ)
    → ((accept g context seq).1 ≡ true)
      ↔ ((1 ≤ seq) × (seq ≤ max_safe_integer) × Fresh g (get context g.windows) seq)
unfolding accept accept_in unusable replayed
accept_iff g context seq = elim (Option-cases (get context g.windows)) [
  | inl missing ↦ rw (missing, accept) (ground arith)
  | inr (w, held) ↦ rw (held, accept) (ground arith)
]

-- The numbers of a window are distinct and lie within its size of the highest.
pub record Fits (size : ℕ) (w : ReplayWindow) : Type 0 where
  pub distinct : Distinct w.seen
  pub within : All (λ n. (n ≤ w.highest) × (w.highest < n + size)) w.seen

slide_within :
    (size seq top : ℕ) (xs : List ℕ)
    → All (λ n. n ≤ top) xs
    → All (λ n. (n ≤ top) × (top < n + size)) (keep (λ n. not (ltb (n + size) (top + 1))) xs)
slide_within size seq top [] h = tt
slide_within size seq top (x ∷ xs) h = ground (arith, slide_within size seq top xs h.1)

add_below :
    (seq highest size : ℕ) (xs : List ℕ)
    → All (λ n. (n ≤ highest) × (highest < n + size)) xs
    → All (λ n. n ≤ max highest seq) (add xs seq)
add_below seq highest size xs h =
    let below = All-map _ (λ n. n ≤ max highest seq) xs (λ n b. omega (arith, b.0)) h in
    elim (Bool-cases (includes xs seq)) [
      | inl old ↦ rw old below
      | inr new ↦
          rw new (All-append (λ n. n ≤ max highest seq) xs (seq ∷ []) below (omega arith, tt))
    ]

slide-Fits : (size seq : ℕ) (w : ReplayWindow) → Fits size w → Fits size (slide size w seq)
unfolding slide
slide-Fits size seq w f = record {
  distinct = keep-Distinct _ (add w.seen seq) (add-Distinct w.seen seq f.distinct);
  within =
      slide_within size seq (max w.highest seq) (add w.seen seq)
        (add_below seq w.highest size w.seen f.within);
}

-- Every window of the guard fits.
abbrev pub IsValid : ReplayGuard → Type 0
IsValid g =
    (context : String) (w : ReplayWindow) → get context g.windows ≡ some w → Fits g.window_size w

first-Fits : (size seq : ℕ) → 1 ≤ size → Fits size (record { highest = seq; seen = seq ∷ [] })
first-Fits size seq h = record { distinct = (refl, tt); within = omega arith }

-- Storing a window that fits keeps every window fitting.
put-IsValid :
    (g : ReplayGuard) (context : String) (w : ReplayWindow)
    → Fits g.window_size w
    → IsValid g
    → IsValid (record g { windows = put context w g.windows })
put-IsValid g context w f v c u held = elim (Bool-cases (context == c)) [
  | inl here ↦
      let same : u ≡ w = ground (arith, get-put context c w g.windows, here, held) in rw same f
  | inr other ↦ v c u (ground (arith, get-put context c w g.windows, other, held))
]

accept_in-IsValid :
    (g : ReplayGuard) (context : String) (seq : ℕ) (o : Option ReplayWindow)
    → 1 ≤ g.window_size
    → get context g.windows ≡ o
    → IsValid g
    → IsValid (accept_in g context seq o).0
unfolding accept_in
accept_in-IsValid g context seq none size found v =
    put-IsValid g context _ (first-Fits g.window_size seq size) v
accept_in-IsValid g context seq (some w) size found v =
    elim (Bool-cases (replayed g.window_size w seq)) [
      | inl old ↦ rw old v
      | inr fresh ↦
          rw fresh (put-IsValid g context _ (slide-Fits g.window_size seq w (v context w found)) v)
    ]

-- Every message leaves every window with distinct numbers, all within the window's size of its
-- highest.
pub accept-IsValid :
    (g : ReplayGuard) (context : String) (seq : ℕ)
    → 1 ≤ g.window_size
    → IsValid g
    → IsValid (accept g context seq).0
unfolding accept
accept-IsValid g context seq size v = elim (Bool-cases (unusable seq)) [
  | inl bad ↦ rw bad v
  | inr fine ↦ rw fine (accept_in-IsValid g context seq (get context g.windows) size refl v)
]

-- So no window remembers more numbers than its size.
pub length-seen-le :
    (g : ReplayGuard) (context : String) (w : ReplayWindow)
    → IsValid g
    → get context g.windows ≡ some w
    → length w.seen ≤ g.window_size
length-seen-le g context w v held =
    let f = v context w held in
    length-Distinct-le (w.highest + 1 - g.window_size) g.window_size w.seen f.distinct
      (All-map _ _ w.seen (λ n b. (omega (arith, b.0, b.1), omega (arith, b.0, b.1))) f.within)
