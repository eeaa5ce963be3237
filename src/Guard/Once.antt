-- ===== src/Guard/Once.antt =====
-- service/src/utils/replayGuard.ts: no number is accepted twice for a context.
use k3ncrypt.Base.{
  ℕ, ◌+◌, ◌≡◌, refl, inl, inr, max, String, string_eq, nat_eq, Bool, true, false, not, Option, none,
  some, List, [], ◌∷◌, ltb, add, arith, All, ◌==◌, Bool-cases,
}
use k3ncrypt.Base.Distinct.{includes-add, includes-keep}
use k3ncrypt.Base.Dict.{get, get-put, get-put_self}
use text.Mathlib.TextEquality.{eq_iff}
use k3ncrypt.Guard.{ReplayWindow, ReplayGuard, unusable, replayed, slide, accept_in, accept}

-- A number stays replayed while the window slides.
slide-replayed :
    (size seq n : ℕ) (w : ReplayWindow)
    → replayed size w n ≡ true
    → replayed size (slide size w seq) n ≡ true
unfolding replayed slide
slide-replayed size seq n w h = ground (
  arith,
  includes-keep (λ k. not (ltb (k + size) (max w.highest seq + 1))) (add w.seen seq) n,
  includes-add n w.seen seq,
)

slide-replayed_self :
    (size seq : ℕ) (w : ReplayWindow) → replayed size (slide size w seq) seq ≡ true
unfolding replayed slide
slide-replayed_self size seq w = ground (
  arith,
  includes-keep (λ k. not (ltb (k + size) (max w.highest seq + 1))) (add w.seen seq) seq,
  includes-add seq w.seen seq,
)

first_replayed :
    (size seq : ℕ) → replayed size (record { highest = seq; seen = seq ∷ [] }) seq ≡ true
unfolding replayed
first_replayed size seq = ground arith

-- The guard refuses `n` for `context` from here on.
abbrev pub Used : String → ℕ → ReplayGuard → Type 0
Used context n g =
    (w : ReplayWindow) × (get context g.windows ≡ some w) × (replayed g.window_size w n ≡ true)

accept_in-Used :
    (g : ReplayGuard) (c context : String) (seq n : ℕ) (o : Option ReplayWindow)
    → get c g.windows ≡ o
    → Used context n g
    → Used context n (accept_in g c seq o).0
unfolding accept_in
accept_in-Used g c context seq n none miss (w, held, used) = (
  w,
  ground (
    arith,
    get-put c context (record { highest = seq; seen = seq ∷ [] }) g.windows,
    eq_iff c context,
    miss,
    held,
  ),
  used,
)
accept_in-Used g c context seq n (some v) hit (w, held, used) =
    elim (Bool-cases (replayed g.window_size v seq)) [
      | inl refused ↦ rw refused (w, held, used)
      | inr fresh ↦ elim (Bool-cases (c == context)) [
        | inl here ↦
            let same : v ≡ w = ground (arith, eq_iff c context, here, hit, held) in
            rw fresh (
              slide g.window_size v seq,
              rw (get-put c context (slide g.window_size v seq) g.windows, here),
              rw same (slide-replayed g.window_size seq n w used),
            )
        | inr other ↦
            rw fresh
              (w, rw (get-put c context (slide g.window_size v seq) g.windows, other) held, used)
      ]
    ]

accept-Used :
    (g : ReplayGuard) (c context : String) (seq n : ℕ)
    → Used context n g
    → Used context n (accept g c seq).0
unfolding accept
accept-Used g c context seq n u = elim (Bool-cases (unusable seq)) [
  | inl bad ↦ rw bad u
  | inr fine ↦ rw fine (accept_in-Used g c context seq n (get c g.windows) refl u)
]

accepted_in-Used :
    (g : ReplayGuard) (context : String) (seq : ℕ) (o : Option ReplayWindow)
    → (accept_in g context seq o).1 ≡ true
    → Used context seq (accept_in g context seq o).0
unfolding accept_in
accepted_in-Used g context seq none h = (
  record { highest = seq; seen = seq ∷ [] },
  get-put_self context _ g.windows,
  first_replayed g.window_size seq,
)
accepted_in-Used g context seq (some v) h = elim (Bool-cases (replayed g.window_size v seq)) [
  | inl old ↦ cc (rw old at h)
  | inr fresh ↦ rw fresh (
    slide g.window_size v seq,
    get-put_self context _ g.windows,
    slide-replayed_self g.window_size seq v,
  )
]

-- What is accepted is used.
accepted-Used :
    (g : ReplayGuard) (context : String) (seq : ℕ)
    → (accept g context seq).1 ≡ true
    → Used context seq (accept g context seq).0
unfolding accept
accepted-Used g context seq h = elim (Bool-cases (unusable seq)) [
  | inl bad ↦ cc (rw bad at h)
  | inr fine ↦ rw fine (accepted_in-Used g context seq (get context g.windows) (rw fine at h))
]

Used-refused :
    (g : ReplayGuard) (context : String) (n : ℕ) → Used context n g → (accept g context n).1 ≡ false
unfolding accept accept_in
Used-refused g context n (w, held, used) = ground (arith, held, used)

-- The answers to a history of messages, each with its context.
unfoldable pub answers : ReplayGuard → List (String × ℕ) → List ((String × ℕ) × Bool)
answers g [] = []
answers g ((c, n) ∷ log) = let (g', answer) = accept g c n in ((c, n), answer) ∷ answers g' log

-- A list of answers refuses `n` for `context` at every place.
abbrev pub Refused : String → ℕ → List ((String × ℕ) × Bool) → Type 0
Refused context n = All (λ a. (a.0).0 ≡ context → (a.0).1 ≡ n → a.1 ≡ false)

Used-Refused :
    (g : ReplayGuard) (context : String) (n : ℕ) (log : List (String × ℕ))
    → Used context n g
    → Refused context n (answers g log)
unfolding answers
Used-Refused g context n [] u = tt
Used-Refused g context n ((c, k) ∷ log) u = (
  λ same_context same_number. rw (same_context, same_number) (Used-refused g context n u),
  Used-Refused (accept g c k).0 context n log (accept-Used g c context k n u),
)

-- A sequence number that has been accepted for a context is refused for that context in every later
-- history of messages, of any contexts and numbers, however far the window has moved.
pub accepted_at_most_once :
    (g : ReplayGuard) (context : String) (n : ℕ) (log : List (String × ℕ))
    → (accept g context n).1 ≡ true
    → Refused context n (answers (accept g context n).0 log)
accepted_at_most_once g context n log h =
    Used-Refused (accept g context n).0 context n log (accepted-Used g context n h)
