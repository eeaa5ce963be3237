-- ===== src/Guard.antt =====
-- service/src/utils/replayGuard.ts: the sequence numbers seen for each context, within a window
-- under the highest. The set of numbers is a list in insertion order.
pub mod Once
pub mod Window
mod Tests
use k3ncrypt.Base.{
  ℕ, ◌+◌, max, String, string_eq, nat_eq, Bool, true, false, not, ◌||◌, Option, none, some, List,
  [], ◌∷◌, ltb, leb, if◌then◌else◌, keep, includes, add,
}
use k3ncrypt.Base.Dict.{Dict, get, put, delete}

pub record ReplayWindow : Type 0 where
  pub highest : ℕ
  pub seen : List ℕ

pub record ReplayGuard : Type 0 where
  pub windows : Dict String ReplayWindow
  pub window_size : ℕ

abbrev pub max_safe_integer : ℕ
max_safe_integer = 9_007_199_254_740_991

-- `!Number.isSafeInteger(seq) || seq < 1`, of a natural number.
pub unusable : ℕ → Bool
unusable seq = ltb max_safe_integer seq || ltb seq 1

-- `seen.has(seq) || seq <= highest - windowSize`, with the subtraction moved across.
pub replayed : ℕ → ReplayWindow → ℕ → Bool
replayed size w seq = includes w.seen seq || leb (seq + size) w.highest

-- `add`, the new highest, and the removal of what lies below `highest - windowSize + 1`.
pub slide : ℕ → ReplayWindow → ℕ → ReplayWindow
slide size w seq =
    let top = max w.highest seq in
    record { highest = top; seen = keep (λ n. not (ltb (n + size) (top + 1))) (add w.seen seq) }

-- `accept` below the first return, on what the map holds for the context.
pub accept_in : ReplayGuard → String → ℕ → Option ReplayWindow → ReplayGuard × Bool
accept_in g context seq none =
    (record g { windows = put context (record { highest = seq; seen = seq ∷ [] }) g.windows }, true)
accept_in g context seq (some w) =
    if replayed g.window_size w seq
    then (g, false)
    else (record g { windows = put context (slide g.window_size w seq) g.windows }, true)

pub accept : ReplayGuard → String → ℕ → ReplayGuard × Bool
accept g context seq =
    if unusable seq then (g, false) else accept_in g context seq (get context g.windows)

pub reset : ReplayGuard → String → ReplayGuard
reset g context = record g { windows = delete context g.windows }

pub clear : ReplayGuard → ReplayGuard
clear g = record g { windows = [] }
