-- ===== src/Guard/Tests.antt =====
-- Messages of service/src/utils/replayGuard.ts at concrete guards.
use k3ncrypt.Base.{
  ℕ, ◌≡◌, ◌≤◌, ◌↔◌, refl, true, false, String, string_eq, List, [], ◌∷◌, map, arith, length,
}
use k3ncrypt.Base.Dict.{get, put}
use k3ncrypt.Guard.{
  ReplayGuard, ReplayWindow, max_safe_integer, unusable, replayed, slide, accept_in, accept,
}
use k3ncrypt.Guard.Once.{answers, Refused, accepted_at_most_once}
use k3ncrypt.Guard.Window.{Fresh, IsValid, accept_iff, accept-IsValid, length-seen-le}

guarded : Unit {0}
unfolding get put unusable replayed slide accept_in accept
guarded = tt

abbrev fresh_guard : ReplayGuard
fresh_guard = record { windows = []; window_size = 4 }

abbrev later : List (String × ℕ)
later = ("chat", 9) ∷ ("chat", 5) ∷ ("call", 5) ∷ ("chat", 5) ∷ []

out_of_order :
    map
      (λ a. a.1)
      (answers fresh_guard
        (("chat", 5) ∷ ("chat", 3) ∷ ("chat", 3) ∷ ("chat", 9) ∷ ("chat", 4) ∷ ("chat", 0) ∷ []))
    ≡ true ∷ true ∷ false ∷ true ∷ false ∷ false ∷ []
unfolding guarded answers
out_of_order = refl

fresh_guard-IsValid : IsValid fresh_guard
unfolding get
fresh_guard-IsValid context w held = cc

accepted_at_most_once_example : Refused "chat" 5 (answers (accept fresh_guard "chat" 5).0 later)
unfolding guarded
accepted_at_most_once_example = accepted_at_most_once fresh_guard "chat" 5 later refl

accept_iff_example :
    ((accept fresh_guard "chat" 5).1 ≡ true)
    ↔ ((1 ≤ 5) × (5 ≤ max_safe_integer) × Fresh fresh_guard (get "chat" fresh_guard.windows) 5)
accept_iff_example = accept_iff fresh_guard "chat" 5

abbrev one_window : ReplayWindow
one_window = record { highest = 5; seen = 5 ∷ [] }

length-seen-le_example : length one_window.seen ≤ 4
unfolding guarded
length-seen-le_example =
    length-seen-le (accept fresh_guard "chat" 5).0 "chat" one_window
      (accept-IsValid fresh_guard "chat" 5 (omega arith) fresh_guard-IsValid) refl
