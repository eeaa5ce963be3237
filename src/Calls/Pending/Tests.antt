-- ===== src/Calls/Pending/Tests.antt =====
-- Signals of service/src/calls/pendingSignals.ts, held and drained at concrete times.
use k3ncrypt.Base.{ℕ, ◌≡◌, refl, List, [], ◌∷◌, ◌++◌}
use k3ncrypt.Calls.Pending.{pending_call_signal_window, trim, hold, ready, deliver_all, drain}
use k3ncrypt.Calls.Pending.History.{recent, in_turn, hold_all, drain-recent}

abbrev held : List (ℕ × ℕ)
held = (1, 10) ∷ (2, 20) ∷ (3, 40_010) ∷ (4, 40_020) ∷ []

abbrev record_value : List ℕ → ℕ → List ℕ
record_value seen value = seen ++ value ∷ []

drain_test :
    drain pending_call_signal_window 40_050 record_value [] (hold_all 3 [] held) ≡ (3 ∷ 4 ∷ [], [])
unfolding drain deliver_all ready hold_all hold trim
drain_test = refl

drain-recent_example :
    drain pending_call_signal_window 40_050 record_value [] (hold_all 3 [] held)
    ≡ (in_turn record_value [] (recent 3 pending_call_signal_window 40_050 held), [])
drain-recent_example = drain-recent 3 pending_call_signal_window 40_050 record_value [] held
