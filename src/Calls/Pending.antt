-- ===== src/Calls/Pending.antt =====
-- service/src/calls/pendingSignals.ts: signals that wait for a receiver. `deliver` is the receiver,
-- a function on the state that it changes; what it throws is swallowed.
pub mod History
mod Tests
use k3ncrypt.Base.{ℕ, ◌+◌, ◌-◌, List, [], ◌∷◌, ◌++◌, ltb, leb, if◌then◌else◌, length, drop, keep}

abbrev pub pending_call_signal_window : ℕ
pending_call_signal_window = 30_000

module _ {ℓ} {T : Type ℓ} where
  -- Only the newest `limit` items stay.
  pub trim : ℕ → List (T × ℕ) → List (T × ℕ)
  trim limit items = if ltb limit (length items) then drop (length items - limit) items else items

  pub hold : ℕ → T → ℕ → List (T × ℕ) → List (T × ℕ)
  hold limit value now items = trim limit (items ++ (value, now) ∷ [])

  -- `at >= now - window`, with the subtraction moved across.
  pub ready : ℕ → ℕ → List (T × ℕ) → List (T × ℕ)
  ready window now items = keep (λ item. leb now (item.1 + window)) items

  pub deliver_all {κ} : {S : Type κ} → (S → T → S) → S → List (T × ℕ) → S
  deliver_all deliver s [] = s
  deliver_all deliver s ((value, at) ∷ items) = deliver_all deliver (deliver s value) items

  -- The state after the deliveries, and the items that are left.
  pub drain {κ} : {S : Type κ} → ℕ → ℕ → (S → T → S) → S → List (T × ℕ) → S × List (T × ℕ)
  drain window now deliver s items = (deliver_all deliver s (ready window now items), [])
