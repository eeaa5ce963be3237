-- ===== src/Calls/Pending/History.antt =====
-- What service/src/calls/pendingSignals.ts delivers, told by the history of the signals held.
use k3ncrypt.Base.{
  ℕ, ◌+◌, ◌-◌, ◌≤◌, ◌≡◌, refl, ap, sym, ◌∙◌, zero, suc, List, [], ◌∷◌, ◌++◌, arith, length, drop,
  length-append, length-drop, ltb, leb, ◌&&◌, if◌then◌else◌, map, inl, inr, Bool-cases,
}
use mathlib.Core.List.{append-nil, append_assoc}
use k3ncrypt.Calls.Pending.{trim, hold, ready, deliver_all, drain}

module _ {ℓ} {A : Type ℓ} where
  drop-append : (n : ℕ) (xs ys : List A) → n ≤ length xs → drop n (xs ++ ys) ≡ drop n xs ++ ys
  drop-append zero xs ys h = refl
  drop-append (suc n) [] ys h = absurd (omega arith)
  drop-append (suc n) (x ∷ xs) ys h = drop-append n xs ys (omega arith)

  drop-nil : (n : ℕ) → drop {A = A} n [] ≡ []
  drop-nil zero = refl
  drop-nil (suc n) = refl

  drop-drop : (m n : ℕ) (xs : List A) → drop m (drop n xs) ≡ drop (n + m) xs
  drop-drop m zero xs = ap (λ k. drop k xs) (omega arith)
  drop-drop m (suc n) [] = drop-nil m ∙ sym (drop-nil (suc n + m))
  drop-drop m (suc n) (x ∷ xs) =
      let e : suc n + m ≡ suc (n + m) = omega arith in rw e (drop-drop m n xs)

module _ {ℓ} {T : Type ℓ} where
  -- The newest `limit` items of a history.
  abbrev pub newest : ℕ → List (T × ℕ) → List (T × ℕ)
  newest limit history = drop (length history - limit) history

  unfoldable pub hold_all : ℕ → List (T × ℕ) → List (T × ℕ) → List (T × ℕ)
  hold_all limit items [] = items
  hold_all limit items ((value, at) ∷ history) = hold_all limit (hold limit value at items) history

  trim-newest : (limit : ℕ) (items : List (T × ℕ)) → trim limit items ≡ newest limit items
  unfolding trim
  trim-newest limit items = ground arith

  hold-newest :
      (limit : ℕ) (value : T) (now : ℕ) (history : List (T × ℕ))
      → hold limit value now (newest limit history) ≡ newest limit (history ++ (value, now) ∷ [])
  unfolding hold
  hold-newest limit value now history =
      let k : ℕ = length history - limit in
      let grown : List (T × ℕ) = history ++ (value, now) ∷ [] in
      let shift : drop k history ++ (value, now) ∷ [] ≡ drop k grown =
        sym (drop-append k history _ (omega arith)) in
      let count : k + (length (drop k grown) - limit) ≡ length grown - limit =
        omega (arith, length-drop k grown, length-append history ((value, now) ∷ [])) in
      trim-newest limit (drop k history ++ (value, now) ∷ [])
      ∙ ap (newest limit) shift
      ∙ drop-drop (length (drop k grown) - limit) k grown
      ∙ ap (λ n. drop n grown) count

  hold_all-newest :
      (limit : ℕ) (before history : List (T × ℕ))
      → hold_all limit (newest limit before) history ≡ newest limit (before ++ history)
  unfolding hold_all
  hold_all-newest limit before [] = ap (newest limit) (sym (append-nil before))
  hold_all-newest limit before ((value, at) ∷ history) = rw (hold-newest limit value at before) (
      hold_all-newest limit (before ++ (value, at) ∷ []) history
      ∙ ap (newest limit) (append_assoc before ((value, at) ∷ []) history))

  hold_all_lem :
      (limit : ℕ) (history : List (T × ℕ)) → hold_all limit [] history ≡ newest limit history
  hold_all_lem limit history = rw (drop-nil (0 - limit)) at (hold_all-newest limit [] history)

  -- What is to be delivered of a history: the values with fewer than `limit` after them, and no more
  -- than the window old.
  abbrev pub recent : (limit window now : ℕ) → List (T × ℕ) → List T
  recent limit window now [] = []
  recent limit window now ((value, at) ∷ later) =
      let rest = recent limit window now later in
      if ltb (length later) limit && leb now (at + window) then value ∷ rest else rest

  -- One value after the other, from the first on.
  abbrev pub in_turn {κ} : {S : Type κ} → (S → T → S) → S → List T → S
  in_turn deliver s [] = s
  in_turn deliver s (value ∷ values) = in_turn deliver (deliver s value) values

  all_recent :
      (limit window now : ℕ) (items : List (T × ℕ))
      → length items ≤ limit
      → recent limit window now items ≡ map (λ i. i.0) (ready window now items)
  unfolding ready
  all_recent limit window now [] h = refl
  all_recent limit window now ((value, at) ∷ items) h =
      ground (arith, all_recent limit window now items (omega (arith, h)))

  recent-newest :
      (limit window now : ℕ) (history : List (T × ℕ))
      → recent limit window now history ≡ map (λ i. i.0) (ready window now (newest limit history))
  unfolding ready
  recent-newest limit window now [] =
      ap (λ items. map (λ i. i.0) (ready window now items)) (sym (drop-nil (0 - limit)))
  recent-newest limit window now ((value, at) ∷ history) =
      elim (Bool-cases (ltb (length history) limit)) [
        | inl few ↦
            let all : suc (length history) - limit ≡ 0 = ground (arith, few) in
            all_recent limit window now ((value, at) ∷ history) (ground (arith, few))
            ∙ ap (λ k. map (λ i. i.0) (ready window now (drop k ((value, at) ∷ history)))) (sym all)
        | inr many ↦
            let one_less : suc (length history) - limit ≡ suc (length history - limit) =
              ground (arith, many) in
            rw many (
              recent-newest limit window now history
              ∙ ap (λ k. map (λ i. i.0) (ready window now (drop k ((value, at) ∷ history))))
                  (sym one_less))
      ]

  deliver_all-in_turn {κ} :
      {S : Type κ} (deliver : S → T → S) (s : S) (items : List (T × ℕ))
      → deliver_all deliver s items ≡ in_turn deliver s (map (λ i. i.0) items)
  unfolding deliver_all
  deliver_all-in_turn deliver s [] = refl
  deliver_all-in_turn deliver s ((value, at) ∷ items) =
      deliver_all-in_turn deliver (deliver s value) items

  -- Of the signals held since the last drain, in any number and at any times, a drain delivers those
  -- among the newest `limit` that are no older than the window, each once, in the order in which they
  -- were held; nothing is left.
  pub drain-recent {κ} :
      {S : Type κ} (limit window now : ℕ) (deliver : S → T → S) (s : S) (history : List (T × ℕ))
      → drain window now deliver s (hold_all limit [] history)
        ≡ (in_turn deliver s (recent limit window now history), [])
  unfolding drain
  drain-recent limit window now deliver s history =
      ap (λ out. (out, []))
        (ap (λ items. deliver_all deliver s (ready window now items)) (hold_all_lem limit history)
          ∙ deliver_all-in_turn deliver s (ready window now (newest limit history))
          ∙ ap (in_turn deliver s) (sym (recent-newest limit window now history)))

  -- No more than `limit` signals are ever held.
  pub length-hold_all :
      (limit : ℕ) (history : List (T × ℕ)) → length (hold_all limit [] history) ≤ limit
  length-hold_all limit history =
      omega (
        arith,
        ap length (hold_all_lem limit history),
        length-drop (length history - limit) history,
      )
