-- ===== src/Base/Dict.antt =====
-- A `Map` or an object used as one: an association list in insertion order. `put` on a present key
-- keeps its place, as `Map.set` does.
use k3ncrypt.Base.Tests.{Eq, ◌==◌, if◌then◌else◌}
use k3ncrypt.Base.Lists.{length}
use Prim.Native.Nat.{◌≤◌, ◌+◌}
use mathlib.Core.Path.{◌≡◌, refl}
use mathlib.Core.Bool.{Bool, true, false}
use mathlib.Core.List.{List, [], ◌∷◌}
use mathlib.Core.Option.{Option, none, some}
use native.Mathlib.Omega.{arith}

abbrev pub Dict {ℓ κ} : Type ℓ → Type κ → Type (ℓ ⊔ κ)
Dict K V = List (K × V)

module _ {κ} {V : Type κ} where
  abbrev pub is_some : Option V → Bool
  is_some none = false
  is_some (some v) = true

  abbrev pub passing : (V → Bool) → Option V → Option V
  passing p none = none
  passing p (some v) = if p v then some v else none

module _ {ℓ κ} {K : Type ℓ} {V : Type κ} ⦃e : Eq K⦄ where
  unfoldable pub get : K → Dict K V → Option V
  get k [] = none
  get k ((j, v) ∷ m) = if j == k then some v else get k m

  unfoldable pub put : K → V → Dict K V → Dict K V
  put k v [] = (k, v) ∷ []
  put k v ((j, w) ∷ m) = if j == k then (j, v) ∷ m else (j, w) ∷ put k v m

  unfoldable pub delete : K → Dict K V → Dict K V
  delete k [] = []
  delete k ((j, w) ∷ m) = if j == k then delete k m else (j, w) ∷ delete k m

  -- The entries whose value passes a test.
  unfoldable pub retain : (V → Bool) → Dict K V → Dict K V
  retain p [] = []
  retain p ((j, w) ∷ m) = if p w then (j, w) ∷ retain p m else retain p m

  abbrev pub has : K → Dict K V → Bool
  has k m = is_some (get k m)

  -- No key stands twice.
  abbrev pub IsDict : Dict K V → Type κ
  IsDict [] = Unit
  IsDict ((k, v) ∷ m) = (get k m ≡ none) × IsDict m

  pub get-put :
      (k j : K) (v : V) (m : Dict K V) → get j (put k v m) ≡ (if k == j then some v else get j m)
  unfolding get put
  get-put k j v [] = refl
  get-put k j v ((i, w) ∷ m) =
      ground (arith, e.same_iff k j, e.same_iff i k, e.same_iff i j, get-put k j v m)

  pub get-put_self : (k : K) (v : V) (m : Dict K V) → get k (put k v m) ≡ some v
  get-put_self k v m = ground (arith, get-put k k v m, e.same_iff k k)

  pub get-delete :
      (k j : K) (m : Dict K V) → get j (delete k m) ≡ (if k == j then none else get j m)
  unfolding get delete
  get-delete k j [] = ground arith
  get-delete k j ((i, w) ∷ m) =
      ground (arith, e.same_iff k j, e.same_iff i k, e.same_iff i j, get-delete k j m)

  pub get-delete_self : (k : K) (m : Dict K V) → get k (delete k m) ≡ none
  get-delete_self k m = ground (arith, get-delete k k m, e.same_iff k k)

  pub get-retain :
      (k : K) (p : V → Bool) (m : Dict K V) → IsDict m → get k (retain p m) ≡ passing p (get k m)
  unfolding get retain
  get-retain k p [] d = refl
  get-retain k p ((j, w) ∷ m) d = ground (arith, e.same_iff j k, get-retain k p m d.1)

  pub put-IsDict : (k : K) (v : V) (m : Dict K V) → IsDict m → IsDict (put k v m)
  unfolding put get
  put-IsDict k v [] d = (refl, tt)
  put-IsDict k v ((j, w) ∷ m) d =
      ground (arith, put-IsDict k v m d.1, get-put k j v m, e.same_iff k j, e.same_iff j k)

  pub delete-IsDict : (k : K) (m : Dict K V) → IsDict m → IsDict (delete k m)
  unfolding delete
  delete-IsDict k [] d = tt
  delete-IsDict k ((j, w) ∷ m) d = ground (arith, delete-IsDict k m d.1, get-delete k j m)

  pub retain-IsDict : (p : V → Bool) (m : Dict K V) → IsDict m → IsDict (retain p m)
  unfolding retain
  retain-IsDict p [] d = tt
  retain-IsDict p ((j, w) ∷ m) d = ground (arith, retain-IsDict p m d.1, get-retain j p m d.1)

  -- A new key adds one entry, a present one none.
  pub length-put :
      (k : K) (v : V) (m : Dict K V)
      → length (put k v m) ≡ (if has k m then length m else length m + 1)
  unfolding put get
  length-put k v [] = omega arith
  length-put k v ((j, w) ∷ m) = ground (arith, length-put k v m)

  pub length-delete-le : (k : K) (m : Dict K V) → length (delete k m) ≤ length m
  unfolding delete
  length-delete-le k [] = omega arith
  length-delete-le k ((j, w) ∷ m) = ground (arith, length-delete-le k m)

  pub length-retain-le : (p : V → Bool) (m : Dict K V) → length (retain p m) ≤ length m
  unfolding retain
  length-retain-le p [] = omega arith
  length-retain-le p ((j, w) ∷ m) = ground (arith, length-retain-le p m)
