-- ===== src/Base/Distinct.antt =====
-- Lists of numbers with no repetition: how many fit below a bound.
use Prim.Native.Nat.{ℕ, zero, suc, ◌+◌, ◌≤◌, ◌<◌}
use mathlib.Core.Path.{◌≡◌, refl}
use mathlib.Core.Bool.{Bool, true, false, not, ◌||◌}
use mathlib.Core.List.{List, [], ◌∷◌, ◌++◌}
use mathlib.Core.Logic.{inl, inr}
use native.Mathlib.Omega.{arith}
use package.k3ncrypt.Base.Tests.{eqb, eqb_iff, nat_eq, Bool-cases}
use package.k3ncrypt.Base.Lists.{length, keep, includes, All, add}

abbrev pub Distinct : List ℕ → Type 0
Distinct [] = Unit
Distinct (x ∷ xs) = (includes xs x ≡ false) × Distinct xs

pub includes-append :
    (a : ℕ) (xs : List ℕ) (b : ℕ) → includes (xs ++ b ∷ []) a ≡ (includes xs a || eqb b a)
includes-append a [] b = ground arith
includes-append a (x ∷ xs) b = ground (arith, includes-append a xs b)

pub includes-add :
    (a : ℕ) (xs : List ℕ) (b : ℕ) → includes (add xs b) a ≡ (includes xs a || eqb b a)
includes-add a xs b = elim (Bool-cases (includes xs b)) [
  | inl old ↦ rw old (ground (arith, eqb_iff b a, old))
  | inr new ↦ rw new (includes-append a xs b)
]

pub includes-keep :
    (p : ℕ → Bool) (xs : List ℕ) (a : ℕ) → p a ≡ true → includes (keep p xs) a ≡ includes xs a
includes-keep p [] a h = refl
includes-keep p (x ∷ xs) a h = ground (arith, includes-keep p xs a h)

pub not-includes-keep :
    (p : ℕ → Bool) (xs : List ℕ) (a : ℕ) → includes xs a ≡ false → includes (keep p xs) a ≡ false
not-includes-keep p [] a h = refl
not-includes-keep p (x ∷ xs) a h = ground (arith, not-includes-keep p xs a)

pub keep-Distinct : (p : ℕ → Bool) (xs : List ℕ) → Distinct xs → Distinct (keep p xs)
keep-Distinct p [] d = tt
keep-Distinct p (x ∷ xs) d = ground (arith, keep-Distinct p xs d.1, not-includes-keep p xs x d.0)

append-Distinct :
    (xs : List ℕ) (b : ℕ) → includes xs b ≡ false → Distinct xs → Distinct (xs ++ b ∷ [])
append-Distinct [] b h d = (refl, tt)
append-Distinct (x ∷ xs) b h d =
    ground (arith, append-Distinct xs b, includes-append x xs b, eqb_iff x b, eqb_iff b x)

pub add-Distinct : (xs : List ℕ) (b : ℕ) → Distinct xs → Distinct (add xs b)
add-Distinct xs b d = elim (Bool-cases (includes xs b)) [
  | inl old ↦ rw old d
  | inr new ↦ rw new (append-Distinct xs b new d)
]

keep_ne : (xs : List ℕ) (a : ℕ) → includes xs a ≡ false → keep (λ x. not (eqb x a)) xs ≡ xs
keep_ne [] a h = refl
keep_ne (x ∷ xs) a h = ground (arith, keep_ne xs a)

length-keep_ne :
    (xs : List ℕ) (a : ℕ) → Distinct xs → length xs ≤ suc (length (keep (λ x. not (eqb x a)) xs))
length-keep_ne [] a d = omega arith
length-keep_ne (x ∷ xs) a d = elim (Bool-cases (eqb x a)) [
  | inl here ↦
      let e : x ≡ a = (eqb_iff x a).0 here in rw (here, keep_ne xs a (rw e at d.0)) (omega arith)
  | inr other ↦ rw other (omega (arith, length-keep_ne xs a d.1))
]

keep_below :
    (low k : ℕ) (xs : List ℕ)
    → All (λ x. (low ≤ x) × (x < low + suc k)) xs
    → All (λ x. (low ≤ x) × (x < low + k)) (keep (λ x. not (eqb x (low + k))) xs)
keep_below low k [] h = tt
keep_below low k (x ∷ xs) h = ground (arith, keep_below low k xs h.1)

-- Distinct numbers in a range of `k` numbers are at most `k`.
pub length-Distinct-le :
    (low k : ℕ) (xs : List ℕ)
    → Distinct xs
    → All (λ x. (low ≤ x) × (x < low + k)) xs
    → length xs ≤ k
length-Distinct-le low zero [] d h = omega arith
length-Distinct-le low zero (x ∷ xs) d h = absurd (omega arith)
length-Distinct-le low (suc k) xs d h = omega (
  arith,
  length-keep_ne xs (low + k) d,
  length-Distinct-le low k (keep (λ x. not (eqb x (low + k))) xs)
      (keep-Distinct (λ x. not (eqb x (low + k))) xs d) (keep_below low k xs h),
)
