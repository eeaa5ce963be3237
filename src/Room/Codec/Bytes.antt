-- ===== src/Room/Codec/Bytes.antt =====
-- Bytes read and written at an offset, and what the patterns of service/src/crypto/roomMessageV1.ts
-- say of a text.
use Prim.Native.Nat.{zero, suc}
use k3ncrypt.Base.{
  ℕ, ◌+◌, ◌≤◌, ◌≡◌, refl, ap, Bool, true, List, [], ◌∷◌, ◌++◌, ltb, eqb, eqb_iff, length, drop, all,
  All, arith,
}
use k3ncrypt.Base.Text.{fits_pattern, times, is_digit}
use k3ncrypt.Room.Codec.{
  Text, max_payload_bytes, is_reference_byte, reference_groups, is_identity, take, same_text, u32,
  get_u32,
}

pub take-append : (n : ℕ) (xs ys : List ℕ) → length xs ≡ n → take n (xs ++ ys) ≡ xs
take-append zero [] ys h = refl
take-append zero (x ∷ xs) ys h = absurd (omega (arith, h))
take-append (suc n) [] ys h = absurd (omega (arith, h))
take-append (suc n) (x ∷ xs) ys h = ap (λ r. x ∷ r) (take-append n xs ys (omega (arith, h)))

pub drop-append : (n k : ℕ) (xs ys : List ℕ) → length xs ≡ n → drop (n + k) (xs ++ ys) ≡ drop k ys
drop-append zero k [] ys h = let e : 0 + k ≡ k = omega arith in rw e refl
drop-append zero k (x ∷ xs) ys h = absurd (omega (arith, h))
drop-append (suc n) k [] ys h = absurd (omega (arith, h))
drop-append (suc n) k (x ∷ xs) ys h =
    let e : suc n + k ≡ suc (n + k) = omega arith in rw e (drop-append n k xs ys (omega (arith, h)))

pub take_all : (xs : List ℕ) → take (length xs) xs ≡ xs
take_all [] = refl
take_all (x ∷ xs) = ap (λ r. x ∷ r) (take_all xs)

pub same_text_lem : (a b : Text) → same_text a b ≡ true → a ≡ b
same_text_lem [] [] h = refl
same_text_lem [] (d ∷ ds) h = cc
same_text_lem (c ∷ cs) [] h = cc
same_text_lem (c ∷ cs) (d ∷ ds) h =
    let e : c ≡ d = (eqb_iff c d).0 (ground (arith, h)) in
    rw e (ap (λ r. d ∷ r) (same_text_lem cs ds (ground (arith, h))))

pub same_text_refl : (a : Text) → same_text a a ≡ true
same_text_refl [] = refl
same_text_refl (c ∷ cs) = ground (arith, same_text_refl cs)

abbrev Ascii : (ℕ → Bool) → Type 0
Ascii p = (c : ℕ) → p c ≡ true → ltb c 128 ≡ true

fits-Ascii :
    (ps : List (ℕ → Bool)) (t : Text)
    → All Ascii ps
    → fits_pattern ps t ≡ true
    → all (λ c. ltb c 128) t ≡ true
unfolding fits_pattern
fits-Ascii [] [] a h = refl
fits-Ascii [] (c ∷ t) a h = cc
fits-Ascii (p ∷ ps) [] a h = cc
fits-Ascii (p ∷ ps) (c ∷ t) a h = ground (arith, h, a.0 c, fits-Ascii ps t a.1)

reference-Ascii : Ascii is_reference_byte
unfolding is_reference_byte is_digit
reference-Ascii = λ c h. ground (arith, h)

groups-Ascii : (n : ℕ) → All Ascii (reference_groups n)
unfolding reference_groups times
groups-Ascii zero = (reference-Ascii, (reference-Ascii, (reference-Ascii, tt)))
groups-Ascii (suc n) = (
  reference-Ascii,
  (
    reference-Ascii,
    (reference-Ascii, (reference-Ascii, ((λ c h. ground (arith, h)), groups-Ascii n))),
  ),
)

pub identity_ascii :
    (t : Text) → is_identity t ≡ true → (length t ≡ 56) × (all (λ c. ltb c 128) t ≡ true)
unfolding is_identity
identity_ascii t h = (
  ground (arith, h),
  fits-Ascii (eqb b'K' ∷ eqb b'3' ∷ eqb b' ' ∷ reference_groups 10) t
      (
        (λ c h. ground (arith, h)),
        ((λ c h. ground (arith, h)), ((λ c h. ground (arith, h)), groups-Ascii 10)),
      )
      (ground (arith, h)),
)

pub u32_lem : (n : ℕ) (rest : List ℕ) → n ≤ max_payload_bytes → get_u32 (u32 n ++ rest) ≡ n
u32_lem n rest h = omega (arith, h)
