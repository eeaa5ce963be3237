-- ===== src/Files/Wire/RoundTrip.antt =====
-- service/src/files/protocol.ts: what `unb64` accepts.
use k3ncrypt.Base.{
  ℕ, ◌+◌, ◌*◌, ◌/◌, ◌%◌, ◌≤◌, ◌<◌, ◌≡◌, ◌↔◌, refl, true, Option, none, some, List, [], ◌∷◌, length,
  All, arith,
}
use k3ncrypt.Files.Wire.{
  letter, b64, value_of, values_of, unpack, same_codes, canonical, decoded, unb64,
}

value_of-letter : (n : ℕ) → n < 64 → value_of (letter n) ≡ some n
unfolding value_of letter
value_of-letter n h = ground arith

same_codes_iff : (xs ys : List ℕ) → (same_codes xs ys ≡ true) ↔ (xs ≡ ys)
unfolding same_codes
same_codes_iff [] [] = ground arith
same_codes_iff [] (y ∷ ys) = ground arith
same_codes_iff (x ∷ xs) [] = ground arith
same_codes_iff (x ∷ xs) (y ∷ ys) = ground (arith, same_codes_iff xs ys)

-- The six-bit values that `b64` spells.
sextets : List ℕ → List ℕ
sextets [] = []
sextets (a ∷ []) = (a / 4) ∷ (a % 4 * 16) ∷ []
sextets (a ∷ b ∷ []) = (a / 4) ∷ (a % 4 * 16 + b / 16) ∷ (b % 16 * 4) ∷ []
sextets (a ∷ b ∷ c ∷ rest) =
    (a / 4) ∷ (a % 4 * 16 + b / 16) ∷ (b % 16 * 4 + c / 64) ∷ (c % 64) ∷ sextets rest

values_of-b64 :
    (bytes : List ℕ) → All (λ b. b < 256) bytes → values_of (b64 bytes) ≡ some (sextets bytes)
unfolding b64 sextets values_of
values_of-b64 [] h = refl
values_of-b64 (a ∷ []) h = ground (arith, value_of-letter (a / 4), value_of-letter (a % 4 * 16))
values_of-b64 (a ∷ b ∷ []) (ha, (hb, _)) = ground (
  arith,
  value_of-letter (a / 4),
  value_of-letter (a % 4 * 16 + b / 16),
  value_of-letter (b % 16 * 4),
)
values_of-b64 (a ∷ b ∷ c ∷ rest) (ha, (hb, (hc, h))) = ground (
  arith,
  value_of-letter (a / 4),
  value_of-letter (a % 4 * 16 + b / 16),
  value_of-letter (b % 16 * 4 + c / 64),
  value_of-letter (c % 64),
  values_of-b64 rest h,
)

unpack-sextets : (bytes : List ℕ) → All (λ b. b < 256) bytes → unpack (sextets bytes) ≡ some bytes
unfolding unpack sextets
unpack-sextets [] h = refl
unpack-sextets (a ∷ []) h = let ea : a / 4 * 4 + a % 4 * 16 / 16 ≡ a = omega arith in rw ea
unpack-sextets (a ∷ b ∷ []) (ha, (hb, _)) =
    let ea : a / 4 * 4 + (a % 4 * 16 + b / 16) / 16 ≡ a = omega arith in
    let eb : (a % 4 * 16 + b / 16) % 16 * 16 + b % 16 * 4 / 4 ≡ b = omega arith in rw (ea, eb)
unpack-sextets (a ∷ b ∷ c ∷ rest) (ha, (hb, (hc, h))) =
    let ea : a / 4 * 4 + (a % 4 * 16 + b / 16) / 16 ≡ a = omega arith in
    let eb : (a % 4 * 16 + b / 16) % 16 * 16 + (b % 16 * 4 + c / 64) / 4 ≡ b = omega arith in
    let ec : (b % 16 * 4 + c / 64) % 4 * 64 + c % 64 ≡ c = omega arith in
    rw (unpack-sextets rest h, ea, eb, ec)

decoded-b64 : (bytes : List ℕ) → All (λ b. b < 256) bytes → decoded (b64 bytes) ≡ some bytes
unfolding decoded
decoded-b64 bytes h = rw (values_of-b64 bytes h, decoded) (unpack-sextets bytes h)

-- The text of n bytes has at most ceil(n * 4 / 3) letters.
length-b64-le : (bytes : List ℕ) → 3 * length (b64 bytes) ≤ length bytes * 4 + 2
unfolding b64
length-b64-le [] = omega arith
length-b64-le (a ∷ []) = omega arith
length-b64-le (a ∷ b ∷ []) = omega arith
length-b64-le (a ∷ b ∷ c ∷ rest) = omega (arith, length-b64-le rest)

b64-nonempty : (bytes : List ℕ) → 1 ≤ length bytes → 1 ≤ length (b64 bytes)
unfolding b64
b64-nonempty [] h = h
b64-nonempty (a ∷ []) h = omega arith
b64-nonempty (a ∷ b ∷ []) h = omega arith
b64-nonempty (a ∷ b ∷ c ∷ rest) h = omega arith

-- Decoding the text of some bytes gives the bytes back, if there is one at least and no more of
-- them than the limit.
pub unb64-b64 :
    (bytes : List ℕ) (most : ℕ)
    → All (λ b. b < 256) bytes
    → 1 ≤ length bytes
    → length bytes ≤ most
    → unb64 (b64 bytes) most ≡ some bytes
unfolding unb64 canonical
unb64-b64 bytes most h some_byte fits = rw (decoded-b64 bytes h) (
    ground (
      arith,
      length-b64-le bytes,
      b64-nonempty bytes some_byte,
      (same_codes_iff (b64 bytes) (b64 bytes)).1 refl,
    ))

canonical-b64 :
    (s : List ℕ) (most : ℕ) (o : Option (List ℕ)) {bytes : List ℕ}
    → canonical s most o ≡ some bytes
    → (b64 bytes ≡ s) × (length bytes ≤ most)
unfolding canonical
canonical-b64 s most none h = cc
canonical-b64 s most (some v) h = ground (arith, same_codes_iff (b64 v) s)

-- Whatever text is accepted is the one text of its bytes, which are within the limit: no two texts
-- decode to the same bytes.
unb64_canonical :
    (s : List ℕ) (most : ℕ) (bytes : List ℕ)
    → unb64 s most ≡ some bytes
    → (b64 bytes ≡ s) × (length bytes ≤ most)
unfolding unb64
unb64_canonical s most bytes h = canonical-b64 s most (decoded s) (ground arith)
