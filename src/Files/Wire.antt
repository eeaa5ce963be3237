-- ===== src/Files/Wire.antt =====
-- service/src/files/protocol.ts: unpadded base64url texts and sealed objects. A text is the list of
-- its code points, bytes are numbers below 256, `none` is a throw.
pub mod RoundTrip
mod Tests
use k3ncrypt.Base.{
  ℕ, ◌+◌, ◌-◌, ◌*◌, ◌/◌, ◌%◌, Bool, true, false, not, ◌&&◌, ◌||◌, Option, none, some, List, [], ◌∷◌,
  leb, ltb, eqb, if◌then◌else◌, length,
}
use k3ncrypt.Base.Text.{codes}
use k3ncrypt.Files.{WireObject, ceil_div}

-- The letter of a six-bit value, with `-` and `_` for `+` and `/`.
unfoldable pub letter : ℕ → ℕ
letter n =
    if ltb n 26
    then n + b'A'
    else if ltb n 52
    then n - 26 + b'a'
    else if ltb n 62
    then n - 52 + b'0'
    else if eqb n 62
    then b'-'
    else b'_'

unfoldable pub b64 : List ℕ → List ℕ
b64 [] = []
b64 (a ∷ []) = letter (a / 4) ∷ letter (a % 4 * 16) ∷ []
b64 (a ∷ b ∷ []) = letter (a / 4) ∷ letter (a % 4 * 16 + b / 16) ∷ letter (b % 16 * 4) ∷ []
b64 (a ∷ b ∷ c ∷ rest) =
    letter (a / 4)
    ∷ letter (a % 4 * 16 + b / 16)
    ∷ letter (b % 16 * 4 + c / 64)
    ∷ letter (c % 64)
    ∷ b64 rest

-- The value of a letter of [A-Za-z0-9_-].
unfoldable pub value_of : ℕ → Option ℕ
value_of c =
    if leb b'A' c && leb c b'Z'
    then some (c - b'A')
    else if leb b'a' c && leb c b'z'
    then some (c - b'a' + 26)
    else if leb b'0' c && leb c b'9'
    then some (c - b'0' + 52)
    else if eqb c b'-'
    then some 62
    else if eqb c b'_'
    then some 63
    else none

unfoldable pub values_of : List ℕ → Option (List ℕ)
values_of [] = some []
values_of (c ∷ cs) = elim (value_of c) [
  | none ↦ none
  | some v ↦ elim (values_of cs) [ none ↦ none | some vs ↦ some (v ∷ vs) ]
]

-- `atob` of the padded text, on the values of its letters: bits left over at the end are dropped,
-- and one letter alone throws.
unfoldable pub unpack : List ℕ → Option (List ℕ)
unpack [] = some []
unpack (w ∷ []) = none
unpack (w ∷ x ∷ []) = some ((w * 4 + x / 16) ∷ [])
unpack (w ∷ x ∷ y ∷ []) = some ((w * 4 + x / 16) ∷ (x % 16 * 16 + y / 4) ∷ [])
unpack (w ∷ x ∷ y ∷ z ∷ rest) = elim (unpack rest) [
  | none ↦ none
  | some bytes ↦ some ((w * 4 + x / 16) ∷ (x % 16 * 16 + y / 4) ∷ (y % 4 * 64 + z) ∷ bytes)
]

unfoldable pub same_codes : List ℕ → List ℕ → Bool
same_codes [] [] = true
same_codes (x ∷ xs) (y ∷ ys) = eqb x y && same_codes xs ys
same_codes _ _ = false

-- `unb64`: the length and the alphabet first, then the bytes, which must encode to the same text.
unfoldable pub canonical : List ℕ → ℕ → Option (List ℕ) → Option (List ℕ)
canonical s most none = none
canonical s most (some bytes) =
    if ltb most (length bytes) || not (same_codes (b64 bytes) s) then none else some bytes

unfoldable pub decoded : List ℕ → Option (List ℕ)
decoded s = elim (values_of s) [ none ↦ none | some vs ↦ unpack vs ]

unfoldable pub unb64 : List ℕ → ℕ → Option (List ℕ)
unb64 s most =
    if ltb (ceil_div (most * 4) 3) (length s) || eqb (length s) 0
    then none
    else canonical s most (decoded s)

-- `sealed`: the bytes of the nonce and of the ciphertext.
unfoldable pub sealed_bytes : Option (List ℕ) → Option (List ℕ) → Option (List ℕ × List ℕ)
sealed_bytes none c = none
sealed_bytes (some n) none = none
sealed_bytes (some n) (some c) =
    if not (eqb (length n) 12) || ltb (length c) 16 then none else some (n, c)

unfoldable pub sealed : WireObject → ℕ → Option (List ℕ × List ℕ)
sealed v most = sealed_bytes (unb64 (codes v.nonce) 12) (unb64 (codes v.ciphertext) most)
