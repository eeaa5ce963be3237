-- ===== src/Base/Text.antt =====
-- Texts as code points, and the fixed-width patterns that the source tests by regular expressions.
use Prim.Native.Nat.{ℕ, zero, suc}
use Prim.Native.Char.{code}
use Prim.Native.String.{String}
use mathlib.Core.Bool.{Bool, true, false, ◌&&◌, ◌||◌}
use mathlib.Core.List.{List, [], ◌∷◌}
use package.k3ncrypt.Base.Tests.{leb}

abbrev pub codes : String → List ℕ
codes String.[] = []
codes (String.◌∷◌ c s) = code c ∷ codes s

-- One test for each character, as in `/^[a-f][0-9]$/`.
unfoldable pub fits_pattern : List (ℕ → Bool) → List ℕ → Bool
fits_pattern [] [] = true
fits_pattern (p ∷ ps) (c ∷ cs) = p c && fits_pattern ps cs
fits_pattern _ _ = false

-- A class repeated, as in `[a-f]{4}`, before the rest of a pattern.
unfoldable pub times : ℕ → (ℕ → Bool) → List (ℕ → Bool) → List (ℕ → Bool)
times zero p rest = rest
times (suc n) p rest = p ∷ times n p rest

unfoldable pub is_digit : ℕ → Bool
is_digit c = leb b'0' c && leb c b'9'

unfoldable pub is_lower_hex : ℕ → Bool
unfolding is_digit
is_lower_hex c = is_digit c || (leb b'a' c && leb c b'f')

unfoldable pub is_hex : ℕ → Bool
unfolding is_lower_hex
is_hex c = is_lower_hex c || (leb b'A' c && leb c b'F')
