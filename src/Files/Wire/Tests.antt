-- ===== src/Files/Wire/Tests.antt =====
-- Texts of service/src/files/protocol.ts at concrete bytes.
use k3ncrypt.Base.{◌≡◌, refl, [], ◌∷◌, some, none, arith}
use k3ncrypt.Base.Text.{codes}
use k3ncrypt.Files.Wire.{
  letter, b64, value_of, values_of, unpack, same_codes, canonical, decoded, unb64, sealed_bytes,
  sealed,
}
use k3ncrypt.Files.Wire.RoundTrip.{unb64-b64}

wired : Unit {0}
unfolding letter b64 value_of values_of unpack same_codes canonical decoded unb64 sealed_bytes
    sealed
wired = tt

codec_tests :
    (b64 (255 ∷ 1 ∷ []) ≡ codes "_wE")
    × (unb64 (codes "_wE") 2 ≡ some (255 ∷ 1 ∷ []))
    × (unb64 (codes "_wF") 2 ≡ none)
    × (unb64 (codes "_wE=") 4 ≡ none)
    × (unb64 (codes "_wEAA") 4 ≡ none)
unfolding wired
codec_tests = (refl, refl, refl, refl, refl)

unb64-b64_example : unb64 (b64 (255 ∷ 1 ∷ 7 ∷ 9 ∷ [])) 4 ≡ some (255 ∷ 1 ∷ 7 ∷ 9 ∷ [])
unb64-b64_example = unb64-b64 (255 ∷ 1 ∷ 7 ∷ 9 ∷ []) 4 (omega arith) (omega arith) (omega arith)
