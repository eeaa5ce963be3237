-- ===== src/Room/Codec/Uuid.antt =====
-- A UUID's text and its sixteen bytes (service/src/crypto/roomMessageV1.ts) determine each other.
use Prim.Native.Nat.{zero, suc}
use k3ncrypt.Base.{
  ℕ, ◌+◌, ◌*◌, ◌/◌, ◌%◌, ◌<◌, ◌≡◌, refl, sym, ap, ◌∙◌, true, false, List, [], ◌∷◌, eqb, eqb_iff,
  length, all, arith,
}
use k3ncrypt.Base.Text.{fits_pattern, is_lower_hex, is_digit}
use k3ncrypt.Room.Codec.{
  Text, dash, pattern_of, put_dashes, groups, is_uuid, hex_value, hex_digit, without_dashes,
  bytes_of_pairs, pairs_of_bytes, room_uuid_bytes, uuid_text,
}

abbrev pub sum : List ℕ → ℕ
sum [] = 0
sum (n ∷ ns) = n + sum ns

not_dash : (c : ℕ) → is_lower_hex c ≡ true → eqb dash c ≡ false
unfolding is_lower_hex is_digit
not_dash c h = ground (arith, h)

digit_lem : (c : ℕ) → is_lower_hex c ≡ true → (hex_value c < 16) × (hex_digit (hex_value c) ≡ c)
unfolding is_lower_hex is_digit
digit_lem c h = ground (arith, h)

put_dashes-without :
    (k : ℕ) (ns : List ℕ) (t : Text)
    → fits_pattern (pattern_of k ns) t ≡ true
    → (put_dashes k ns (without_dashes t) ≡ t)
      × (all is_lower_hex (without_dashes t) ≡ true)
      × (length (without_dashes t) ≡ k + sum ns)
unfolding pattern_of put_dashes without_dashes fits_pattern
put_dashes-without zero [] [] h = (refl, refl, refl)
put_dashes-without zero [] (c ∷ t) h = absurd (ground (arith, h))
put_dashes-without zero (n ∷ ns) [] h = absurd (ground (arith, h))
put_dashes-without zero (n ∷ ns) (c ∷ t) h =
    let e : dash ≡ c = (eqb_iff dash c).0 (ground (arith, h)) in
    let ih = put_dashes-without n ns t (ground (arith, h)) in
    rw (sym e) (ap (λ r. dash ∷ r) ih.0, ih.1, omega (arith, ih.2))
put_dashes-without (suc k) ns [] h = absurd (ground (arith, h))
put_dashes-without (suc k) ns (c ∷ t) h =
    let x : is_lower_hex c ≡ true = ground (arith, h) in
    let ih = put_dashes-without k ns t (ground (arith, h)) in
    rw (not_dash c x) (ap (λ r. c ∷ r) ih.0, ground (arith, x, ih.1), omega (arith, ih.2))

pairs-bytes :
    (n : ℕ) (ds : Text)
    → all is_lower_hex ds ≡ true
    → length ds ≡ n + n
    → (pairs_of_bytes (bytes_of_pairs ds) ≡ ds) × (length (bytes_of_pairs ds) ≡ n)
unfolding pairs_of_bytes bytes_of_pairs
pairs-bytes n [] h l = (refl, omega (arith, l))
pairs-bytes n (c ∷ []) h l = absurd (omega (arith, l))
pairs-bytes zero (c ∷ d ∷ ds) h l = absurd (omega (arith, l))
pairs-bytes (suc n) (c ∷ d ∷ ds) h l =
    let ih = pairs-bytes n ds (ground (arith, h)) (omega (arith, l)) in
    let x = digit_lem c (ground (arith, h)) in
    let y = digit_lem d (ground (arith, h)) in
    let a : (hex_value c * 16 + hex_value d) / 16 ≡ hex_value c = omega (arith, x.0, y.0) in
    let b : (hex_value c * 16 + hex_value d) % 16 ≡ hex_value d = omega (arith, x.0, y.0) in
    (rw (a, b, x.1, y.1) (ap (λ r. c ∷ d ∷ r) ih.0), omega (arith, ih.1))

pub uuid_text-bytes : (t : Text) → is_uuid t ≡ true → uuid_text (room_uuid_bytes t) ≡ t
unfolding is_uuid uuid_text room_uuid_bytes
uuid_text-bytes t h =
    let (a, b, c) = put_dashes-without 8 groups t h in
    let p = pairs-bytes 16 (without_dashes t) b c in ap (put_dashes 8 groups) p.0 ∙ a

pub length-uuid : (t : Text) → is_uuid t ≡ true → length (room_uuid_bytes t) ≡ 16
unfolding is_uuid room_uuid_bytes
length-uuid t h =
    let (a, b, c) = put_dashes-without 8 groups t h in (pairs-bytes 16 (without_dashes t) b c).1
