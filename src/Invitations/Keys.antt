-- ===== src/Invitations/Keys.antt =====
-- How often a one-time key is handed out.
use k3ncrypt.Base.{
  ℕ, ◌+◌, ◌≤◌, ◌≡◌, refl, inl, inr, String, string_eq, ◌==◌, Bool, false, Option, none, some, List,
  [], ◌∷◌, arith, keep, Bool-cases, if◌then◌else◌, ◌&&◌,
}
use text.Mathlib.TextEquality.{eq_iff}
use k3ncrypt.Invitations.{
  OneTimeKey, PrekeyRow, with_id, has_key, take_key, keys_of, claim_one_time_key, is_retained,
  delete_expired_prekey_bundles,
}

-- The keys with an identifier in one bundle, and in all bundles of an address in a channel.
unfoldable pub copies : String → List OneTimeKey → ℕ
copies id [] = 0
copies id (k ∷ ks) = copies id ks + (if with_id id k then 1 else 0)

pub is_at : String → String → PrekeyRow → Bool
is_at channel address row = row.channel == channel && row.address == address

unfoldable pub supply : String → String → String → List PrekeyRow → ℕ
supply channel address id [] = 0
supply channel address id (row ∷ rows) =
    supply channel address id rows
    + (if is_at channel address row then copies id (keys_of row.one_time_keys) else 0)

pub data KeyCall : Type 0 where
  claim : String → KeyCall
  clean : KeyCall

abbrev pub one_if : Option OneTimeKey → ℕ
one_if none = 0
one_if (some k) = 1

module _ (channel address : String) where
  unfoldable pub call : ℕ → KeyCall → List PrekeyRow → List PrekeyRow × Option OneTimeKey
  call now (claim id) rows = claim_one_time_key now channel address id rows
  call now clean rows = ((delete_expired_prekey_bundles now rows).0, none)

  -- How often a history hands out the key `id`.
  unfoldable pub handed : String → List (ℕ × KeyCall) → List PrekeyRow → ℕ
  handed id [] rows = 0
  handed id ((now, claim other) ∷ es) rows =
      (if other == id then one_if (call now (claim other) rows).1 else 0)
      + handed id es (call now (claim other) rows).0
  handed id ((now, clean) ∷ es) rows = handed id es (call now clean rows).0

take_key_lem :
    (id : String) (ks : List OneTimeKey)
    → copies id (take_key id ks).0 + one_if (take_key id ks).1 ≡ copies id ks
unfolding take_key copies
take_key_lem id [] = refl
take_key_lem id (k ∷ ks) = ground (arith, take_key_lem id ks)

take_key_other :
    (id other : String) (ks : List OneTimeKey)
    → (other == id) ≡ false
    → copies id (take_key other ks).0 ≡ copies id ks
unfolding take_key copies
take_key_other id other [] e = refl
take_key_other id other (k ∷ ks) e =
    ground (arith, take_key_other id other ks e, eq_iff k.id id, eq_iff k.id other, eq_iff other id)

module _ (channel address : String) where
  claim_supply :
      (now : ℕ) (id : String) (rows : List PrekeyRow)
      → supply channel address id (claim_one_time_key now channel address id rows).0
          + one_if (claim_one_time_key now channel address id rows).1
        ≡ supply channel address id rows
  unfolding claim_one_time_key supply has_key is_at
  claim_supply now id [] = refl
  claim_supply now id (row ∷ rows) =
      ground (arith, claim_supply now id rows, take_key_lem id (keys_of row.one_time_keys))

  claim_other :
      (now : ℕ) (id other : String) (rows : List PrekeyRow)
      → (other == id) ≡ false
      → supply channel address id (claim_one_time_key now channel address other rows).0
        ≡ supply channel address id rows
  unfolding claim_one_time_key supply has_key is_at
  claim_other now id other [] e = refl
  claim_other now id other (row ∷ rows) e = ground (
    arith,
    claim_other now id other rows e,
    take_key_other id other (keys_of row.one_time_keys) e,
  )

  clean_supply :
      (p : PrekeyRow → Bool) (id : String) (rows : List PrekeyRow)
      → supply channel address id (keep p rows) ≤ supply channel address id rows
  unfolding supply
  clean_supply p id [] = omega arith
  clean_supply p id (row ∷ rows) = ground (arith, clean_supply p id rows)

  -- Any history of claims, of any keys of an address, and of clean-ups hands out a one-time key at
  -- most as often as it stands in the published bundles at the start: once, where it was published once.
  pub handed-supply :
      (id : String) (es : List (ℕ × KeyCall)) (rows : List PrekeyRow)
      → handed channel address id es rows ≤ supply channel address id rows
  unfolding handed call delete_expired_prekey_bundles
  handed-supply id [] rows = omega arith
  handed-supply id ((now, clean) ∷ es) rows = omega (
    arith,
    handed-supply id es (call channel address now clean rows).0,
    clean_supply (λ row. is_retained now row.expires_at) id rows,
  )
  handed-supply id ((now, claim other) ∷ es) rows = elim (Bool-cases (other == id)) [
    | inl e ↦
        rw (e, (eq_iff other id).0 e)
          (omega (
            arith,
            handed-supply id es (claim_one_time_key now channel address id rows).0,
            claim_supply now id rows,
          ))
    | inr e ↦ rw e (
        omega (
          arith,
          handed-supply id es (claim_one_time_key now channel address other rows).0,
          claim_other now id other rows e,
        ))
  ]
