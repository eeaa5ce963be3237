-- ===== src/Files/Ledger/Quota.antt =====
-- backend/attachments/fileLedger.ts: the quotas of an account, kept by every change.
use k3ncrypt.Base.{
  ℕ, ◌+◌, ◌≤◌, ◌≡◌, refl, String, string_eq, true, false, List, [], ◌∷◌, ◌++◌, ltb, length,
  length-append, Result, ok, arith, Bool-cases, Result-cases, ap, ◌∙◌, inl, inr, ◌==◌,
}
use k3ncrypt.Files.{
  FileContext, incomplete, max_active_transfers, max_stored_bytes_per_user,
  max_incomplete_bytes_per_user, max_records, transfer_expiry,
}
use k3ncrypt.Files.Ledger.{
  StoredFile, FileError, AuthenticatedContext, is_incomplete, expire_file, expire, sum_reserved,
  active, over_quota, create_change, modify,
}

-- What the account holds is within its limits.
pub record WithinQuota (ts : List StoredFile) : Type 0 where
  pub records : length ts ≤ max_records
  pub active_count : length (active ts) ≤ max_active_transfers
  pub stored : sum_reserved ts ≤ max_stored_bytes_per_user
  pub active_stored : sum_reserved (active ts) ≤ max_incomplete_bytes_per_user

-- `ts` uses no more of any limit than `us`.
pub record Shrinks (ts us : List StoredFile) : Type 0 where
  pub records : length ts ≤ length us
  pub active_count : length (active ts) ≤ length (active us)
  pub stored : sum_reserved ts ≤ sum_reserved us
  pub active_stored : sum_reserved (active ts) ≤ sum_reserved (active us)

-- The same for one file, which may only leave the active ones.
abbrev pub FileShrinks : StoredFile → StoredFile → Type 0
FileShrinks g f =
    (g.reserved ≤ f.reserved) × (is_incomplete g.state ≡ true → is_incomplete f.state ≡ true)

Shrinks-WithinQuota : {ts us : List StoredFile} → Shrinks ts us → WithinQuota us → WithinQuota ts
Shrinks-WithinQuota s w = record {
  records = omega (arith, s.records, w.records);
  active_count = omega (arith, s.active_count, w.active_count);
  stored = omega (arith, s.stored, w.stored);
  active_stored = omega (arith, s.active_stored, w.active_stored);
}

FileShrinks-refl : (f : StoredFile) → FileShrinks f f
FileShrinks-refl f = (omega arith, λ h. h)

Shrinks-refl : (ts : List StoredFile) → Shrinks ts ts
Shrinks-refl ts = omega arith

Shrinks-cons :
    (f g : StoredFile) (ts us : List StoredFile)
    → FileShrinks g f
    → Shrinks ts us
    → Shrinks (g ∷ ts) (f ∷ us)
unfolding sum_reserved
Shrinks-cons f g ts us h s =
    ground (arith, h.1, s.records, s.active_count, s.stored, s.active_stored)

Shrinks-drop : (f : StoredFile) (ts us : List StoredFile) → Shrinks ts us → Shrinks ts (f ∷ us)
unfolding sum_reserved
Shrinks-drop f ts us s = ground (arith, s.records, s.active_count, s.stored, s.active_stored)

expire_file-Shrinks : (now : ℕ) (f : StoredFile) → FileShrinks (expire_file now f) f
unfolding expire_file
expire_file-Shrinks now f = ground arith

expire-Shrinks : (now : ℕ) (ts : List StoredFile) → Shrinks (expire now ts) ts
unfolding expire
expire-Shrinks now [] = record {
  records = omega arith;
  active_count = omega arith;
  stored = omega arith;
  active_stored = omega arith;
}
expire-Shrinks now (f ∷ ts) =
    elim (Bool-cases (ltb now ((expire_file now f).expires_at + transfer_expiry))) [
      | inl stays ↦ rw stays (
          Shrinks-cons f (expire_file now f) _ ts (expire_file-Shrinks now f)
            (expire-Shrinks now ts))
      | inr goes ↦ rw goes (Shrinks-drop f _ ts (expire-Shrinks now ts))
    ]

-- The passing of time frees room and takes none.
pub expire-WithinQuota :
    (now : ℕ) (ts : List StoredFile) → WithinQuota ts → WithinQuota (expire now ts)
expire-WithinQuota now ts w = Shrinks-WithinQuota (expire-Shrinks now ts) w

active-append : (ts us : List StoredFile) → active (ts ++ us) ≡ active ts ++ active us
active-append [] us = refl
active-append (f ∷ ts) us = ground (arith, active-append ts us)

sum_reserved-append :
    (ts us : List StoredFile) → sum_reserved (ts ++ us) ≡ sum_reserved ts + sum_reserved us
unfolding sum_reserved
sum_reserved-append [] us = omega arith
sum_reserved-append (f ∷ ts) us = omega (arith, sum_reserved-append ts us)

grown-WithinQuota :
    (ts : List StoredFile) (f : StoredFile)
    → f.state ≡ incomplete
    → over_quota ts f.reserved ≡ false
    → WithinQuota (ts ++ f ∷ [])
unfolding over_quota sum_reserved
grown-WithinQuota ts f new room =
    let counted : active (f ∷ []) ≡ f ∷ [] = ground arith in
    let added : active (ts ++ f ∷ []) ≡ active ts ++ f ∷ [] =
      active-append ts (f ∷ []) ∙ ap (◌++◌ (active ts)) counted in
    record {
      records = ground (arith, length-append ts (f ∷ []));
      active_count = rw added (ground (arith, length-append (active ts) (f ∷ [])));
      stored = ground (arith, sum_reserved-append ts (f ∷ []));
      active_stored = rw added (ground (arith, sum_reserved-append (active ts) (f ∷ [])));
    }

-- A reservation that `create` makes leaves the account within its limits: at most 32 records, two
-- active transfers and 12 MiB reserved, in all and by the active ones.
pub create_change-WithinQuota :
    (context : FileContext) (reserved now : ℕ) (ts us : List StoredFile) (f : StoredFile)
    → create_change context reserved now ts ≡ ok (us, f)
    → WithinQuota us
unfolding create_change
create_change-WithinQuota context reserved now ts us f h =
    elim (Bool-cases (over_quota ts reserved)) [
      | inl full ↦ cc (rw full at h)
      | inr room ↦
          let same : us ≡ ts ++ f ∷ [] = ground (arith, room) in
          let new : f.state ≡ incomplete = ground (arith, room) in
          let size : f.reserved ≡ reserved = ground (arith, room) in
          rw same (grown-WithinQuota ts f new (rw size room))
    ]

modify-Shrinks :
    (auth : AuthenticatedContext) (id : String) (action : StoredFile → Result FileError StoredFile)
    (ts us : List StoredFile) (g : StoredFile)
    → ((f h : StoredFile) → action f ≡ ok h → FileShrinks h f)
    → modify auth id action ts ≡ ok (us, g)
    → Shrinks us ts
unfolding modify
modify-Shrinks auth id action [] us g shrinks h = cc
modify-Shrinks auth id action (f ∷ ts) us g shrinks h =
    elim (Bool-cases (f.context.transfer_id == id)) [
      | inl here ↦ elim (Result-cases (action f)) [
        | inl (k, changed) ↦
            let same : us ≡ k ∷ ts = ground (arith, here, changed) in
            rw same (Shrinks-cons f k ts ts (shrinks f k changed) (Shrinks-refl ts))
        | inr (e, thrown) ↦ absurd (ground (arith, here, thrown))
      ]
      | inr other ↦ elim (Result-cases (modify auth id action ts)) [
        | inl ((vs, k), changed) ↦
            let same : us ≡ f ∷ vs = ground (arith, other, changed) in
            rw same (
              Shrinks-cons f f vs ts (FileShrinks-refl f)
                (modify-Shrinks auth id action ts vs k shrinks changed))
        | inr (e, thrown) ↦ absurd (ground (arith, other, thrown))
      ]
    ]

-- An owner's change of one file keeps the limits if it reserves no more and makes nothing active.
pub modify-WithinQuota :
    (auth : AuthenticatedContext) (id : String) (action : StoredFile → Result FileError StoredFile)
    (ts us : List StoredFile) (g : StoredFile)
    → ((f h : StoredFile) → action f ≡ ok h → FileShrinks h f)
    → modify auth id action ts ≡ ok (us, g)
    → WithinQuota ts
    → WithinQuota us
modify-WithinQuota auth id action ts us g shrinks h w =
    Shrinks-WithinQuota (modify-Shrinks auth id action ts us g shrinks h) w
