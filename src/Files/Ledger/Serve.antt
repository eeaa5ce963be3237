-- ===== src/Files/Ledger/Serve.antt =====
-- backend/attachments/fileLedger.ts: the changes of an account's ledger, one after another. Each is
-- made on what `expire` leaves; one that throws commits nothing.
use k3ncrypt.Base.{
  ℕ, ◌≡◌, inl, inr, String, string_eq, none, List, [], ◌∷◌, ◌++◌, ltb, ◌+◌, All, All-append, Result,
  ok, err, arith, Bool-cases, Result-cases, ◌>>=◌,
}
use k3ncrypt.Files.{FileContext, transfer_expiry, incomplete, reservation_bytes}
use k3ncrypt.Files.Ledger.{
  StoredFile, FileError, AuthenticatedContext, expire_file, expire, over_quota, create_change,
  modify, OwnerCall, change,
}
use k3ncrypt.Files.Ledger.Quota.{
  WithinQuota, expire-WithinQuota, create_change-WithinQuota, modify-WithinQuota,
}
use k3ncrypt.Files.Ledger.Shape.{
  IsWellFormed, expire_file-IsWellFormed, change-IsWellFormed, change-FileShrinks,
}
use k3ncrypt.Files.Ledger.Access.{modify-Modified}

-- `create`, an owner's call on a transfer, and `cleanup`.
pub data Request : Type 0 where
  creating : FileContext → Request
  owning : AuthenticatedContext → String → OwnerCall → Request
  cleaning : Request

unfoldable pub serve : ℕ → Request → List StoredFile → Result FileError (List StoredFile)
serve now (creating context) ts =
    create_change context (reservation_bytes context.file_size context.chunk_count) now
      (expire now ts)
    >>= λ r. ok r.0
serve now (owning auth id call) ts =
    modify auth id (change now call) (expire now ts) >>= λ r. ok r.0
serve now cleaning ts = ok (expire now ts)

-- What is stored after a request.
abbrev pub committed : List StoredFile → Result FileError (List StoredFile) → List StoredFile
committed ts (ok us) = us
committed ts (err e) = ts

unfoldable pub serve_all : List (ℕ × Request) → List StoredFile → List StoredFile
serve_all [] ts = ts
serve_all ((now, r) ∷ log) ts = serve_all log (committed ts (serve now r ts))

pub record IsSound (ts : List StoredFile) : Type 0 where
  pub quota : WithinQuota ts
  pub files : All IsWellFormed ts

expire-All :
    (now : ℕ) (ts : List StoredFile) → All IsWellFormed ts → All IsWellFormed (expire now ts)
unfolding expire
expire-All now [] h = tt
expire-All now (f ∷ ts) h =
    elim (Bool-cases (ltb now ((expire_file now f).expires_at + transfer_expiry))) [
      | inl stays ↦ rw stays (expire_file-IsWellFormed now f h.0, expire-All now ts h.1)
      | inr goes ↦ rw goes (expire-All now ts h.1)
    ]

expire-IsSound : (now : ℕ) (ts : List StoredFile) → IsSound ts → IsSound (expire now ts)
expire-IsSound now ts s = record {
  quota = expire-WithinQuota now ts s.quota;
  files = expire-All now ts s.files;
}

created-IsWellFormed :
    (context : FileContext) (now reserved : ℕ)
    → IsWellFormed (record {
      context = context;
      created_at = now;
      expires_at = now + transfer_expiry;
      state = incomplete;
      manifest = none;
      reserved = reserved;
      chunks = [];
    })
created-IsWellFormed context now reserved = record {
  keys = tt;
  placed = tt;
  nonces = tt;
  apart = tt;
  closed = λ c. cc;
  whole = λ c. cc;
}

create_change-IsSound :
    (context : FileContext) (reserved now : ℕ) (ts us : List StoredFile) (f : StoredFile)
    → create_change context reserved now ts ≡ ok (us, f)
    → IsSound ts
    → IsSound us
unfolding create_change
create_change-IsSound context reserved now ts us f h s =
    elim (Bool-cases (over_quota ts reserved)) [
      | inl full ↦ cc (rw full at h)
      | inr room ↦
          let same : us ≡ ts ++ f ∷ [] = ground (arith, room) in
          record {
            quota = create_change-WithinQuota context reserved now ts us f h;
            files = rw same (
                All-append IsWellFormed ts (f ∷ []) s.files (
                  (let new : f ≡ _ = ground (arith, room) in
                      rw new (created-IsWellFormed context now reserved)),
                  tt,
                ));
          }
    ]

replaced-All :
    (before after : List StoredFile) (f g : StoredFile)
    → (IsWellFormed f → IsWellFormed g)
    → All IsWellFormed (before ++ f ∷ after)
    → All IsWellFormed (before ++ g ∷ after)
replaced-All [] after f g keeps h = (keeps h.0, h.1)
replaced-All (b ∷ before) after f g keeps h = (h.0, replaced-All before after f g keeps h.1)

modify-IsSound :
    (auth : AuthenticatedContext) (id : String) (now : ℕ) (call : OwnerCall)
    (ts us : List StoredFile) (g : StoredFile)
    → modify auth id (change now call) ts ≡ ok (us, g)
    → IsSound ts
    → IsSound us
modify-IsSound auth id now call ts us g h s =
    let m = modify-Modified auth id (change now call) ts us g h in
    record {
      quota =
          modify-WithinQuota auth id (change now call) ts us g (change-FileShrinks now call) h
            s.quota;
      files = rw (m.is_now) (
          replaced-All m.before m.after m.file g (change-IsWellFormed now call m.file g m.done)
            (rw m.was at s.files));
    }

-- Every request leaves a sound account sound.
serve-IsSound :
    (now : ℕ) (r : Request) (ts us : List StoredFile)
    → serve now r ts ≡ ok us
    → IsSound ts
    → IsSound us
unfolding serve
serve-IsSound now (creating context) ts us h s =
    elim (Result-cases (
      create_change context (reservation_bytes context.file_size context.chunk_count) now
        (expire now ts))) [
          | inl ((vs, f), made) ↦
              let same : us ≡ vs = ground (arith, made) in
              rw same (
                create_change-IsSound context _ now (expire now ts) vs f made
                  (expire-IsSound now ts s))
          | inr (e, thrown) ↦ absurd (ground (arith, thrown))
        ]
serve-IsSound now (owning auth id call) ts us h s =
    elim (Result-cases (modify auth id (change now call) (expire now ts))) [
      | inl ((vs, g), made) ↦
          let same : us ≡ vs = ground (arith, made) in
          rw same
            (modify-IsSound auth id now call (expire now ts) vs g made (expire-IsSound now ts s))
      | inr (e, thrown) ↦ absurd (ground (arith, thrown))
    ]
serve-IsSound now cleaning ts us h s =
    let same : us ≡ expire now ts = ground arith in rw same (expire-IsSound now ts s)

-- Through every history of creations, owner's calls and clean-ups, at any times and whether or not
-- they succeed, an account keeps its limits (32 records, two active transfers, 12 MiB reserved in all
-- and by the active ones) and each of its transfers keeps its shape.
pub serve_all-IsSound :
    (log : List (ℕ × Request)) (ts : List StoredFile) → IsSound ts → IsSound (serve_all log ts)
unfolding serve_all
serve_all-IsSound [] ts s = s
serve_all-IsSound ((now, r) ∷ log) ts s = elim (Result-cases (serve now r ts)) [
  | inl (us, served) ↦ rw served (serve_all-IsSound log us (serve-IsSound now r ts us served s))
  | inr (e, thrown) ↦ rw thrown (serve_all-IsSound log ts s)
]
