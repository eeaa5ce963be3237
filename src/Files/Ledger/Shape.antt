-- ===== src/Files/Ledger/Shape.antt =====
-- backend/attachments/fileLedger.ts: what a stored transfer looks like, kept by every change.
use k3ncrypt.Base.{
  ℕ, ◌<◌, ◌≡◌, refl, String, string_eq, nat_eq, Bool, true, false, Option, none, some, [], ◌∷◌, leb,
  eqb_iff, length, ok, arith, Bool-cases, Option-cases, inl, inr, ◌==◌, All,
}
use text.Mathlib.TextEquality.{eq_iff}
use k3ncrypt.Base.Dict.{Dict, IsDict, put, put-IsDict}
use k3ncrypt.Files.{FileContext, WireObject, FileState, available, canceled, expired}
use k3ncrypt.Files.Wire.{sealed}
use k3ncrypt.Files.Ledger.Quota.{FileShrinks}
use k3ncrypt.Files.Ledger.{
  StoredChunk, StoredFile, Slot, manifest_slot, chunk_slot, chunk_limit, is_incomplete, expire_file,
  live, put_limit, bad_index, bad_size, existing, manifest_nonce, chunk_nonce, store, put_new,
  put_change, has_value, some_missing, complete_change, cancel_state, cancel_change, OwnerCall,
  putting, completing, canceling, change,
}

-- A chunk lies within the file, with exactly the size of its piece and its tag.
abbrev pub Placed : FileContext → ℕ × StoredChunk → Type 0
Placed c (index, chunk) = (index < c.chunk_count) × (chunk.bytes ≡ chunk_limit c index)

abbrev pub NoncesDistinct : Dict ℕ StoredChunk → Type 0
NoncesDistinct [] = Unit
NoncesDistinct ((index, c) ∷ m) = (chunk_nonce c.nonce m ≡ false) × NoncesDistinct m

abbrev pub ApartFrom : Option WireObject → Dict ℕ StoredChunk → Type 0
ApartFrom none m = Unit
ApartFrom (some w) m = chunk_nonce w.nonce m ≡ false

abbrev pub is_closed : FileState → Bool
is_closed canceled = true
is_closed expired = true
is_closed _ = false

pub record IsWellFormed (f : StoredFile) : Type 0 where
  pub keys : IsDict f.chunks
  pub placed : All (Placed f.context) f.chunks
  pub nonces : NoncesDistinct f.chunks
  pub apart : ApartFrom f.manifest f.chunks
  pub closed : is_closed f.state ≡ true → (f.reserved ≡ 0) × (f.chunks ≡ []) × (f.manifest ≡ none)
  pub whole :
      f.state ≡ available
      → (has_value f.manifest ≡ true)
        × (length f.chunks ≡ f.context.chunk_count)
        × (some_missing f.context.chunk_count f.chunks ≡ false)

put-Placed :
    (c : FileContext) (index : ℕ) (chunk : StoredChunk) (m : Dict ℕ StoredChunk)
    → Placed c (index, chunk)
    → All (Placed c) m
    → All (Placed c) (put index chunk m)
unfolding put
put-Placed c index chunk [] h k = (h, tt)
put-Placed c index chunk ((j, old) ∷ m) h k =
    ground (arith, put-Placed c index chunk m h k.1, eqb_iff j index)

chunk_nonce-put :
    (n : String) (index : ℕ) (chunk : StoredChunk) (m : Dict ℕ StoredChunk)
    → (chunk.nonce == n) ≡ false
    → chunk_nonce n m ≡ false
    → chunk_nonce n (put index chunk m) ≡ false
unfolding put chunk_nonce
chunk_nonce-put n index chunk [] h k = ground arith
chunk_nonce-put n index chunk ((j, old) ∷ m) h k = ground (arith, chunk_nonce-put n index chunk m h)

put-NoncesDistinct :
    (index : ℕ) (chunk : StoredChunk) (m : Dict ℕ StoredChunk)
    → chunk_nonce chunk.nonce m ≡ false
    → NoncesDistinct m
    → NoncesDistinct (put index chunk m)
unfolding put chunk_nonce
put-NoncesDistinct index chunk [] h k = (refl, tt)
put-NoncesDistinct index chunk ((j, old) ∷ m) h k = ground (
  arith,
  put-NoncesDistinct index chunk m,
  chunk_nonce-put old.nonce index chunk m,
  eq_iff chunk.nonce old.nonce,
  eq_iff old.nonce chunk.nonce,
)

apart-put :
    (o : Option WireObject) (index : ℕ) (chunk : StoredChunk) (m : Dict ℕ StoredChunk)
    → manifest_nonce chunk.nonce o ≡ false
    → ApartFrom o m
    → ApartFrom o (put index chunk m)
apart-put none index chunk m h k = tt
apart-put (some w) index chunk m h k =
    chunk_nonce-put w.nonce index chunk m
      (ground (arith, eq_iff chunk.nonce w.nonce, eq_iff w.nonce chunk.nonce)) k

-- Storing an object in a slot of an incomplete file, under the checks of `put`.
store-IsWellFormed :
    (f : StoredFile) (slot : Slot) (object : WireObject) (size : ℕ)
    → is_incomplete f.state ≡ true
    → bad_index f slot ≡ false
    → bad_size f slot size ≡ false
    → manifest_nonce object.nonce f.manifest ≡ false
    → chunk_nonce object.nonce f.chunks ≡ false
    → IsWellFormed f
    → IsWellFormed (store f slot object size)
store-IsWellFormed f manifest_slot object size open_file in_range right_size n1 n2 v = record {
  keys = v.keys;
  placed = v.placed;
  nonces = v.nonces;
  apart = n2;
  closed = λ h. ground (arith, open_file, h);
  whole = λ h. ground (arith, open_file, h);
}
store-IsWellFormed f (chunk_slot index) object size open_file in_range right_size n1 n2 v = record {
  keys = put-IsDict index _ f.chunks v.keys;
  placed = put-Placed f.context index _ f.chunks (ground arith, ground arith) v.placed;
  nonces = put-NoncesDistinct index _ f.chunks n2 v.nonces;
  apart = apart-put f.manifest index _ f.chunks n1 v.apart;
  closed = λ h. ground (arith, open_file, h);
  whole = λ h. ground (arith, open_file, h);
}

put_new-IsWellFormed :
    (f g : StoredFile) (slot : Slot) (object : WireObject) (size : ℕ) (old : Option WireObject)
    → bad_index f slot ≡ false
    → bad_size f slot size ≡ false
    → put_new f slot object size old ≡ ok g
    → IsWellFormed f
    → IsWellFormed g
unfolding put_new
put_new-IsWellFormed f g slot object size (some w) in_range right_size h v =
    let same : g ≡ f = ground arith in rw same v
put_new-IsWellFormed f g slot object size none in_range right_size h v =
    let same : g ≡ store f slot object size = ground arith in
    rw same (
      store-IsWellFormed f slot object size (ground arith) in_range right_size (ground arith)
        (ground arith) v)

put_change-put_new :
    (slot : Slot) (object : WireObject) (now : ℕ) (fetched : Option WireObject) (f g : StoredFile)
    → put_change slot object now fetched f ≡ ok g
    → (size : ℕ) × (bad_index f slot ≡ false)
      × (bad_size f slot size ≡ false)
      × (put_new f slot object size (existing f slot fetched) ≡ ok g)
unfolding put_change
put_change-put_new slot object now fetched f g h =
    elim (Option-cases (sealed object (put_limit f slot))) [
      | inl bad ↦ absurd (ground (arith, bad))
      | inr ((nonce, ciphertext), opened) ↦ (
        length ciphertext,
        ground (arith, opened),
        ground (arith, opened),
        ground (arith, opened),
      )
    ]

complete_change-IsWellFormed :
    (now : ℕ) (f g : StoredFile) → complete_change now f ≡ ok g → IsWellFormed f → IsWellFormed g
unfolding complete_change
complete_change-IsWellFormed now f g h v =
    let same : g ≡ record f { state = available } = ground arith in
    rw same (record {
      keys = v.keys;
      placed = v.placed;
      nonces = v.nonces;
      apart = v.apart;
      closed = λ c. cc;
      whole = λ c. (ground arith, ground arith, ground arith);
    })

emptied-IsWellFormed :
    (f : StoredFile) (state : FileState)
    → (state ≡ available → ⊥)
    → IsWellFormed (record f { state = state; reserved = 0; chunks = []; manifest = none })
emptied-IsWellFormed f state closed_state = record {
  keys = tt;
  placed = tt;
  nonces = tt;
  apart = tt;
  closed = λ c. (refl, refl, refl);
  whole = λ c. absurd (closed_state c);
}

-- A file keeps its shape when time passes.
pub expire_file-IsWellFormed :
    (now : ℕ) (f : StoredFile) → IsWellFormed f → IsWellFormed (expire_file now f)
unfolding expire_file
expire_file-IsWellFormed now f v = elim (Bool-cases (leb f.expires_at now)) [
  | inl over ↦ rw over (emptied-IsWellFormed f expired (λ e. cc))
  | inr live ↦ rw live v
]

cancel_change-IsWellFormed : (f : StoredFile) → IsWellFormed (cancel_change f)
unfolding cancel_change
cancel_change-IsWellFormed f = emptied-IsWellFormed f (cancel_state f.state) (λ e. ground arith)

put_new-FileShrinks :
    (f g : StoredFile) (slot : Slot) (object : WireObject) (size : ℕ) (old : Option WireObject)
    → put_new f slot object size old ≡ ok g
    → FileShrinks g f
unfolding put_new
put_new-FileShrinks f g slot object size (some w) h = ground arith
put_new-FileShrinks f g manifest_slot object size none h = ground arith
put_new-FileShrinks f g (chunk_slot index) object size none h = ground arith

complete_change-FileShrinks :
    (now : ℕ) (f g : StoredFile) → complete_change now f ≡ ok g → FileShrinks g f
unfolding complete_change
complete_change-FileShrinks now f g h = ground arith

cancel_change-FileShrinks : (f : StoredFile) → FileShrinks (cancel_change f) f
unfolding cancel_change
cancel_change-FileShrinks f = ground arith

-- Every owner's call that succeeds keeps the shape of a transfer: distinct chunk indices within the
-- file, every chunk of exactly its size, no nonce used twice among the chunks and the manifest, no
-- content or reservation once closed, and all chunks and the manifest present once available.
pub change-IsWellFormed :
    (now : ℕ) (call : OwnerCall) (f g : StoredFile)
    → change now call f ≡ ok g
    → IsWellFormed f
    → IsWellFormed g
unfolding change
change-IsWellFormed now (putting slot object fetched) f g h v =
    let (size, in_range, right_size, done) = put_change-put_new slot object now fetched f g h in
    put_new-IsWellFormed f g slot object size (existing f slot fetched) in_range right_size done v
change-IsWellFormed now completing f g h v = complete_change-IsWellFormed now f g h v
change-IsWellFormed now canceling f g h v =
    let same : g ≡ cancel_change f = ground arith in rw same (cancel_change-IsWellFormed f)

-- An owner's call reserves no more, and reopens nothing.
pub change-FileShrinks :
    (now : ℕ) (call : OwnerCall) (f g : StoredFile) → change now call f ≡ ok g → FileShrinks g f
unfolding change
change-FileShrinks now (putting slot object fetched) f g h =
    let (size, _, _, done) = put_change-put_new slot object now fetched f g h in
    put_new-FileShrinks f g slot object size (existing f slot fetched) done
change-FileShrinks now completing f g h = complete_change-FileShrinks now f g h
change-FileShrinks now canceling f g h =
    let same : g ≡ cancel_change f = ground arith in rw same (cancel_change-FileShrinks f)
