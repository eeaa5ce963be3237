-- ===== src/Files/Ledger.antt =====
-- backend/attachments/fileLedger.ts, the operations of one call on one account's ledger. A chunk's
-- key is its index; `size` of a chunk is what `sealed` finds in the object.
pub mod Quota
pub mod Shape
pub mod Access
pub mod Serve
mod Tests
use k3ncrypt.Base.{
  ℕ, ◌+◌, ◌-◌, ◌*◌, min, String, string_eq, nat_eq, Eq, ◌==◌, Bool, true, false, not, ◌&&◌, ◌||◌,
  Option, none, some, List, [], ◌∷◌, ◌++◌, map, leb, ltb, eqb, if◌then◌else◌, length, keep, any,
  all, find, includes, Result, ok, err, ◌>>=◌, ◌>>◌, throw_if, or_throw,
}
use k3ncrypt.Base.Dict.{Dict, get, put, has}
use k3ncrypt.Base.Text.{codes}
use k3ncrypt.Files.{
  FileBinding, FileContext, WireObject, FileState, incomplete, available, canceled, expired,
  max_chunk_size, max_metadata_size, max_active_transfers, max_stored_bytes_per_user,
  max_incomplete_bytes_per_user, max_records, transfer_expiry, ceil_div, reservation_bytes,
  bad_file_context,
}
use k3ncrypt.Files.Wire.{sealed}

pub record StoredChunk : Type 0 where
  pub nonce : String
  pub bytes : ℕ

pub record StoredFile : Type 0 where
  pub context : FileContext
  pub created_at : ℕ
  pub expires_at : ℕ
  pub state : FileState
  pub manifest : Option WireObject
  pub reserved : ℕ
  pub chunks : Dict ℕ StoredChunk

pub record FileLedger : Type 0 where
  pub account : String
  pub revision : ℕ
  pub transfers : List StoredFile

-- `FileError` by its category; `external` is a rejection of an adapter.
pub data FileError : Type 0 where
  authorization limits quota conflict incomplete_transfer expired_transfer : FileError
  canceled_transfer storage external : FileError

pub data AttachmentPermission : Type 0 where
  create write read delete : AttachmentPermission

-- The fields of `AuthenticatedContext` that the service reads.
pub record AuthenticatedContext : Type 0 where
  pub participant_id : String
  pub conversation_id : String
  pub permissions : List AttachmentPermission
  pub identity_reference : Option String
  pub account_identity_reference : Option String
  pub expires_at : ℕ

abbrev pub is_incomplete : FileState → Bool
is_incomplete incomplete = true
is_incomplete _ = false

abbrev pub is_available : FileState → Bool
is_available available = true
is_available _ = false

-- `expire`: what has run out keeps its record, without content, for another expiry period.
unfoldable pub expire_file : ℕ → StoredFile → StoredFile
expire_file now f =
    if leb f.expires_at now
    then record f { state = expired; reserved = 0; chunks = []; manifest = none }
    else f

unfoldable pub expire : ℕ → List StoredFile → List StoredFile
expire now transfers =
    keep (λ f. ltb now (f.expires_at + transfer_expiry)) (map (expire_file now) transfers)

pub sum_reserved : List StoredFile → ℕ
sum_reserved [] = 0
sum_reserved (f ∷ fs) = f.reserved + sum_reserved fs

abbrev pub active : List StoredFile → List StoredFile
active = keep (λ f. is_incomplete f.state)

-- The condition under which `create` throws for want of room.
pub over_quota : List StoredFile → ℕ → Bool
over_quota transfers reserved =
    leb max_records (length transfers)
    || leb max_active_transfers (length (active transfers))
    || ltb max_stored_bytes_per_user (sum_reserved transfers + reserved)
    || ltb max_incomplete_bytes_per_user (sum_reserved (active transfers) + reserved)

-- The change that `create` hands to `atomic`, on the transfers left by `expire`.
pub create_change :
    FileContext → ℕ → ℕ → List StoredFile → Result FileError (List StoredFile × StoredFile)
create_change context reserved now transfers = do
  throw_if (over_quota transfers reserved) quota
  let f : StoredFile = record {
    context = context;
    created_at = now;
    expires_at = now + transfer_expiry;
    state = incomplete;
    manifest = none;
    reserved = reserved;
    chunks = [];
  }
  ok (transfers ++ f ∷ [], f)

-- `live`.
pub live : StoredFile → ℕ → Result FileError (Unit {0})
live f now = elim f.state [
  | expired ↦ err expired_transfer
  | canceled ↦ if leb f.expires_at now then err expired_transfer else err canceled_transfer
  | _ ↦ throw_if (leb f.expires_at now) expired_transfer
]

-- `a === b` where the left side may be missing.
abbrev pub is_reference : Option String → String → Bool
is_reference none r = false
is_reference (some i) r = i == r

pub is_sender : AuthenticatedContext → StoredFile → Bool
is_sender auth f =
    auth.participant_id == f.context.sender_participant_id
    && is_reference auth.identity_reference f.context.sender_identity_reference

pub is_recipient : AuthenticatedContext → StoredFile → Bool
is_recipient auth f =
    auth.participant_id == f.context.recipient_participant_id
    && is_reference auth.identity_reference f.context.recipient_identity_reference

-- `authorize`: the sender for an owner's call, sender or recipient otherwise.
pub authorize : AuthenticatedContext → StoredFile → Bool → Result FileError (Unit {0})
authorize auth f owner = do
  throw_if (not (f.context.conversation_id == auth.conversation_id)) authorization
  throw_if
      (if owner
        then not (is_sender auth f)
        else not (is_sender auth f) && not (is_recipient auth f))
      authorization

-- The manifest, or a chunk by its index.
pub data Slot : Type 0 where
  manifest_slot : Slot
  chunk_slot : ℕ → Slot

abbrev pub chunk_limit : FileContext → ℕ → ℕ
chunk_limit c index = min c.chunk_size (c.file_size - index * c.chunk_size) + 16

abbrev pub put_limit : StoredFile → Slot → ℕ
put_limit f manifest_slot = max_metadata_size
put_limit f (chunk_slot index) = chunk_limit f.context index

-- The checks of an index and of a chunk's size, which a manifest passes.
abbrev pub bad_index : StoredFile → Slot → Bool
bad_index f manifest_slot = false
bad_index f (chunk_slot index) = leb f.context.chunk_count index

abbrev pub bad_size : StoredFile → Slot → ℕ → Bool
bad_size f manifest_slot size = false
bad_size f (chunk_slot index) size = not (eqb size (chunk_limit f.context index))

-- What is stored in a slot; a chunk's object is fetched from the persistence.
abbrev pub existing : StoredFile → Slot → Option WireObject → Option WireObject
existing f manifest_slot fetched = f.manifest
existing f (chunk_slot index) fetched = if has index f.chunks then fetched else none

abbrev pub manifest_nonce : String → Option WireObject → Bool
manifest_nonce n none = false
manifest_nonce n (some m) = m.nonce == n

pub chunk_nonce : String → Dict ℕ StoredChunk → Bool
chunk_nonce n [] = false
chunk_nonce n ((index, c) ∷ chunks) = c.nonce == n || chunk_nonce n chunks

abbrev pub store : StoredFile → Slot → WireObject → ℕ → StoredFile
store f manifest_slot object size = record f { manifest = some object }
store f (chunk_slot index) object size = record f {
  chunks = put index (record { nonce = object.nonce; bytes = size }) f.chunks;
}

-- `put` below its checks of the object: a repeated write of the same object changes nothing.
pub put_new : StoredFile → Slot → WireObject → ℕ → Option WireObject → Result FileError StoredFile
put_new f slot object size (some old) = do
  throw_if (not (old.nonce == object.nonce) || not (old.ciphertext == object.ciphertext)) conflict
  ok f
put_new f slot object size none = do
  throw_if (not (is_incomplete f.state)) conflict
  throw_if (manifest_nonce object.nonce f.manifest || chunk_nonce object.nonce f.chunks) conflict
  ok (store f slot object size)

pub put_change :
    Slot → WireObject → ℕ → Option WireObject → StoredFile → Result FileError StoredFile
put_change slot object now fetched f = do
  live f now
  throw_if (bad_index f slot) limits
  (nonce, ciphertext) ← or_throw (sealed object (put_limit f slot)) limits
  throw_if (bad_size f slot (length ciphertext)) limits
  put_new f slot object (length ciphertext) (existing f slot fetched)

abbrev pub has_value {ℓ} : {A : Type ℓ} → Option A → Bool
has_value none = false
has_value (some a) = true

-- Some index below `n` has no chunk.
pub some_missing : ℕ → Dict ℕ StoredChunk → Bool
some_missing ℕ.zero chunks = false
some_missing (ℕ.suc n) chunks = not (has n chunks) || some_missing n chunks

pub complete_change : ℕ → StoredFile → Result FileError StoredFile
complete_change now f = do
  live f now
  throw_if
      (not (has_value f.manifest)
        || not (eqb (length f.chunks) f.context.chunk_count)
        || some_missing f.context.chunk_count f.chunks)
      incomplete_transfer
  ok (record f { state = available })

abbrev pub cancel_state : FileState → FileState
cancel_state expired = expired
cancel_state _ = canceled

pub cancel_change : StoredFile → StoredFile
cancel_change f = record f {
  state = cancel_state f.state;
  reserved = 0;
  chunks = [];
  manifest = none;
}

-- `chunk`, with the object that the persistence has for the index.
pub chunk_read :
    AuthenticatedContext → ℕ → ℕ → Option WireObject → StoredFile → Result FileError WireObject
chunk_read auth index now fetched f = do
  live f now
  throw_if (not (auth.participant_id == f.context.recipient_participant_id)) authorization
  throw_if (not (is_available f.state)) incomplete_transfer
  throw_if (leb f.context.chunk_count index || not (has index f.chunks)) limits
  or_throw fetched storage

-- The owner's access to the transfer with an identifier, in the list left by `expire`: the first
-- such record is checked and replaced.
pub modify :
    AuthenticatedContext
    → String
    → (StoredFile → Result FileError StoredFile)
    → List StoredFile
    → Result FileError (List StoredFile × StoredFile)
modify auth id action [] = err authorization
modify auth id action (f ∷ fs) = elim (f.context.transfer_id == id) [
  | true ↦ do authorize auth f true; g ← action f; ok (g ∷ fs, g)
  | false ↦ do (gs, g) ← modify auth id action fs; ok (f ∷ gs, g)
]

-- The owner's calls: `put`, `complete` and `cancel`.
pub data OwnerCall : Type 0 where
  putting : Slot → WireObject → Option WireObject → OwnerCall
  completing canceling : OwnerCall

pub change : ℕ → OwnerCall → StoredFile → Result FileError StoredFile
change now (putting slot object fetched) f = put_change slot object now fetched f
change now completing f = complete_change now f
change now canceling f = ok (cancel_change f)
