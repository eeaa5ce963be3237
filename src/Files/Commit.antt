-- ===== src/Files/Commit.antt =====
-- backend/attachments/fileLedger.ts: how a change of a ledger is committed. One account's document
-- is replaced only if its revision is the one that was read; what other processes do in between is
-- a function on the document. Mongo's conditional update of one document is taken to be atomic, and
-- whether a call of the database is rejected, before or after it wrote, is an input.
pub mod Gaps
pub mod Atomic
mod Tests
use k3ncrypt.Base.{
  ℕ, suc, zero, ◌+◌, String, string_eq, nat_eq, Bool, true, false, not, ◌&&◌, Option, none, some,
  List, [], ◌∷◌, ltb, eqb, if◌then◌else◌, any, ◌==◌, Result, ok, err, ◌>>=◌,
}
use k3ncrypt.Base.Dict.{Dict, get, put, delete}
use k3ncrypt.Files.{WireObject}
use k3ncrypt.Files.Ledger.{StoredFile, FileLedger, FileError, storage, expire}

-- `FileObjectWrite`.
pub record FileObjectWrite : Type 0 where
  pub transfer_id : String
  pub index : ℕ
  pub value : WireObject

-- `MongoLedger`: the ledger, and the chunks' objects by transfer and index.
pub record MongoLedger : Type 0 where
  pub ledger : FileLedger
  pub objects : Dict String (Dict ℕ WireObject)

abbrev pub or_empty {ℓ κ} : {K : Type ℓ} {V : Type κ} → Option (Dict K V) → Dict K V
or_empty none = []
or_empty (some m) = m

-- `$set` of one object.
pub set_object :
    Option FileObjectWrite → Dict String (Dict ℕ WireObject) → Dict String (Dict ℕ WireObject)
set_object none objects = objects
set_object (some w) objects =
    put w.transfer_id (put w.index w.value (or_empty (get w.transfer_id objects))) objects

-- `$unset` of the objects of each transfer that held a reservation and holds none any more.
pub unset_objects :
    List StoredFile
    → List StoredFile
    → Dict String (Dict ℕ WireObject)
    → Dict String (Dict ℕ WireObject)
unset_objects [] after objects = objects
unset_objects (old ∷ before) after objects =
    let kept =
      any (λ f. f.context.transfer_id == old.context.transfer_id && ltb 0 f.reserved) after in
    unset_objects before after
      (if ltb 0 old.reserved && not kept then delete old.context.transfer_id objects else objects)

-- The filter and the update of `replace`, on what is stored when it runs; `none` writes nothing.
pub replaced :
    Option FileLedger
    → FileLedger
    → Option FileObjectWrite
    → Option MongoLedger
    → Option MongoLedger
replaced none after object none = some (record { ledger = after; objects = [] })
replaced none after object (some d) = none
replaced (some before) after object none = none
replaced (some before) after object (some d) =
    if d.ledger.revision == before.revision
    then some (record {
      ledger = after;
      objects = unset_objects before.transfers after.transfers (set_object object d.objects);
    })
    else none

-- How the database answers a write: it reports what it did, or it rejects, and may have written.
pub data Answer : Type 0 where
  reports : Answer
  rejects : (written : Bool) → Answer

-- What `replace` comes to: true, false, or a throw that leaves what is stored.
pub data Replaced : Type 0 where
  commits : MongoLedger → Replaced
  loses : Replaced
  throws : Option MongoLedger → Replaced

abbrev pub answered : Answer → Option MongoLedger → Option MongoLedger → Replaced
answered reports stored none = loses
answered reports stored (some d) = commits d
answered (rejects true) stored (some d) = throws (some d)
answered (rejects true) stored none = throws stored
answered (rejects false) stored next = throws stored

pub replace :
    Answer → Option FileLedger → FileLedger → Option FileObjectWrite → Option MongoLedger → Replaced
replace answer before after object stored =
    answered answer stored (replaced before after object stored)

-- What `atomic` throws: an error of its own or of its callbacks, or the database's.
pub data AtomicError : Type 0 where
  file_error : FileError → AtomicError
  database_error : AtomicError

-- What a call meets in each of its rounds: the time, whether the read is answered, and the answer to
-- the write.
pub record Rounds : Type 0 where
  pub now : ℕ → ℕ
  pub reads : ℕ → Bool
  pub answers : ℕ → Answer

abbrev pub ledger_of : Option MongoLedger → Option FileLedger
ledger_of none = none
ledger_of (some d) = some d.ledger

abbrev pub or_new : String → Option FileLedger → FileLedger
or_new account none = record { account = account; revision = 0; transfers = [] }
or_new account (some l) = l

module _ {ℓ} {T : Type ℓ} where
  -- One round of `atomic` up to the commit: the copy, `expire`, the change, and the next revision.
  pub prepare :
      String
      → ℕ
      → (List StoredFile → Result FileError (List StoredFile × T))
      → Option FileLedger
      → Result FileError (FileLedger × T)
  prepare account now change before =
      let start = or_new account before in
      change (expire now start.transfers) >>= λ r.
      ok (record start { transfers = r.0; revision = start.revision + 1 }, r.1)

  -- `atomic` with the rounds left, the number of this round, and the stored document: what is stored
  -- when it is over, and its result. The change and `before_commit` may answer differently each round.
  pub atomic :
      String
      → Rounds
      → (ℕ → List StoredFile → Result FileError (List StoredFile × T))
      → Option FileObjectWrite
      → (ℕ → Result FileError (Unit {0}))
      → (ℕ → Option MongoLedger → Option MongoLedger)
      → ℕ
      → ℕ
      → Option MongoLedger
      → Option MongoLedger × Result AtomicError T
  atomic account rounds change object before_commit others zero n stored =
      (stored, err (file_error storage))
  atomic account rounds change object before_commit others (suc k) n stored =
      elim (rounds.reads n) [
        | false ↦ (stored, err database_error)
        | true ↦ elim (prepare account (rounds.now n) (change n) (ledger_of stored)) [
          | err e ↦ (stored, err (file_error e))
          | ok (after, result) ↦ elim (before_commit n) [
            | err e ↦ (others n stored, err (file_error e))
            | ok _ ↦
                elim (replace (rounds.answers n) (ledger_of stored) after object
                  (others n stored)) [
                    | commits d ↦ (some d, ok result)
                    | throws left ↦ (left, err database_error)
                    | loses ↦
                        atomic account rounds change object before_commit others k (suc n)
                          (others n stored)
                  ]
          ]
        ]
      ]

-- The rounds that `atomic` makes.
abbrev pub atomic_rounds : ℕ
atomic_rounds = 12
