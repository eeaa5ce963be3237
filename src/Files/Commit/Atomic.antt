-- ===== src/Files/Commit/Atomic.antt =====
-- backend/attachments/fileLedger.ts: what a call of `atomic` leaves, with what others do in between.
use k3ncrypt.Base.{
  ℕ, suc, zero, ◌≡◌, refl, sym, ◌⊎◌, String, Bool, true, false, Option, some, List, inl, inr,
  Result, ok, err, arith, Result-cases, Option-cases, Bool-cases, nat_eq,
}
use mathlib.Core.Path.{subst}
use k3ncrypt.Files.Ledger.{StoredFile, FileLedger, FileError}
use k3ncrypt.Files.Commit.{
  FileObjectWrite, MongoLedger, Answer, reports, rejects, replaced, replace, AtomicError,
  file_error, database_error, Rounds, ledger_of, prepare, atomic,
}
use k3ncrypt.Files.Commit.Gaps.{Step, steps, world, Recreated, replaced-same}

Answer-cases : (a : Answer) → (a ≡ reports) ⊎ ((w : Bool) × (a ≡ rejects w))
Answer-cases reports = inl refl
Answer-cases (rejects w) = inr (w, refl)

module _ {ℓ} {T : Type ℓ} (account : String) (rounds : Rounds)
    (change : ℕ → List StoredFile → Result FileError (List StoredFile × T))
    (object : Option FileObjectWrite) (before_commit : ℕ → Result FileError (Unit {0}))
    (others : ℕ → Option MongoLedger → Option MongoLedger) where
  -- The change that was written, and when.
  pub record Written (start : Option MongoLedger) (final : Option MongoLedger) (result : T)
      : Type ℓ where
    pub round : ℕ
    pub after : FileLedger
    pub document : MongoLedger
    pub prepared :
        prepare account (rounds.now round) (change round) (ledger_of (world others start round))
        ≡ ok (after, result)
    pub committed :
        replaced
          (ledger_of (world others start round))
          after
          object
          (world others start (suc round))
        ≡ some document
    pub stored : final ≡ some document

  -- A write that the database rejected after making it.
  pub record Unconfirmed (start : Option MongoLedger) (final : Option MongoLedger) (e : AtomicError)
      : Type ℓ where
    pub result : T
    pub written : Written start final result
    pub answer : rounds.answers (written.round) ≡ rejects true
    pub error : e ≡ database_error

  -- How a call of `atomic` may end.
  abbrev pub Ends : Option MongoLedger → Option MongoLedger → Result AtomicError T → Type ℓ
  Ends start final (ok result) = Written start final result
  Ends start final (err e) = ((m : ℕ) × (final ≡ world others start m)) ⊎ Unconfirmed start final e

  abbrev call : ℕ → ℕ → Option MongoLedger → Option MongoLedger × Result AtomicError T
  call k n start =
      atomic account rounds change object before_commit others k n (world others start n)

  by_end :
      (start : Option MongoLedger) {x : Option MongoLedger × Result AtomicError T}
      (final : Option MongoLedger) (r : Result AtomicError T)
      → x ≡ (final, r)
      → Ends start final r
      → Ends start x.0 x.1
  by_end start final r h e = subst (λ y. Ends start y.0 y.1) (sym h) e

  -- A round whose change and check have passed, by what the database then answers.
  write-Ends :
      (k n : ℕ) (start : Option MongoLedger) (after : FileLedger) (result : T)
      → rounds.reads n ≡ true
      → prepare account (rounds.now n) (change n) (ledger_of (world others start n))
        ≡ ok (after, result)
      → before_commit n ≡ ok tt
      → Ends start (call k (suc n) start).0 (call k (suc n) start).1
      → Ends start (call (suc k) n start).0 (call (suc k) n start).1
  unfolding atomic replace world
  write-Ends k n start after result r p b rest =
      let s = world others start n in
      let t = others n s in
      elim (Option-cases (replaced (ledger_of s) after object t)) [
        | inl q ↦ elim (Answer-cases (rounds.answers n)) [
          | inl a ↦
              by_end start (call k (suc n) start).0 (call k (suc n) start).1
                (ground (arith, r, p, b, q, a)) rest
          | inr (true, a) ↦
              by_end start t (err database_error) (ground (arith, r, p, b, q, a))
                (inl (suc n, refl))
          | inr (false, a) ↦
              by_end start t (err database_error) (ground (arith, r, p, b, q, a))
                (inl (suc n, refl))
        ]
        | inr (d, q) ↦
            let made : Written start (some d) result = record {
              round = n;
              after = after;
              document = d;
              prepared = p;
              committed = q;
              stored = refl;
            } in
            elim (Answer-cases (rounds.answers n)) [
              | inl a ↦ by_end start (some d) (ok result) (ground (arith, r, p, b, q, a)) made
              | inr (false, a) ↦
                  by_end start t (err database_error) (ground (arith, r, p, b, q, a))
                    (inl (suc n, refl))
              | inr (true, a) ↦
                  by_end start (some d) (err database_error) (ground (arith, r, p, b, q, a))
                    (inr (record { result = result; written = made; answer = a; error = refl }))
            ]
      ]

  atomic-Ends_from :
      (k n : ℕ) (start : Option MongoLedger) → Ends start (call k n start).0 (call k n start).1
  unfolding atomic world
  atomic-Ends_from zero n start = inl (n, refl)
  atomic-Ends_from (suc k) n start =
      let s = world others start n in
      elim (Bool-cases (rounds.reads n)) [
        | inr r ↦ by_end start s (err database_error) (ground (arith, r)) (inl (n, refl))
        | inl r ↦ elim (Result-cases (prepare account (rounds.now n) (change n) (ledger_of s))) [
          | inr (e, p) ↦ by_end start s (err (file_error e)) (ground (arith, r, p)) (inl (n, refl))
          | inl ((after, result), p) ↦ elim (Result-cases (before_commit n)) [
            | inr (e, b) ↦
                by_end start (others n s) (err (file_error e)) (ground (arith, r, p, b))
                  (inl (suc n, refl))
            | inl (_, b) ↦
                write-Ends k n start after result r p b (atomic-Ends_from k (suc n) start)
          ]
        ]
      ]

  -- When `atomic` throws, for whatever reason, what is stored is what the other processes have made of
  -- it by some round, with none of its own change; or its error is the database's, which made the write
  -- of some round and rejected it all the same, and what is stored is that write: the change, as prepared
  -- on what that round had read, on a document that met the write's condition.
  pub atomic_throws_nothing :
      (k : ℕ) (start : Option MongoLedger) {final : Option MongoLedger} {e : AtomicError}
      → atomic account rounds change object before_commit others k zero start ≡ (final, err e)
      → ((m : ℕ) × (final ≡ world others start m)) ⊎ Unconfirmed start final e
  unfolding world
  atomic_throws_nothing k start h =
      subst (λ r. Ends start r.0 r.1) h (atomic-Ends_from k zero start)

  pub atomic-Written :
      (k : ℕ) (start : Option MongoLedger) {final : Option MongoLedger} {result : T}
      → atomic account rounds change object before_commit others k zero start ≡ (final, ok result)
      → Written start final result
  unfolding world
  atomic-Written k start h = subst (λ r. Ends start r.0 r.1) h (atomic-Ends_from k zero start)

module _ {ℓ} {T : Type ℓ} (account : String) (rounds : Rounds)
    (change : ℕ → List StoredFile → Result FileError (List StoredFile × T))
    (object : Option FileObjectWrite) (before_commit : ℕ → Result FileError (Unit {0}))
    (gaps : ℕ → List Step) where
  abbrev pub between : ℕ → Option MongoLedger → Option MongoLedger
  between n = steps (gaps n)

  -- A round whose change is applied to what is stored then.
  pub record Commits (start : Option MongoLedger) (final : Option MongoLedger) (result : T)
      : Type ℓ where
    pub round : ℕ
    pub after : FileLedger
    pub document : MongoLedger
    pub prepared :
        prepare account (rounds.now round) (change round) (ledger_of (world between start round))
        ≡ ok (after, result)
    pub undisturbed :
        (world between start (suc round) ≡ world between start round)
        ⊎ Recreated (gaps round) (world between start round) (world between start (suc round))
    pub stored : final ≡ some document
    pub ledger : document.ledger ≡ after

  -- When `atomic` returns a result, the stored ledger is exactly the change, made at some round, of the
  -- ledger that this round has read; and at its commit what is stored is what it has read, so that no
  -- update is lost, except where between the two the document was deleted and created again at the very
  -- revision that was read. The other processes may raise the document's revision, create it and
  -- delete it, any number of times, in each round.
  pub atomic-Commits :
      (k : ℕ) (start : Option MongoLedger) {final : Option MongoLedger} {result : T}
      → atomic account rounds change object before_commit between k zero start ≡ (final, ok result)
      → Commits start final result
  unfolding world
  atomic-Commits k start h =
      let w = atomic-Written account rounds change object before_commit between k start h in
      let (undisturbed, ledger) =
        replaced-same (gaps w.round) (world between start w.round)
          (world between start (suc w.round)) w.after object refl w.committed in
      record {
        round = w.round;
        after = w.after;
        document = w.document;
        prepared = w.prepared;
        undisturbed = undisturbed;
        stored = w.stored;
        ledger = ledger;
      }
