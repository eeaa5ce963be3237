-- ===== src/Files/Commit/Tests.antt =====
-- Rounds of `atomic` of backend/attachments/fileLedger.ts with another process in between.
use k3ncrypt.Base.{
  ℕ, suc, zero, ◌+◌, ◌≡◌, refl, true, ◌⊎◌, string_eq, nat_eq, Option, some, none, List, [], ◌∷◌, ok,
  err, Result,
}
use k3ncrypt.Base.Dict.{get, put, delete}
use k3ncrypt.Files.Ledger.{StoredFile, FileError, storage, conflict, expire}
use k3ncrypt.Files.Commit.{
  MongoLedger, Answer, reports, rejects, Rounds, file_error, database_error, set_object,
  unset_objects, replaced, replace, prepare, atomic, atomic_rounds,
}
use k3ncrypt.Files.Commit.Gaps.{Step, raises, creates, deletes, steps, world}
use k3ncrypt.Files.Commit.Atomic.{Commits, Unconfirmed, atomic-Commits, atomic_throws_nothing}

rounds_run : Unit {0}
unfolding get put delete set_object unset_objects replaced replace prepare steps atomic world expire
rounds_run = tt

abbrev stored_at : ℕ → MongoLedger
stored_at n = record {
  ledger = record { account = "a"; revision = n; transfers = [] };
  objects = [];
}

-- Another process commits once, before the first commit.
abbrev once : ℕ → List Step
once zero = raises (stored_at 4) ∷ []
once (suc n) = []

-- It commits in every round.
abbrev always : ℕ → List Step
always n = raises (stored_at (n + 4)) ∷ []

-- The document is deleted and created again, before the first commit.
abbrev anew : ℕ → List Step
anew zero = deletes ∷ creates (record (stored_at 3) { objects = ("t", []) ∷ [] }) ∷ []
anew (suc n) = []

abbrev between : (ℕ → List Step) → ℕ → Option MongoLedger → Option MongoLedger
between gaps n = steps (gaps n)

abbrev keep_all : ℕ → List StoredFile → Result FileError (List StoredFile × ℕ)
keep_all n ts = ok (ts, n)

abbrev refusing : ℕ → List StoredFile → Result FileError (List StoredFile × ℕ)
refusing n ts = err conflict

abbrev allowed : ℕ → Result FileError (Unit {0})
allowed n = ok tt

abbrev healthy : Rounds
healthy = record { now = λ n. 0; reads = λ n. true; answers = λ n. reports }

-- The second write is made and rejected.
abbrev unsure : ℕ → Answer
unsure zero = reports
unsure (suc n) = rejects true

-- The second round succeeds; against a process that never rests, all rounds are lost; a document
-- made anew at the revision that was read is replaced.
round_tests :
    (atomic "a" healthy keep_all none allowed (between once) atomic_rounds 0 (some (stored_at 3))
      ≡ (some (stored_at 5), ok 1))
    × (atomic "a" healthy keep_all none allowed
          (between always)
          atomic_rounds
          0
          (some (stored_at 3))
        ≡ (some (stored_at 15), err (file_error storage)))
    × (atomic "a" healthy keep_all none allowed (between anew) atomic_rounds 0 (some (stored_at 3))
        ≡ (some (record (stored_at 4) { objects = ("t", []) ∷ [] }), ok 0))
unfolding rounds_run
round_tests = (refl, refl, refl)

atomic-Commits_example :
    Commits "a" healthy keep_all none allowed once (some (stored_at 3)) (some (stored_at 5)) 1
atomic-Commits_example =
    atomic-Commits "a" healthy keep_all none allowed once atomic_rounds (some (stored_at 3))
      round_tests.0

refusing_test :
    atomic "a" healthy refusing none allowed (between once) atomic_rounds 0 (some (stored_at 3))
    ≡ (some (stored_at 3), err (file_error conflict))
unfolding rounds_run
refusing_test = refl

-- The write is made, and its answer is a rejection: the change stays.
unsure_test :
    atomic "a"
      (record healthy { answers = unsure })
      keep_all
      none
      allowed
      (between once)
      atomic_rounds
      0
      (some (stored_at 3))
    ≡ (some (stored_at 5), err database_error)
unfolding rounds_run
unsure_test = refl

atomic_throws_nothing_example :
    ((m : ℕ) × (some (stored_at 5) ≡ world (between once) (some (stored_at 3)) m))
    ⊎ Unconfirmed "a"
        (record healthy { answers = unsure })
        keep_all
        none
        allowed
        (between once)
        (some (stored_at 3))
        (some (stored_at 5))
        database_error
atomic_throws_nothing_example =
    atomic_throws_nothing "a" (record healthy { answers = unsure }) keep_all none allowed
      (between once) atomic_rounds (some (stored_at 3)) unsure_test
