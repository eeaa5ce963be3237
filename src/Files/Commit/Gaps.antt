-- ===== src/Files/Commit/Gaps.antt =====
-- backend/attachments/fileLedger.ts: what other processes do to a document between a read and a commit.
use k3ncrypt.Base.{
  ℕ, suc, zero, ◌<◌, ◌≡◌, refl, sym, ◌∙◌, ◌⊎◌, Bool, true, false, Option, none, some, List, [], ◌∷◌,
  inl, inr, arith, Bool-cases, nat_eq, any, ltb, if◌then◌else◌,
}
use k3ncrypt.Files.Ledger.{FileLedger}
use k3ncrypt.Files.Commit.{FileObjectWrite, MongoLedger, replaced, ledger_of}

-- What another process does to a document: it commits to it, which raises its revision, creates it
-- where there is none, or deletes it, as the index on its purge date does.
pub data Step : Type 0 where
  raises creates : MongoLedger → Step
  deletes : Step

abbrev pub step : Step → Option MongoLedger → Option MongoLedger
step (raises e) none = none
step (raises e) (some d) = if ltb d.ledger.revision e.ledger.revision then some e else some d
step (creates e) none = some e
step (creates e) (some d) = some d
step deletes s = none

unfoldable pub steps : List Step → Option MongoLedger → Option MongoLedger
steps [] s = s
steps (x ∷ xs) s = steps xs (step x s)

abbrev pub is_deletion : Step → Bool
is_deletion deletes = true
is_deletion (raises e) = false
is_deletion (creates e) = false

-- What the other processes made of the document before each round.
unfoldable pub world :
    (ℕ → Option MongoLedger → Option MongoLedger) → Option MongoLedger → ℕ → Option MongoLedger
world others s zero = s
world others s (suc n) = others n (world others s n)

-- A document that was deleted and created again, at the revision that it had.
pub record Recreated (gap : List Step) (s t : Option MongoLedger) : Type 0 where
  pub was : MongoLedger
  pub found : MongoLedger
  pub read : s ≡ some was
  pub there : t ≡ some found
  pub same_revision : found.ledger.revision ≡ was.ledger.revision
  pub deleted : any is_deletion gap ≡ true

-- Without a deletion a document stays, or its revision has risen.
steps_lem :
    (gap : List Step) (b : MongoLedger)
    → any is_deletion gap ≡ false
    → (steps gap (some b) ≡ some b)
      ⊎ ((e : MongoLedger) × (steps gap (some b) ≡ some e)
          × (b.ledger.revision < e.ledger.revision))
unfolding steps
steps_lem [] b h = inl refl
steps_lem (deletes ∷ gap) b h = cc
steps_lem (creates e ∷ gap) b h = steps_lem gap b h
steps_lem (raises e ∷ gap) b h = elim (Bool-cases (ltb b.ledger.revision e.ledger.revision)) [
  | inr q ↦ rw q (steps_lem gap b h)
  | inl q ↦
      let up : b.ledger.revision < e.ledger.revision = ground (arith, q) in
      rw q (elim (steps_lem gap e h) [
        | inl k ↦ inr (e, k, up)
        | inr (f, k, l) ↦ inr (f, k, omega (arith, up, l))
      ])
]

replaced-same_document :
    (gap : List Step) (b e : MongoLedger)
    → steps gap (some b) ≡ some e
    → e.ledger.revision ≡ b.ledger.revision
    → (some e ≡ some b) ⊎ Recreated gap (some b) (some e)
replaced-same_document gap b e t same = elim (Bool-cases (any is_deletion gap)) [
  | inl q ↦
      inr (record {
        was = b;
        found = e;
        read = refl;
        there = refl;
        same_revision = same;
        deleted = q;
      })
  | inr q ↦ elim (steps_lem gap b q) [
    | inl k ↦ inl (sym t ∙ k)
    | inr (f, k, l) ↦ let x : some e ≡ some f = sym t ∙ k in absurd (ground (arith, x, l, same))
  ]
]

-- A commit succeeds only on the document that was read, or on one made anew at its revision.
pub replaced-same :
    (gap : List Step) (s t : Option MongoLedger) (after : FileLedger)
    (object : Option FileObjectWrite) {d : MongoLedger}
    → steps gap s ≡ t
    → replaced (ledger_of s) after object t ≡ some d
    → ((t ≡ s) ⊎ Recreated gap s t) × (d.ledger ≡ after)
unfolding replaced
replaced-same gap none none after object q h = (inl refl, ground arith)
replaced-same gap none (some e) after object q h = cc
replaced-same gap (some b) none after object q h = cc
replaced-same gap (some b) (some e) after object {d} q h =
    let same : e.ledger.revision ≡ b.ledger.revision = ground arith in
    (replaced-same_document gap b e q same, ground arith)
