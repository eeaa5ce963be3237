-- ===== src/Contacts/Turns.antt =====
-- What the calls of service/src/identity/contactIdentityRegistry.ts can do to one contact: every
-- call, as a sequence of turns of that contact's record.
use k3ncrypt.Base.{
  ℕ, ◌≡◌, refl, sym, ap, ◌∙◌, inl, inr, String, string_eq, ◌==◌, Bool, true, false, Option, none,
  some, List, [], ◌∷◌, arith, any, Bool-cases, Option-cases, Result-cases, ok,
}
use k3ncrypt.Base.Dict.{get, get-put, get-put_self}
use text.Mathlib.TextEquality.{eq_iff}
use k3ncrypt.Contacts.{
  verified, PresentedIdentity, StoredContactIdentity, Stored, corrupted, contact, Reset, Storage,
  ContactError, unknown_contact, verification_unavailable, first_seen, Swaps, Answer, is_unchanged,
  same_identity, stored_as, write_record, downgraded, Recovery, as_stored, bad_marker, downgrade,
  recovery_of, apply_recovery_reset, and_then, new_contact, changed_contact, compare, observe,
  with_contact, differs, verify, mark_verified, mark_unverified, get_contact, is_guarded, guards_of,
  prepare_verified_file_guards, accept, accept_pending_change,
}

pub data Call : Type 0 where
  observing : (id : String) (now : ℕ) (presented : PresentedIdentity) (swaps : Swaps) → Call
  verifying : (id : String) (now : ℕ) (expected : Option String) (swapped : Bool) → Call
  unverifying : (id : String) (swapped : Bool) → Call
  getting : (id : String) (persist swapped : Bool) → Call
  guarding : (id identity : String) (swapped : Bool) → Call
  accepting : (id : String) (swapped : Bool) → Call
  -- A recovery leaves its marker.
  recovering : Reset → Call

unfoldable pub call : Call → Storage → Storage
call (observing id now presented swaps) s = (observe id now presented swaps s).storage
call (verifying id now expected swapped) s = (mark_verified id now expected swapped s).storage
call (unverifying id swapped) s = (mark_unverified id swapped s).storage
call (getting id persist swapped) s = (get_contact id persist swapped s).storage
call (guarding id identity swapped) s = (prepare_verified_file_guards id identity swapped s).storage
call (accepting id swapped) s = (accept_pending_change id swapped s).storage
call (recovering marker) s = record s { reset = some marker }

unfoldable pub run : List Call → Storage → Storage
run [] s = s
run (e ∷ es) s = run es (call e s)

abbrev pub accepts : String → Call → Bool
accepts id (accepting other swapped) = other == id
accepts id (observing other now presented swaps) = false
accepts id (verifying other now expected swapped) = false
accepts id (unverifying other swapped) = false
accepts id (getting other persist swapped) = false
accepts id (guarding other identity swapped) = false
accepts id (recovering marker) = false

abbrev pub verifies : String → Call → Bool
verifies id (verifying other now expected swapped) = other == id
verifies id (observing other now presented swaps) = false
verifies id (accepting other swapped) = false
verifies id (unverifying other swapped) = false
verifies id (getting other persist swapped) = false
verifies id (guarding other identity swapped) = false
verifies id (recovering marker) = false

-- Turns of the record of the contact `id`; `a` and `v` say whether an acceptance and a verification
-- of it are among the calls.
pub data Turns (a v : Bool) (id : String) : Option Stored → Option Stored → Type 0 where
  rests : {o : Option Stored} → Turns a v id o o
  meets :
      {o : Option Stored} (p : PresentedIdentity)
      → Turns a v id (some (contact (new_contact id p))) o
      → Turns a v id none o
  loses :
      {o : Option Stored} (c : StoredContactIdentity)
      → Turns a v id (some (contact (downgraded c))) o
      → Turns a v id (some (contact c)) o
  changes :
      {o : Option Stored} (now : ℕ) (p : PresentedIdentity) (c : StoredContactIdentity)
      → same_identity c.identity p ≡ false
      → Turns a v id (some (contact (changed_contact now p c))) o
      → Turns a v id (some (contact c)) o
  checks :
      {o : Option Stored} (now : ℕ) (c : StoredContactIdentity)
      → v ≡ true
      → is_unchanged c.change_status ≡ true
      → Turns a v id
          (some (contact (record c { verification = verified; verified_at = some now })))
          o
      → Turns a v id (some (contact c)) o
  adopts :
      {o : Option Stored} (p : PresentedIdentity) (c : StoredContactIdentity)
      → a ≡ true
      → c.pending_identity ≡ some p
      → Turns a v id (some (contact (new_contact id p))) o
      → Turns a v id (some (contact c)) o

pub append-Turns :
    {a v : Bool} {id : String} (o p q : Option Stored)
    → Turns a v id o p
    → Turns a v id p q
    → Turns a v id o q
append-Turns o p q rests t = t
append-Turns o p q (meets x r) t = meets x (append-Turns _ p q r t)
append-Turns o p q (loses c r) t = loses c (append-Turns _ p q r t)
append-Turns o p q (changes now x c e r) t = changes now x c e (append-Turns _ p q r t)
append-Turns o p q (checks now c e f r) t = checks now c e f (append-Turns _ p q r t)
append-Turns o p q (adopts x c e f r) t = adopts x c e f (append-Turns _ p q r t)

-- Each contact stands under its own identifier.
unfoldable pub IsFiled : Storage → Type 0
IsFiled s =
    (id : String) (c : StoredContactIdentity)
    → get id s.contacts ≡ some (contact c)
    → c.contact_id ≡ id

written_kept :
    (j : String) (swapped : Bool) (c d : StoredContactIdentity) (s : Storage)
    → (write_record j swapped c c s).result ≡ ok d
    → get j (write_record j swapped c c s).storage.contacts ≡ some (contact d)
unfolding write_record stored_as
written_kept j false c d s q = absurd (ground (arith, q))
written_kept j true c d s q =
    get-put_self j (contact c) s.contacts ∙ ap (λ x. some (contact x)) (ground (arith, q))

reset_kept :
    (j : String) (c d : StoredContactIdentity) (swapped : Bool) (s : Storage)
    → get j s.contacts ≡ some (contact c)
    → c.contact_id ≡ j
    → (apply_recovery_reset c true swapped s).result ≡ ok d
    → get j (apply_recovery_reset c true swapped s).storage.contacts ≡ some (contact d)
unfolding apply_recovery_reset write_record stored_as
reset_kept j c d swapped s h f = kept (recovery_of s.reset c) refl
  where
    kept :
        (r : Recovery)
        → recovery_of s.reset c ≡ r
        → (apply_recovery_reset c true swapped s).result ≡ ok d
        → get j (apply_recovery_reset c true swapped s).storage.contacts ≡ some (contact d)
    kept as_stored e q =
        rw (e, apply_recovery_reset)
          (h ∙ ap (λ x. some (contact x)) (ground (arith, rw (e, apply_recovery_reset) at q)))
    kept bad_marker e q = absurd (ground (arith, rw (e, apply_recovery_reset) at q))
    kept downgrade e q =
        rw (e, apply_recovery_reset)
          (ap
              (λ k.
                get k
                  (write_record c.contact_id swapped (downgraded c) (downgraded c)
                    s).storage.contacts)
              (sym f)
            ∙ written_kept c.contact_id swapped (downgraded c) d s
                (rw (e, apply_recovery_reset) at q))

module _ (a v : Bool) (id : String) where
  abbrev pub Turned : Storage → Storage → Type 0
  Turned s t = Turns a v id (get id s.contacts) (get id t.contacts)

  -- A write of the record of `j`: a turn where `j` is this contact, nothing where it is another one.
  written-Turns :
      {A : Type 0} (j : String) (swapped : Bool) (d : StoredContactIdentity) (x : A) (s : Storage)
      → ((j == id) ≡ true → Turns a v id (get id s.contacts) (some (contact d)))
      → Turned s (write_record j swapped d x s).storage
  unfolding write_record stored_as
  written-Turns j false d x s t = rests
  written-Turns j true d x s t = elim (Bool-cases (j == id)) [
    | inl e ↦ rw (get-put j id (contact d) s.contacts, e) (t e)
    | inr e ↦ rw (get-put j id (contact d) s.contacts, e) rests
  ]

  here_turn :
      (j : String) (c d : StoredContactIdentity) (s : Storage)
      → get j s.contacts ≡ some (contact c)
      → ((j == id) ≡ true → Turns a v id (some (contact c)) (some (contact d)))
      → (j == id) ≡ true
      → Turns a v id (get id s.contacts) (some (contact d))
  here_turn j c d s h t e =
      let same : j ≡ id = (eq_iff j id).0 e in
      let k : get id s.contacts ≡ some (contact c) = rw same at h in rw k (t e)

  reset-Turns :
      (j : String) (c : StoredContactIdentity) (persist swapped : Bool) (s : Storage)
      → get j s.contacts ≡ some (contact c)
      → c.contact_id ≡ j
      → Turned s (apply_recovery_reset c persist swapped s).storage
  unfolding apply_recovery_reset
  reset-Turns j c persist swapped s h f = turn (recovery_of s.reset c) refl
    where
      turn :
          (r : Recovery)
          → recovery_of s.reset c ≡ r
          → Turned s (apply_recovery_reset c persist swapped s).storage
      turn as_stored e = rw (e, apply_recovery_reset) rests
      turn bad_marker e = rw (e, apply_recovery_reset) rests
      turn downgrade e = elim (Bool-cases persist) [
        | inl p ↦
            rw (e, p, apply_recovery_reset)
              (written-Turns c.contact_id swapped (downgraded c) (downgraded c) s (
                here_turn c.contact_id c (downgraded c) s (ap (λ k. get k s.contacts) f ∙ h)
                  (λ q. loses c rests)))
        | inr p ↦ rw (e, p, apply_recovery_reset) rests
      ]

  both_turn : (s t u : Storage) → Turned s t → Turned t u → Turned s u
  both_turn s t u x y = append-Turns (get id s.contacts) (get id t.contacts) (get id u.contacts) x y

  -- A recovery reset, and what the call does with the contact then.
  then-Turns :
      {B : Type 0} (j : String) (c : StoredContactIdentity) (swapped : Bool) (s : Storage)
      (f : StoredContactIdentity → Storage → Answer B)
      → get j s.contacts ≡ some (contact c)
      → c.contact_id ≡ j
      → ((d : StoredContactIdentity) (t : Storage)
          → get j t.contacts ≡ some (contact d)
          → Turned t (f d t).storage)
      → Turned s (and_then (apply_recovery_reset c true swapped s) f).storage
  then-Turns j c swapped s f h k g =
      let r : Answer StoredContactIdentity = apply_recovery_reset c true swapped s in
      let first : Turned s r.storage = reset-Turns j c true swapped s h k in
      elim (Result-cases r.result) [
        | inl (d, e) ↦ rw e (
            both_turn s r.storage (f d r.storage).storage first
              (g d r.storage (reset_kept j c d swapped s h k e)))
        | inr (x, e) ↦ rw e first
      ]

  compare-Turns :
      (j : String) (now : ℕ) (p : PresentedIdentity) (swapped : Bool) (c : StoredContactIdentity)
      (s : Storage)
      → get j s.contacts ≡ some (contact c)
      → Turned s (compare j now p swapped c s).storage
  unfolding compare
  compare-Turns j now p swapped c s h = elim (Bool-cases (same_identity c.identity p)) [
    | inl e ↦ rw (e, compare) rests
    | inr e ↦
        rw (e, compare)
          (written-Turns j swapped (changed_contact now p c) _ s
            (here_turn j c (changed_contact now p c) s h (λ q. changes now p c e rests)))
  ]

  observe-Turns :
      (j : String) (now : ℕ) (p : PresentedIdentity) (swaps : Swaps) (s : Storage)
      → IsFiled s
      → Turned s (observe j now p swaps s).storage
  unfolding observe IsFiled
  observe-Turns j now p swaps s f = elim (Option-cases (get j s.contacts)) [
    | inl e ↦
        rw (e, observe)
          (written-Turns j swaps.first (new_contact j p) (first_seen (new_contact j p)) s (λ q.
            let same : j ≡ id = (eq_iff j id).0 q in
            let free : get id s.contacts ≡ none = rw same at e in rw (same, free) (meets p rests)))
    | inr (corrupted, e) ↦ rw (e, observe) rests
    | inr (contact c, e) ↦
        rw (e, observe)
          (then-Turns j c swaps.first s (compare j now p swaps.second) e (f j c e)
            (compare-Turns j now p swaps.second))
  ]

  verify-Turns :
      (j : String) (now : ℕ) (expected : Option String) (swapped : Bool) (c : StoredContactIdentity)
      (s : Storage)
      → ((j == id) ≡ true → v ≡ true)
      → get j s.contacts ≡ some (contact c)
      → Turned s (verify j now expected swapped c s).storage
  unfolding verify
  verify-Turns j now expected swapped c s may h =
      elim (Bool-cases (differs expected c.identity.identity_id)) [
        | inl e ↦ rw (e, verify) rests
        | inr e ↦ elim (Bool-cases (is_unchanged c.change_status)) [
          | inr u ↦ rw (e, u, verify) rests
          | inl u ↦
              rw (e, u, verify)
                (written-Turns j swapped
                  (record c { verification = verified; verified_at = some now }) tt s
                  (here_turn j c _ s h (λ q. checks now c (may q) u rests)))
        ]
      ]

  accept-Turns :
      (j : String) (swapped : Bool) (c : StoredContactIdentity) (o : Option PresentedIdentity)
      (s : Storage)
      → ((j == id) ≡ true → a ≡ true)
      → get j s.contacts ≡ some (contact c)
      → c.pending_identity ≡ o
      → Turned s (accept j swapped o s).storage
  accept-Turns j swapped c none s may h e = rests
  accept-Turns j swapped c (some p) s may h e = written-Turns j swapped (new_contact j p) tt s (λ q.
      let same : j ≡ id = (eq_iff j id).0 q in
      let k : get id s.contacts ≡ some (contact c) = rw same at h in
      rw (k, same) (adopts p c (may q) e rests))

  -- A call that reads the record first.
  with_contact-Turns :
      {B : Type 0} (j : String) (missing : ContactError)
      (f : StoredContactIdentity → Storage → Answer B) (s : Storage)
      → ((c : StoredContactIdentity)
          → get j s.contacts ≡ some (contact c)
          → Turned s (f c s).storage)
      → Turned s (with_contact j missing f s).storage
  unfolding with_contact
  with_contact-Turns j missing f s g = elim (Option-cases (get j s.contacts)) [
    | inl e ↦ rw (e, with_contact) rests
    | inr (corrupted, e) ↦ rw (e, with_contact) rests
    | inr (contact c, e) ↦ rw (e, with_contact) (g c e)
  ]

  get_contact-Turns :
      (j : String) (persist swapped : Bool) (s : Storage)
      → IsFiled s
      → Turned s (get_contact j persist swapped s).storage
  unfolding get_contact IsFiled
  get_contact-Turns j persist swapped s f = elim (Option-cases (get j s.contacts)) [
    | inl e ↦ rw (e, get_contact) rests
    | inr (corrupted, e) ↦ rw (e, get_contact) rests
    | inr (contact c, e) ↦
        let r : Answer StoredContactIdentity = apply_recovery_reset c persist swapped s in
        let t : Turned s r.storage = reset-Turns j c persist swapped s e (f j c e) in
        elim (Result-cases r.result) [
          | inl (d, q) ↦ rw (e, get_contact, q) t
          | inr (x, q) ↦ rw (e, get_contact, q) t
        ]
  ]

  guards_of-Turns :
      (identity : String) (c : StoredContactIdentity) (s : Storage)
      → Turned s (guards_of identity c s).storage
  unfolding guards_of
  guards_of-Turns identity c s = elim (Bool-cases (is_guarded identity c)) [
    | inl q ↦ rw (q, guards_of) rests
    | inr q ↦ rw (q, guards_of) rests
  ]

  guard-Turns :
      (j identity : String) (swapped : Bool) (s : Storage)
      → IsFiled s
      → Turned s (prepare_verified_file_guards j identity swapped s).storage
  unfolding prepare_verified_file_guards IsFiled guards_of
  guard-Turns j identity swapped s f = with_contact-Turns j verification_unavailable _ s (λ c e.
      then-Turns j c swapped s (guards_of identity) e (f j c e)
        (λ d t k. guards_of-Turns identity d t))

  -- A call that is no acceptance of this contact has no `adopts` turn, and one that is no verification
  -- of it no `checks` turn.
  pub call-Turns :
      (e : Call) (s : Storage)
      → (accepts id e ≡ true → a ≡ true)
      → (verifies id e ≡ true → v ≡ true)
      → IsFiled s
      → Turned s (call e s)
  unfolding call mark_verified mark_unverified accept_pending_change
  call-Turns (observing j now p swaps) s m n f = observe-Turns j now p swaps s f
  call-Turns (verifying j now expected swapped) s m n f =
      with_contact-Turns j unknown_contact (verify j now expected swapped) s
        (λ c h. verify-Turns j now expected swapped c s n h)
  call-Turns (unverifying j swapped) s m n f = with_contact-Turns j unknown_contact _ s (λ c h.
      written-Turns j swapped (downgraded c) tt s
        (here_turn j c (downgraded c) s h (λ q. loses c rests)))
  call-Turns (getting j persist swapped) s m n f = get_contact-Turns j persist swapped s f
  call-Turns (guarding j identity swapped) s m n f = guard-Turns j identity swapped s f
  call-Turns (accepting j swapped) s m n f =
      with_contact-Turns j unknown_contact _ s
        (λ c h. accept-Turns j swapped c c.pending_identity s m h refl)
  call-Turns (recovering marker) s m n f = rests

filed_turn :
    (a v : Bool) (id : String) (o p : Option Stored)
    → Turns a v id o p
    → ((c : StoredContactIdentity) → o ≡ some (contact c) → c.contact_id ≡ id)
    → (c : StoredContactIdentity) → p ≡ some (contact c)
    → c.contact_id ≡ id
filed_turn a v id o p rests f = f
filed_turn a v id o p (meets x r) f = filed_turn a v id _ p r (λ c e. ground (arith, e))
filed_turn a v id o p (loses d r) f = filed_turn a v id _ p r (λ c e. ground (arith, e, f d refl))
filed_turn a v id o p (changes now x d e r) f =
    filed_turn a v id _ p r (λ c e. ground (arith, e, f d refl))
filed_turn a v id o p (checks now d e q r) f =
    filed_turn a v id _ p r (λ c e. ground (arith, e, f d refl))
filed_turn a v id o p (adopts x d e q r) f = filed_turn a v id _ p r (λ c e. ground (arith, e))

pub call-IsFiled : (e : Call) (s : Storage) → IsFiled s → IsFiled (call e s)
unfolding IsFiled
call-IsFiled e s f id =
    filed_turn true true id (get id s.contacts) (get id (call e s).contacts)
      (call-Turns true true id e s (λ x. refl) (λ x. refl) f) (f id)

pub run-Turns :
    (a v : Bool) (id : String) (es : List Call) (s : Storage)
    → (any (accepts id) es ≡ true → a ≡ true)
    → (any (verifies id) es ≡ true → v ≡ true)
    → IsFiled s
    → Turned a v id s (run es s)
unfolding run
run-Turns a v id [] s m n f = rests
run-Turns a v id (e ∷ es) s m n f =
    append-Turns (get id s.contacts) (get id (call e s).contacts)
      (get id (run es (call e s)).contacts)
      (call-Turns a v id e s (λ x. m (ground (arith, x))) (λ x. n (ground (arith, x))) f)
      (run-Turns a v id es (call e s) (λ x. m (ground (arith, x))) (λ x. n (ground (arith, x)))
        (call-IsFiled e s f))
