-- ===== src/Contacts/Trust.antt =====
-- What a contact's trust can come to over every history of the calls of
-- service/src/identity/contactIdentityRegistry.ts.
use k3ncrypt.Base.{
  ℕ, ◌≡◌, refl, inl, inr, String, string_eq, Bool, true, false, not, ◌||◌, Option, none, some, List,
  [], arith, any, Bool-cases, Option-cases, Result, Result-cases, ok, err,
}
use k3ncrypt.Base.Dict.{get, get-put_self}
use k3ncrypt.Contacts.{
  Verification, unknown, unverified, verified, PresentedIdentity, StoredContactIdentity, Stored,
  corrupted, contact, Storage, ContactError, identity_changed, Swaps, is_verified, is_unchanged,
  same_identity, stored_as, write_record, Recovery, as_stored, bad_marker, downgrade, recovery_of,
  apply_recovery_reset, lose_verification, changed_contact, compare, observe, with_contact,
  is_guarded, guards_of, prepare_verified_file_guards,
}
use k3ncrypt.Contacts.Turns.{
  Call, observing, call, run, accepts, verifies, Turns, rests, meets, loses, changes, checks,
  adopts, IsFiled, run-Turns, call-IsFiled,
}

abbrev pub is_pending : Option PresentedIdentity → Bool
is_pending none = false
is_pending (some p) = true

-- A change waits for review just where a new identity is pending, and a contact with a change that
-- waits is not verified.
pub record Reviewed (c : StoredContactIdentity) : Type 0 where
  pub waiting : is_pending c.pending_identity ≡ not (is_unchanged c.change_status)
  pub reviewed : (is_unchanged c.change_status || not (is_verified c.verification)) ≡ true

abbrev pub IsReviewed : Option Stored → Type 0
IsReviewed none = Unit
IsReviewed (some corrupted) = Unit
IsReviewed (some (contact c)) = Reviewed c

lost : (v : Verification) → is_verified (lose_verification v) ≡ false
lost unknown = refl
lost unverified = refl
lost verified = refl

Turns-Reviewed :
    {a v : Bool} {id : String} (o p : Option Stored)
    → Turns a v id o p
    → IsReviewed o
    → IsReviewed p
Turns-Reviewed o p rests r = r
Turns-Reviewed o p (meets x t) r = Turns-Reviewed _ p t (record { waiting = refl; reviewed = refl })
Turns-Reviewed o p (loses c t) r =
    Turns-Reviewed _ p t (record { waiting = r.waiting; reviewed = ground arith })
Turns-Reviewed o p (changes now x c e t) r =
    Turns-Reviewed _ p t (record { waiting = refl; reviewed = ground (arith, lost c.verification) })
Turns-Reviewed o p (checks now c e u t) r =
    Turns-Reviewed _ p t (record { waiting = r.waiting; reviewed = ground (arith, u) })
Turns-Reviewed o p (adopts x c e u t) r =
    Turns-Reviewed _ p t (record { waiting = refl; reviewed = refl })

abbrev pub nothing_stored : Storage
nothing_stored = record { contacts = []; reset = none }

pub nothing-IsFiled : IsFiled nothing_stored
unfolding IsFiled get
nothing-IsFiled = λ id c e. absurd (ground (arith, e))

-- After any history of calls that starts with no contacts, whatever writes fail and whatever recovery
-- markers appear: a change waits for review just where a new identity is pending, and a contact with
-- a change that waits is not verified.
pub run-Reviewed :
    (es : List Call) (id : String) → IsReviewed (get id (run es nothing_stored).contacts)
run-Reviewed es id =
    Turns-Reviewed (get id nothing_stored.contacts) (get id (run es nothing_stored).contacts)
      (run-Turns true true id es nothing_stored (λ x. refl) (λ x. refl) nothing-IsFiled)
      (unfold get in tt)

abbrev pub HasIdentity : PresentedIdentity → Option Stored → Type 0
HasIdentity p none = ⊥
HasIdentity p (some corrupted) = ⊥
HasIdentity p (some (contact c)) = c.identity ≡ p

Turns-HasIdentity :
    {v : Bool} {id : String} (p : PresentedIdentity) (o q : Option Stored)
    → Turns false v id o q
    → HasIdentity p o
    → HasIdentity p q
Turns-HasIdentity p o q rests h = h
Turns-HasIdentity p o q (meets x t) h = absurd h
Turns-HasIdentity p o q (loses c t) h = Turns-HasIdentity p _ q t h
Turns-HasIdentity p o q (changes now x c e t) h = Turns-HasIdentity p _ q t h
Turns-HasIdentity p o q (checks now c e u t) h = Turns-HasIdentity p _ q t h
Turns-HasIdentity p o q (adopts x c e u t) h = absurd (ground (arith, e))

-- A known identity is replaced only by an explicit acceptance: in a history of calls without one of
-- this contact, whatever identities are presented, the contact keeps its identity.
pub run-HasIdentity :
    (es : List Call) (id : String) (s : Storage) (p : PresentedIdentity)
    → IsFiled s
    → any (accepts id) es ≡ false
    → HasIdentity p (get id s.contacts)
    → HasIdentity p (get id (run es s).contacts)
run-HasIdentity es id s p f n h =
    Turns-HasIdentity p (get id s.contacts) (get id (run es s).contacts)
      (run-Turns false true id es s (λ x. ground (arith, x, n)) (λ x. refl) f) h

abbrev pub NotVerified : Option Stored → Type 0
NotVerified none = Unit
NotVerified (some corrupted) = Unit
NotVerified (some (contact c)) = is_verified c.verification ≡ false

Turns-NotVerified :
    {a : Bool} {id : String} (o q : Option Stored)
    → Turns a false id o q
    → NotVerified o
    → NotVerified q
Turns-NotVerified o q rests h = h
Turns-NotVerified o q (meets x t) h = Turns-NotVerified _ q t refl
Turns-NotVerified o q (loses c t) h = Turns-NotVerified _ q t refl
Turns-NotVerified o q (changes now x c e t) h = Turns-NotVerified _ q t (lost c.verification)
Turns-NotVerified o q (checks now c e u t) h = absurd (ground (arith, e))
Turns-NotVerified o q (adopts x c e u t) h = Turns-NotVerified _ q t refl

-- A contact that is unknown or not verified becomes verified only by an explicit verification: in a
-- history of calls without one of this contact it stays so.
pub run-NotVerified :
    (es : List Call) (id : String) (s : Storage)
    → IsFiled s
    → any (verifies id) es ≡ false
    → NotVerified (get id s.contacts)
    → NotVerified (get id (run es s).contacts)
run-NotVerified es id s f n h =
    Turns-NotVerified (get id s.contacts) (get id (run es s).contacts)
      (run-Turns true false id es s (λ x. refl) (λ x. ground (arith, x, n)) f) h

abbrev Waits : Option Stored → Type 0
Waits none = ⊥
Waits (some corrupted) = ⊥
Waits (some (contact c)) = is_unchanged c.change_status ≡ false

Turns-Waits :
    {v : Bool} {id : String} (o q : Option Stored) → Turns false v id o q → Waits o → Waits q
Turns-Waits o q rests h = h
Turns-Waits o q (meets x t) h = absurd h
Turns-Waits o q (loses c t) h = Turns-Waits _ q t h
Turns-Waits o q (changes now x c e t) h = Turns-Waits _ q t refl
Turns-Waits o q (checks now c e u t) h = absurd (ground (arith, h, u))
Turns-Waits o q (adopts x c e u t) h = absurd (ground (arith, e))

written-Waits :
    (id : String) (now : ℕ) (p x : PresentedIdentity) (swapped w : Bool)
    (c d : StoredContactIdentity) (s : Storage)
    → (compare id now p swapped c s).result ≡ ok (identity_changed d x w)
    → Waits (get id (compare id now p swapped c s).storage.contacts)
unfolding compare write_record stored_as
written-Waits id now p x swapped w c d s h = elim (Bool-cases (same_identity c.identity p)) [
  | inl e ↦ absurd (ground (arith, rw (e, compare) at h))
  | inr e ↦ elim (Bool-cases swapped) [
    | inr q ↦ absurd (ground (arith, rw (e, q, compare, write_record) at h))
    | inl q ↦
        rw (e, q, compare, write_record, stored_as)
          (rw (get-put_self id (contact (changed_contact now p c)) s.contacts) refl)
  ]
]

pub observed-Waits :
    (id : String) (now : ℕ) (p x : PresentedIdentity) (swaps : Swaps) (w : Bool)
    (d : StoredContactIdentity) (s : Storage)
    → (observe id now p swaps s).result ≡ ok (identity_changed d x w)
    → Waits (get id (observe id now p swaps s).storage.contacts)
unfolding observe write_record
observed-Waits id now p x swaps w d s h = elim (Option-cases (get id s.contacts)) [
  | inl e ↦ absurd (ground (arith, rw (e, observe, write_record) at h))
  | inr (corrupted, e) ↦ absurd (ground (arith, rw (e, observe) at h))
  | inr (contact c, e) ↦ elim (Result-cases (apply_recovery_reset c true swaps.first s).result) [
    | inr (y, q) ↦ absurd (ground (arith, rw (e, q, observe) at h))
    | inl (b, q) ↦
        rw (e, q, observe)
          (written-Waits id now p x swaps.second w b d
            (apply_recovery_reset c true swaps.first s).storage (rw (e, q, observe) at h))
  ]
]

abbrev pub is_ok : {A : Type 0} → Result ContactError A → Bool
is_ok (ok a) = true
is_ok (err e) = false

reset_waits :
    (c d : StoredContactIdentity) (swapped : Bool) (s : Storage)
    → is_unchanged c.change_status ≡ false
    → (apply_recovery_reset c true swapped s).result ≡ ok d
    → is_unchanged d.change_status ≡ false
unfolding apply_recovery_reset write_record
reset_waits c d swapped s h = waits (recovery_of s.reset c) refl
  where
    waits :
        (r : Recovery)
        → recovery_of s.reset c ≡ r
        → (apply_recovery_reset c true swapped s).result ≡ ok d
        → is_unchanged d.change_status ≡ false
    waits as_stored e q = ground (arith, rw (e, apply_recovery_reset) at q, h)
    waits bad_marker e q = absurd (ground (arith, rw (e, apply_recovery_reset) at q))
    waits downgrade e q = ground (arith, rw (e, apply_recovery_reset) at q, h)

no_guards :
    (id identity : String) (swapped : Bool) (s : Storage)
    → Waits (get id s.contacts)
    → is_ok (prepare_verified_file_guards id identity swapped s).result ≡ false
unfolding prepare_verified_file_guards with_contact guards_of is_guarded
no_guards id identity swapped s h = elim (Option-cases (get id s.contacts)) [
  | inl e ↦ absurd (rw e at h)
  | inr (corrupted, e) ↦ absurd (rw e at h)
  | inr (contact c, e) ↦
      let w : is_unchanged c.change_status ≡ false = rw e at h in
      elim (Result-cases (apply_recovery_reset c true swapped s).result) [
        | inr (y, q) ↦ rw (e, prepare_verified_file_guards, with_contact, q) refl
        | inl (d, q) ↦
            let v : is_unchanged d.change_status ≡ false = reset_waits c d swapped s w q in
            let g : is_guarded identity d ≡ false = ground (arith, v) in
            rw (e, prepare_verified_file_guards, with_contact, q, guards_of, g) refl
      ]
]

-- After `observe` answers that the identity of a contact changed, no file guards are given for the
-- contact, for any identity, until the change is accepted: whatever other calls follow, verifications
-- of the contact included, the preparation of the guards fails.
pub prepare_verified_file_guards-observe :
    (id : String) (now : ℕ) (p x : PresentedIdentity) (swaps : Swaps) (preserved : Bool)
    (d : StoredContactIdentity) (s : Storage)
    → IsFiled s
    → (observe id now p swaps s).result ≡ ok (identity_changed d x preserved)
    → (es : List Call) → any (accepts id) es ≡ false
    → (identity : String) (swapped : Bool)
    → is_ok
        (prepare_verified_file_guards id identity swapped
          (run es (observe id now p swaps s).storage)).result
      ≡ false
unfolding call
prepare_verified_file_guards-observe id now p x swaps preserved d s f h es n identity swapped =
    let t : Storage = (observe id now p swaps s).storage in
    let g : IsFiled t = call-IsFiled (observing id now p swaps) s f in
    no_guards id identity swapped (run es t) (
      Turns-Waits (get id t.contacts) (get id (run es t).contacts)
        (run-Turns false true id es t (λ e. ground (arith, e, n)) (λ e. refl) g)
        (observed-Waits id now p x swaps preserved d s h))
