-- ===== src/Contacts.antt =====
-- service/src/identity/contactIdentityRegistry.ts: what is known of a contact's identity, and the
-- explicit steps that change it. A stored record is what `parseStored` reads from it: corrupted, or a
-- contact. Keys are their base64url texts. The calls on one storage are serialised; whether the
-- record is still the one read when a call writes it is an input, the outcome of the storage's
-- `compareAndSwapRecords`.
pub mod Turns
pub mod Trust
mod Tests
use k3ncrypt.Base.{
  ℕ, String, string_eq, ◌==◌, Bool, true, false, not, ◌&&◌, ◌||◌, Option, none, some, ltb,
  if◌then◌else◌, Result, ok, err,
}
use k3ncrypt.Base.Dict.{Dict, get, put}

pub data Verification : Type 0 where
  unknown unverified verified : Verification

pub data IdentityChangeStatus : Type 0 where
  unchanged changed_pending_review : IdentityChangeStatus

pub record PresentedIdentity : Type 0 where
  pub identity_id : String
  pub algorithm : String
  pub public_key : String

pub record StoredContactIdentity : Type 0 where
  pub contact_id : String
  pub identity : PresentedIdentity
  pub verification : Verification
  pub verified_at : Option ℕ
  pub change_status : IdentityChangeStatus
  pub identity_changed_at : Option ℕ
  pub pending_identity : Option PresentedIdentity

pub data Stored : Type 0 where
  corrupted : Stored
  contact : StoredContactIdentity → Stored

-- The marker that a recovery leaves; a marker of another form is invalid.
pub data Reset : Type 0 where
  invalid : Reset
  reset_at : ℕ → Reset

pub record Storage : Type 0 where
  pub contacts : Dict String Stored
  pub reset : Option Reset

pub data ContactError : Type 0 where
  corrupted_record unknown_contact changed_concurrently changed_during_comparison : ContactError
  review_first no_pending_change invalid_reset verification_unavailable verified_required :
      ContactError

pub data ContactIdentityEvent : Type 0 where
  first_seen : StoredContactIdentity → ContactIdentityEvent
  seen_unchanged : StoredContactIdentity → ContactIdentityEvent
  identity_changed :
      (current : StoredContactIdentity) (presented : PresentedIdentity) (verified_preserved : Bool)
      → ContactIdentityEvent

-- Whether the first and the second write of a call find the record as the call read it.
pub record Swaps : Type 0 where
  pub first : Bool
  pub second : Bool

-- The storage after a call, and its answer.
pub record Answer (A : Type 0) : Type 0 where
  pub storage : Storage
  pub result : Result ContactError A

abbrev pub refuse : {A : Type 0} → Storage → ContactError → Answer A
refuse s e = record { storage = s; result = err e }

abbrev pub give : {A : Type 0} → Storage → A → Answer A
give s a = record { storage = s; result = ok a }

abbrev pub is_verified : Verification → Bool
is_verified verified = true
is_verified unverified = false
is_verified unknown = false

abbrev pub is_unchanged : IdentityChangeStatus → Bool
is_unchanged unchanged = true
is_unchanged changed_pending_review = false

abbrev pub same_identity : PresentedIdentity → PresentedIdentity → Bool
same_identity a b =
    a.identity_id == b.identity_id && a.algorithm == b.algorithm && a.public_key == b.public_key

pub stored_as : String → StoredContactIdentity → Storage → Storage
stored_as id c s = record s { contacts = put id (contact c) s.contacts }

-- `writeRecord`, and the answer where it succeeds.
pub write_record : {A : Type 0} → String → Bool → StoredContactIdentity → A → Storage → Answer A
write_record id swapped c a s =
    if swapped then give (stored_as id c s) a else refuse s changed_concurrently

abbrev pub is_later : Option ℕ → ℕ → Bool
is_later none t = false
is_later (some v) t = ltb t v

abbrev pub downgraded : StoredContactIdentity → StoredContactIdentity
downgraded c = record c { verification = unverified; verified_at = none }

-- What `applyRecoveryReset` does with a contact: nothing, a downgrade, or an error.
pub data Recovery : Type 0 where
  as_stored bad_marker downgrade : Recovery

pub recovery_of : Option Reset → StoredContactIdentity → Recovery
recovery_of none c = as_stored
recovery_of (some invalid) c = if is_verified c.verification then bad_marker else as_stored
recovery_of (some (reset_at t)) c =
    if not (is_verified c.verification) || is_later c.verified_at t then as_stored else downgrade

pub apply_recovery_reset :
    StoredContactIdentity
    → (persist : Bool) (swapped : Bool) → Storage
    → Answer StoredContactIdentity
apply_recovery_reset c persist swapped s = elim (recovery_of s.reset c) [
  | as_stored ↦ give s c
  | bad_marker ↦ refuse s invalid_reset
  | downgrade ↦
      if persist
      then write_record c.contact_id swapped (downgraded c) (downgraded c) s
      else give s (downgraded c)
]

abbrev pub and_then : {A B : Type 0} → Answer A → (A → Storage → Answer B) → Answer B
and_then {A} {B} r f = elim r.result [ ok a ↦ f a r.storage | err e ↦ refuse r.storage e ]

abbrev pub new_contact : String → PresentedIdentity → StoredContactIdentity
new_contact id presented = record {
  contact_id = id;
  identity = presented;
  verification = unverified;
  verified_at = none;
  change_status = unchanged;
  identity_changed_at = none;
  pending_identity = none;
}

abbrev pub lose_verification : Verification → Verification
lose_verification verified = unverified
lose_verification unverified = unverified
lose_verification unknown = unknown

abbrev pub changed_contact : ℕ → PresentedIdentity → StoredContactIdentity → StoredContactIdentity
changed_contact now presented c = record c {
  verification = lose_verification c.verification;
  change_status = changed_pending_review;
  identity_changed_at = some now;
  pending_identity = some presented;
}

-- The rest of `observe`, with the contact after a reset.
pub compare :
    String
    → ℕ
    → PresentedIdentity
    → Bool
    → StoredContactIdentity
    → Storage
    → Answer ContactIdentityEvent
compare id now presented swapped c s =
    if same_identity c.identity presented
    then give s (seen_unchanged c)
    else write_record id swapped (changed_contact now presented c)
        (identity_changed (changed_contact now presented c) presented (is_verified c.verification))
        s

pub observe : String → ℕ → PresentedIdentity → Swaps → Storage → Answer ContactIdentityEvent
observe id now presented swaps s = elim (get id s.contacts) [
  | none ↦
      write_record id swaps.first (new_contact id presented) (first_seen (new_contact id presented))
        s
  | some corrupted ↦ refuse s corrupted_record
  | some (contact c) ↦
      and_then (apply_recovery_reset c true swaps.first s) (compare id now presented swaps.second)
]

-- The record read and parsed, and the call's next step.
pub with_contact :
    {A : Type 0}
    → String
    → ContactError
    → (StoredContactIdentity → Storage → Answer A)
    → Storage
    → Answer A
with_contact id missing f s = elim (get id s.contacts) [
  | none ↦ refuse s missing
  | some corrupted ↦ refuse s corrupted_record
  | some (contact c) ↦ f c s
]

abbrev pub differs : Option String → String → Bool
differs none id = false
differs (some expected) id = not (expected == id)

pub verify : String → ℕ → Option String → Bool → StoredContactIdentity → Storage → Answer (Unit {0})
verify id now expected swapped c s =
    if differs expected c.identity.identity_id
    then refuse s changed_during_comparison
    else if not (is_unchanged c.change_status)
    then refuse s review_first
    else write_record id swapped (record c { verification = verified; verified_at = some now }) tt s

pub mark_verified : String → ℕ → Option String → Bool → Storage → Answer (Unit {0})
mark_verified id now expected swapped s =
    with_contact id unknown_contact (verify id now expected swapped) s

pub mark_unverified : String → Bool → Storage → Answer (Unit {0})
mark_unverified id swapped s =
    with_contact id unknown_contact (λ c. write_record id swapped (downgraded c) tt) s

-- `get`, with the flag that says whether a downgrade is written.
pub get_contact : String → Bool → Bool → Storage → Answer (Option StoredContactIdentity)
get_contact id persist swapped s = elim (get id s.contacts) [
  | none ↦ give s none
  | some corrupted ↦ refuse s corrupted_record
  | some (contact c) ↦ and_then (apply_recovery_reset c persist swapped s) (λ d t. give t (some d))
]

pub is_guarded : String → StoredContactIdentity → Bool
is_guarded identity c =
    c.identity.identity_id == identity && is_verified c.verification && is_unchanged c.change_status

pub guards_of : String → StoredContactIdentity → Storage → Answer StoredContactIdentity
guards_of identity c s = if is_guarded identity c then give s c else refuse s verified_required

-- The guards are the record and the marker as they were read: here, the storage of the answer.
pub prepare_verified_file_guards : String → String → Bool → Storage → Answer StoredContactIdentity
prepare_verified_file_guards id identity swapped s =
    with_contact id verification_unavailable
      (λ c t. and_then (apply_recovery_reset c true swapped t) (guards_of identity)) s

abbrev pub accept : String → Bool → Option PresentedIdentity → Storage → Answer (Unit {0})
accept id swapped none s = refuse s no_pending_change
accept id swapped (some presented) s = write_record id swapped (new_contact id presented) tt s

pub accept_pending_change : String → Bool → Storage → Answer (Unit {0})
accept_pending_change id swapped s =
    with_contact id unknown_contact (λ c. accept id swapped c.pending_identity) s
