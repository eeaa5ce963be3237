-- ===== src/Contacts/Tests.antt =====
-- A contact met, verified, presented with another key, and reviewed.
use k3ncrypt.Base.{◌≡◌, refl, string_eq, true, false, none, some, List, [], ◌∷◌, arith, ok, err}
use text.Mathlib.TextEquality.{eq_iff}
use k3ncrypt.Base.Dict.{get, put}
use k3ncrypt.Contacts.{
  verified, PresentedIdentity, StoredContactIdentity, contact, reset_at, Storage,
  changed_concurrently, verified_required, identity_changed, Swaps, stored_as, write_record,
  recovery_of, apply_recovery_reset, new_contact, changed_contact, compare, observe, with_contact,
  verify, mark_verified, is_guarded, guards_of, prepare_verified_file_guards,
}
use k3ncrypt.Contacts.Turns.{
  Call, observing, verifying, unverifying, getting, guarding, accepting, recovering, call, run,
  IsFiled,
}
use k3ncrypt.Contacts.Trust.{
  IsReviewed, HasIdentity, NotVerified, nothing_stored, nothing-IsFiled, run-Reviewed,
  run-HasIdentity, run-NotVerified, is_ok, prepare_verified_file_guards-observe,
}

abbrev old_key : PresentedIdentity
old_key = record { identity_id = "alice"; algorithm = "vodozemac"; public_key = "AAAA" }

abbrev new_key : PresentedIdentity
new_key = record old_key { public_key = "BBBB" }

abbrev swapping : Swaps
swapping = record { first = true; second = true }

abbrev met : Storage
met = record { contacts = ("alice", contact (new_contact "alice" old_key)) ∷ []; reset = none }

abbrev trusted : StoredContactIdentity
trusted = record (new_contact "alice" old_key) { verification = verified; verified_at = some 5 }

abbrev trusting : Storage
trusting = record { contacts = ("alice", contact trusted) ∷ []; reset = none }

observe_test : run (observing "alice" 4 old_key swapping ∷ []) nothing_stored ≡ met
unfolding run call observe write_record stored_as get put
observe_test = refl

verify_test : run (verifying "alice" 5 (some "alice") true ∷ []) met ≡ trusting
unfolding run call mark_verified with_contact verify write_record stored_as get put
verify_test = refl

guards_test : (prepare_verified_file_guards "alice" "alice" true trusting).result ≡ ok trusted
unfolding prepare_verified_file_guards with_contact guards_of is_guarded apply_recovery_reset
    recovery_of get
guards_test = refl

-- A recovery after the verification takes it away.
recovered_test :
    (prepare_verified_file_guards "alice" "alice" true
      (call (recovering (reset_at 9)) trusting)).result
    ≡ err verified_required
unfolding prepare_verified_file_guards with_contact guards_of is_guarded apply_recovery_reset
    recovery_of get put call write_record stored_as
recovered_test = refl

changed_test :
    (observe "alice" 7 new_key swapping trusting).result
    ≡ ok (identity_changed (changed_contact 7 new_key trusted) new_key true)
unfolding observe compare apply_recovery_reset recovery_of write_record stored_as get put
changed_test = refl

raced_test :
    (observe "alice" 7 new_key (record { first = true; second = false }) trusting).result
    ≡ err changed_concurrently
unfolding observe compare apply_recovery_reset recovery_of write_record stored_as get put
raced_test = refl

abbrev insisting : List Call
insisting =
    verifying "alice" 8 none true
    ∷ observing "alice" 9 new_key swapping
    ∷ getting "alice" true true
    ∷ unverifying "alice" true
    ∷ guarding "alice" "alice" true
    ∷ []

trusting-IsFiled : IsFiled trusting
unfolding IsFiled get
trusting-IsFiled = λ id c e. ground (arith, e, eq_iff "alice" id)

run-Reviewed_example : IsReviewed (get "alice" (run insisting nothing_stored).contacts)
run-Reviewed_example = run-Reviewed insisting "alice"

trusting-HasIdentity : HasIdentity old_key (get "alice" trusting.contacts)
unfolding get
trusting-HasIdentity = refl

run-HasIdentity_example : HasIdentity old_key (get "alice" (run insisting trusting).contacts)
run-HasIdentity_example =
    run-HasIdentity insisting "alice" trusting old_key trusting-IsFiled refl trusting-HasIdentity

abbrev watching : List Call
watching =
    observing "alice" 9 old_key swapping ∷ accepting "alice" true ∷ verifying "bob" 9 none true ∷ []

nothing-NotVerified : NotVerified (get "alice" nothing_stored.contacts)
unfolding get
nothing-NotVerified = tt

run-NotVerified_example : NotVerified (get "alice" (run watching nothing_stored).contacts)
run-NotVerified_example =
    run-NotVerified watching "alice" nothing_stored nothing-IsFiled refl nothing-NotVerified

prepare_verified_file_guards-observe_example :
    is_ok
      (prepare_verified_file_guards "alice" "alice" true
        (run insisting (observe "alice" 7 new_key swapping trusting).storage)).result
    ≡ false
prepare_verified_file_guards-observe_example =
    prepare_verified_file_guards-observe "alice" 7 new_key new_key swapping true
      (changed_contact 7 new_key trusted) trusting trusting-IsFiled changed_test insisting refl
      "alice" true
