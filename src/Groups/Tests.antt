-- ===== src/Groups/Tests.antt =====
-- A group to which a member is added and activated.
use k3ncrypt.Base.{
  ℕ, ◌≡◌, refl, inl, inr, String, string_eq, ◌==◌, true, none, some, List, [], ◌∷◌, ok, Bool-cases,
  arith,
}
use k3ncrypt.Base.Dict.{get, put}
use k3ncrypt.Base.Text.{is_lower_hex}
use k3ncrypt.Devices.{is_commitment}
use text.Mathlib.TextEquality.{eq_iff}
use k3ncrypt.Groups.{
  pending, active, administrator, GroupMember, GroupMembershipSnapshot, Action, add, activate,
  GroupMembershipEvent, Group, Around, Request, adding, activating, change, change_stored,
  change_validated, commit_members, validate, bad_event, authorize_change, bad_change, member_at,
  changed_members, added_members, activated_members, set_state, next_snapshot, is_taken, create,
  bad_creation,
}
use k3ncrypt.Groups.Members.{Distinct}
use mathlib.Core.Path.{subst}
use k3ncrypt.Groups.History.{IsSound, IsLater, run, run-IsLater}

abbrev digest : String
digest = "0123456789abcdef0123456789abcdef0123456789abcdef0123456789abcdef"

abbrev digest_of : GroupMembershipEvent → String
digest_of e = digest

abbrev commitment : GroupMembershipSnapshot → List GroupMember → String
commitment s ms = digest

abbrev ann : GroupMember
ann = record {
  member_id = "ann";
  user_identity_reference = "id-a";
  device_id = "phone";
  state = active;
  role = some administrator;
}

abbrev bob : GroupMember
bob = record {
  member_id = "bob";
  user_identity_reference = "id-b";
  device_id = "laptop";
  state = pending;
  role = none;
}

abbrev first : GroupMembershipSnapshot
first = record { group_id = "g"; epoch = 0; members = ann ∷ []; transcript_commitment = digest }

abbrev around : Around
around = record {
  now = 10;
  issued = true;
  sender = record {
    ready = true;
    encrypted = true;
    verified = true;
    device_id = "phone";
    identity_reference = "id-a";
  };
  writes = true;
}

abbrev event_at : Action → ℕ → String → GroupMembershipEvent
event_at a epoch id = record {
  version = 1;
  event_id = id;
  operation = a;
  authorization = record {
    group_id = "g";
    actor_device_id = "phone";
    target_device_id = some "laptop";
    epoch = epoch;
    expires_at = 20;
    action = some a;
  };
  target_device_id = "laptop";
  epoch = epoch;
  transcript_commitment = digest;
  created_at = 5;
  digest = digest;
}

abbrev empty : Group
empty = record { stored = []; seen = [] }

abbrev start : Group
start = record { stored = ("g", first) ∷ []; seen = [] }

abbrev history : List (Around × Request × GroupMembershipEvent)
history =
    (around, adding bob, event_at add 0 "e1")
    ∷ (around, activating, event_at activate 1 "e2")
    ∷ (around, activating, event_at activate 1 "e2")
    ∷ []

abbrev joined : GroupMembershipSnapshot
joined = record first { epoch = 2; members = ann ∷ record bob { state = active } ∷ [] }

create_test : create around first empty ≡ (start, ok first)
unfolding create bad_creation get put
create_test = refl

-- The member is added and activated, and the event that comes twice changes nothing.
run_test :
    run digest_of commitment history start
    ≡ record { stored = ("g", joined) ∷ []; seen = "e1" ∷ "e2" ∷ [] }
unfolding run change change_stored change_validated commit_members validate bad_event
    authorize_change bad_change member_at changed_members added_members activated_members set_state
    next_snapshot is_taken is_commitment is_lower_hex get put
run_test = refl

start-IsSound : IsSound start
unfolding IsSound get
start-IsSound id s k = elim (Bool-cases ("g" == id)) [
  | inl e ↦
      let x : first ≡ s = ground (arith, rw e at k) in
      subst (λ t. (t.group_id ≡ id) × Distinct t.members) x ((eq_iff "g" id).0 e, (refl, tt))
  | inr e ↦ absurd (ground (arith, rw e at k))
]

get_first : get "g" start.stored ≡ some first
unfolding get
get_first = refl

run-IsLater_example :
    (t : GroupMembershipSnapshot) × (get "g" (run digest_of commitment history start).stored
      ≡ some t)
    × IsLater first t
run-IsLater_example =
    run-IsLater digest_of commitment history start "g" first start-IsSound get_first
