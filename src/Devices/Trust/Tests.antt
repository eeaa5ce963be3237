-- ===== src/Devices/Trust/Tests.antt =====
-- Trust asserted, and suspended by a conflicting event.
use k3ncrypt.Base.{◌≡◌, refl, String, string_eq, true, false, none, some, List, [], ◌∷◌, ok, err}
use k3ncrypt.Base.Dict.{get, put}
use k3ncrypt.Base.Text.{is_lower_hex, is_digit}
use k3ncrypt.Devices.{DeviceEntry, DeviceList, active, device_entry_by_id, is_active}
use k3ncrypt.Devices.Lifecycle.{LifecycleStateSnapshot, is_digest}
use k3ncrypt.Devices.Freshness.{
  TrustFreshnessEvidence, assert_current, assert_members, assert_member, active_entry, bad_members,
  record_authenticated_evidence, evidence_allowed, bad_evidence, freshness_unavailable,
}
use k3ncrypt.Devices.Trust.{
  Enforcer, Device, TrustStateEvent, active_state, trusted, snapshot, decision, decision_in,
  assert_trusted_at, assert_fresh, record_freshness_evidence, bad_event, accept, freshness,
  event_replayed,
}
use k3ncrypt.Devices.Trust.Suspension.{
  TrustCall, accepting, configuring, recording, run, is_conflicting, Refuses, accept-Refuses,
}
use k3ncrypt.Devices.Trust.Current.{IsCurrent, assert_trusted_at-IsCurrent}

abbrev digest : String
digest = "0123456789abcdef0123456789abcdef0123456789abcdef0123456789abcdef"

abbrev other_digest : String
other_digest = "1123456789abcdef0123456789abcdef0123456789abcdef0123456789abcdef"

-- A commitment that is the same for every list.
abbrev constant : DeviceList → String
constant list = digest

abbrev phone : DeviceEntry
phone = record {
  device_id = "phone";
  public_identity_reference = "id-p";
  algorithm = "a";
  state = active;
  created_at = 1;
  revoked_at = none;
  label = none;
}

abbrev laptop : DeviceEntry
laptop = record phone { device_id = "laptop"; public_identity_reference = "id-l" }

abbrev current : LifecycleStateSnapshot
current = record {
  list = record {
    version = 1;
    identity_reference = "user";
    epoch = 3;
    previous_commitment = some digest;
    devices = phone ∷ laptop ∷ [];
  };
  commitment = digest;
}

abbrev own : Device
own = record { scope = "user"; device_id = "phone"; identity_reference = "id-p" }

abbrev laptop_evidence : TrustFreshnessEvidence
laptop_evidence = record {
  version = 1;
  device_id = "laptop";
  identity_reference = "id-l";
  epoch = 3;
  commitment = digest;
  evidence_id = "e1";
}

abbrev start : Enforcer
start = record {
  suspended = false;
  freshness_members = some ("phone" ∷ "laptop" ∷ []);
  evidence = [];
  seen = [];
}

abbrev attested : Enforcer
attested = record start { evidence = ("laptop", laptop_evidence) ∷ [] }

snapshot_test : snapshot constant own (some current) start ≡ ok current
unfolding snapshot
snapshot_test = refl

decision_test : decision constant own (some current) start ≡ trusted
unfolding decision decision_in snapshot device_entry_by_id
decision_test = refl

record_test :
    record_freshness_evidence constant own laptop_evidence (some current) start ≡ (attested, ok tt)
unfolding record_freshness_evidence snapshot record_authenticated_evidence evidence_allowed
    bad_evidence is_digest is_lower_hex is_digit device_entry_by_id get put is_active
record_test = refl

assert_test : assert_trusted_at constant own 3 (some current) attested ≡ ok tt
unfolding assert_trusted_at snapshot assert_fresh assert_current assert_members assert_member
    active_entry bad_members device_entry_by_id get is_active
assert_test = refl

-- Without evidence of the laptop there is no trust.
unattested_test :
    assert_trusted_at constant own 3 (some current) start ≡ err (freshness freshness_unavailable)
unfolding assert_trusted_at snapshot assert_fresh assert_current assert_members assert_member
    active_entry bad_members device_entry_by_id get is_active
unattested_test = refl

assert_trusted_at-IsCurrent_example : IsCurrent constant own 3 (some current) attested
assert_trusted_at-IsCurrent_example =
    assert_trusted_at-IsCurrent constant own 3 (some current) attested assert_test

-- The stored epoch with another commitment.
abbrev forked : TrustStateEvent
forked = record {
  version = 1;
  event_id = "ev";
  scope = "user";
  epoch = 3;
  commitment = other_digest;
  device_id = "phone";
  identity_reference = "id-p";
  state = active_state;
}

forked_test : bad_event constant own forked ≡ false
unfolding bad_event is_digest is_lower_hex is_digit
forked_test = refl

conflict_test : is_conflicting forked current ≡ true
unfolding is_conflicting
conflict_test = refl

replay_test :
    (accept constant own true 8
      (record forked { commitment = digest })
      (some current)
      (record start { seen = "ev" ∷ [] })).1
    ≡ err event_replayed
unfolding accept bad_event is_digest is_lower_hex is_digit
replay_test = refl

abbrev later : List TrustCall
later =
    configuring []
    ∷ recording laptop_evidence (some current)
    ∷ accepting true 8 (record forked { commitment = digest }) (some current)
    ∷ []

accept-Refuses_example :
    Refuses constant own
      (run constant own later (accept constant own false 8 forked (some current) start).0)
accept-Refuses_example =
    accept-Refuses constant own false 8 forked (some current) current start later forked_test refl
      snapshot_test conflict_test
