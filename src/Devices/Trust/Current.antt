-- ===== src/Devices/Trust/Current.antt =====
-- What an assertion of trust (service/src/devices/trust.ts and freshness.ts) means.
use k3ncrypt.Base.{
  ℕ, ◌≡◌, refl, sym, ap, ◌∙◌, inl, inr, String, string_eq, ◌==◌, Bool, true, false, not, ◌&&◌, find,
  Option, none, some, List, [], ◌∷◌, eqb, arith, All, Bool-cases, Option-cases, Result-cases, ok,
  passed, present, returned, throw_if,
}
use k3ncrypt.Base.Dict.{get}
use text.Mathlib.TextEquality.{eq_iff}
use k3ncrypt.Devices.{DeviceList, DeviceEntry, device_entry_by_id, is_active}
use k3ncrypt.Devices.Lifecycle.{LifecycleStateSnapshot}
use k3ncrypt.Devices.Freshness.{
  TrustFreshnessEvidence, Evidence, default_max_members, assert_current, assert_members,
  assert_member, active_entry, attests, bad_members,
}
use k3ncrypt.Devices.Trust.{
  TrustError, Enforcer, Device, snapshot, assert_fresh, is_own, assert_trusted_at,
}

-- A member is this device, or there is evidence of it at this very state, under the identity that its
-- active entry has.
pub data IsFresh (local_device : String) (state : LifecycleStateSnapshot) (evidence : Evidence)
    (id : String) : Type 0 where
  is_local : id ≡ local_device → IsFresh local_device state evidence id
  is_attested :
      (d : DeviceEntry) (e : TrustFreshnessEvidence)
      → active_entry state id ≡ some d
      → d.device_id ≡ id
      → is_active d.state ≡ true
      → get id evidence ≡ some e
      → e.identity_reference ≡ d.public_identity_reference
      → e.epoch ≡ state.list.epoch
      → e.commitment ≡ state.commitment
      → IsFresh local_device state evidence id

find_passes :
    (p : DeviceEntry → Bool) (ds : List DeviceEntry) (d : DeviceEntry)
    → find p ds ≡ some d
    → p d ≡ true
find_passes p [] d h = cc
find_passes p (e ∷ ds) d h = elim (Bool-cases (p e)) [
  | inl q ↦ let same : e ≡ d = ground (arith, rw q at h) in ap p (sym same) ∙ q
  | inr q ↦ find_passes p ds d (rw q at h)
]

active_entry_lem :
    (state : LifecycleStateSnapshot) (id : String) (d : DeviceEntry)
    → active_entry state id ≡ some d
    → (d.device_id ≡ id) × (is_active d.state ≡ true)
unfolding active_entry
active_entry_lem state id d h =
    let k = find_passes (λ x. x.device_id == id && is_active x.state) state.list.devices d h in
    ((eq_iff d.device_id id).0 (ground (arith, k)), ground (arith, k))

attests_lem :
    (local_device : String) (state : LifecycleStateSnapshot) (evidence : Evidence) (id : String)
    (d : DeviceEntry)
    → active_entry state id ≡ some d
    → attests state d (get id evidence) ≡ true
    → IsFresh local_device state evidence id
attests_lem local_device state evidence id d a h = elim (Option-cases (get id evidence)) [
  | inl n ↦ absurd (ground (arith, rw n at h))
  | inr (e, n) ↦
      let k : attests state d (some e) ≡ true = rw n at h in
      let (same, standing) = active_entry_lem state id d a in
      is_attested d e a same standing n
        ((eq_iff e.identity_reference d.public_identity_reference).0 (ground (arith, k)))
        (ground (arith, k)) ((eq_iff e.commitment state.commitment).0 (ground (arith, k)))
]

member_lem :
    (local_device : String) (state : LifecycleStateSnapshot) (evidence : Evidence) (id : String)
    → assert_member local_device state evidence id ≡ ok tt
    → IsFresh local_device state evidence id
unfolding assert_member
member_lem local_device state evidence id h =
    let (d, a, h1) = present (active_entry state id) _ _ h in
    elim (Bool-cases (id == local_device)) [
      | inl e ↦ is_local ((eq_iff id local_device).0 e)
      | inr e ↦ elim (Bool-cases (attests state d (get id evidence))) [
        | inl k ↦ attests_lem local_device state evidence id d a k
        | inr k ↦ absurd (ground (arith, rw (e, k) at h1))
      ]
    ]

members_lem :
    (local_device : String) (state : LifecycleStateSnapshot) (evidence : Evidence)
    (ids : List String)
    → assert_members local_device state evidence ids ≡ ok tt
    → All (IsFresh local_device state evidence) ids
unfolding assert_members
members_lem local_device state evidence [] h = tt
members_lem local_device state evidence (id ∷ ids) h =
    let (u, a, b) = returned (assert_member local_device state evidence id) _ h in
    (member_lem local_device state evidence id a, members_lem local_device state evidence ids b)

current_lem :
    (max_members : ℕ) (local_device : String) (state : LifecycleStateSnapshot) (evidence : Evidence)
    (ids : List String)
    → assert_current max_members local_device state ids evidence ≡ ok tt
    → All (IsFresh local_device state evidence) ids
unfolding assert_current
current_lem max_members local_device state evidence ids h =
    members_lem local_device state evidence ids (passed (bad_members max_members ids) _ _ h).1

module _ (list_commitment : DeviceList → String) (device : Device) where
  abbrev pub Fresh : LifecycleStateSnapshot → Evidence → Option (List String) → Type 0
  Fresh state evidence none = Unit
  Fresh state evidence (some members) = All (IsFresh device.device_id state evidence) members

  fresh_lem :
      (state : LifecycleStateSnapshot) (members : Option (List String)) (evidence : Evidence)
      → assert_fresh list_commitment device state members evidence ≡ ok tt
      → Fresh state evidence members
  unfolding assert_fresh
  fresh_lem state none evidence h = tt
  fresh_lem state (some members) evidence h =
      elim (Result-cases
        (assert_current default_max_members device.device_id state members evidence)) [
          | inr (e, q) ↦ absurd (ground (arith, rw (q, assert_fresh) at h))
          | inl (u, q) ↦ current_lem default_max_members device.device_id state evidence members q
        ]

  own_lem :
      (o : Option DeviceEntry)
      → is_own list_commitment device o ≡ true
      → (d : DeviceEntry) × (o ≡ some d)
        × (d.public_identity_reference ≡ device.identity_reference)
        × (is_active d.state ≡ true)
  own_lem none h = cc
  own_lem (some d) h = (
    d,
    refl,
    (eq_iff d.public_identity_reference device.identity_reference).0 (ground (arith, h)),
    ground (arith, h),
  )

  own_true :
      (o : Option DeviceEntry) (e : TrustError)
      → throw_if (not (is_own list_commitment device o)) e ≡ ok tt
      → is_own list_commitment device o ≡ true
  own_true o e h = elim (Bool-cases (is_own list_commitment device o)) [
    | inl k ↦ k
    | inr k ↦ absurd (ground (arith, rw k at h))
  ]

  -- Trust that is asserted at an epoch is trust in a stored state of that very epoch, whose commitment
  -- is that of its list, with this device's own active entry in it; trust is not suspended, and where
  -- the members are configured each of them is this device or has given evidence at this state.
  pub record IsCurrent (epoch : ℕ) (stored : Option LifecycleStateSnapshot) (t : Enforcer)
      : Type 0 where
    pub state : LifecycleStateSnapshot
    pub read : stored ≡ some state
    pub at_epoch : state.list.epoch ≡ epoch
    pub committed : list_commitment state.list ≡ state.commitment
    pub not_suspended : t.suspended ≡ false
    pub members_fresh : Fresh state t.evidence t.freshness_members
    pub entry : DeviceEntry
    pub listed : device_entry_by_id state.list.devices device.device_id ≡ some entry
    pub own : entry.public_identity_reference ≡ device.identity_reference
    pub entry_active : is_active entry.state ≡ true

  snapshot_lem :
      (stored : Option LifecycleStateSnapshot) (t : Enforcer) (state : LifecycleStateSnapshot)
      → snapshot list_commitment device stored t ≡ ok state
      → (t.suspended ≡ false)
        × (stored ≡ some state)
        × (list_commitment state.list ≡ state.commitment)
  unfolding snapshot
  snapshot_lem stored t state h =
      let (a, h1) = passed t.suspended _ _ h in
      let (s, b, h2) = present stored _ _ h1 in
      let (c, h3) = passed (not (list_commitment s.list == s.commitment)) _ _ h2 in
      let e : s ≡ state = ground (arith, h3) in
      let k : list_commitment s.list ≡ s.commitment =
        (eq_iff (list_commitment s.list) s.commitment).0 (ground (arith, c)) in
      (a, b ∙ ap some e, ap (λ x. list_commitment x.list) (sym e) ∙ k ∙ ap (λ x. x.commitment) e)

  -- An assertion of trust at an epoch succeeds only where all that `IsCurrent` says holds of the stored
  -- state and of the evidence.
  pub assert_trusted_at-IsCurrent :
      (epoch : ℕ) (stored : Option LifecycleStateSnapshot) (t : Enforcer)
      → assert_trusted_at list_commitment device epoch stored t ≡ ok tt
      → IsCurrent epoch stored t
  unfolding assert_trusted_at
  assert_trusted_at-IsCurrent epoch stored t h =
      let (state, s, h1) = returned (snapshot list_commitment device stored t) _ h in
      let (a, h2) = passed (not (eqb state.list.epoch epoch)) _ _ h1 in
      let (u, f, h3) =
        returned (assert_fresh list_commitment device state t.freshness_members t.evidence) _ h2 in
      let entry : Option DeviceEntry = device_entry_by_id state.list.devices device.device_id in
      let (n, r, c) = snapshot_lem stored t state s in
      let k : is_own list_commitment device entry ≡ true = own_true entry _ h3 in
      let (d, l, o, x) = own_lem entry k in
      record {
        state = state;
        read = r;
        at_epoch = ground (arith, a);
        committed = c;
        not_suspended = n;
        members_fresh = fresh_lem state t.freshness_members t.evidence f;
        entry = d;
        listed = l;
        own = o;
        entry_active = x;
      }
