-- ===== src/Devices/Lifecycle/Epochs.antt =====
-- service/src/devices/lifecycle.ts: from one list to the next.
use k3ncrypt.Base.{
  ◌+◌, ◌≡◌, refl, inl, inr, String, string_eq, ◌==◌, true, some, List, [], ◌∷◌, ◌++◌, if◌then◌else◌,
  arith, Bool-cases, ok, returned,
}
use text.Mathlib.TextEquality.{eq_iff}
use k3ncrypt.Devices.{
  DeviceLifecycleState, DeviceEntry, create_device_list, device_entry_by_id,
  is_valid_device_lifecycle_transition,
}
use k3ncrypt.Devices.Entries.{AllDistinct, create_device_list-AllDistinct, found-append, found_id}
use k3ncrypt.Devices.Epoch.{assert_next_epoch}
use k3ncrypt.Devices.Lifecycle.{DeviceRuntime, LifecycleStateSnapshot, next_list, with_entry}

-- The entry of a device is kept: the same device under the same identity, with the same algorithm and
-- time, in a state that the lifecycle allows after the one it was in.
pub record Continues (e f : DeviceEntry) : Type 0 where
  pub device_id : f.device_id ≡ e.device_id
  pub identity : f.public_identity_reference ≡ e.public_identity_reference
  pub algorithm : f.algorithm ≡ e.algorithm
  pub created_at : f.created_at ≡ e.created_at
  pub allowed : is_valid_device_lifecycle_transition e.state f.state ≡ true

abbrev pub KeepsEntries : List DeviceEntry → List DeviceEntry → Type 0
KeepsEntries es fs =
    (id : String) (e : DeviceEntry)
    → device_entry_by_id es id ≡ some e
    → (f : DeviceEntry) × (device_entry_by_id fs id ≡ some f) × Continues e f

-- `t` is the list after `s`: of the same identity, one epoch later, bound to the commitment of `s`, with
-- distinct devices, and with every device of `s`.
pub record Follows (s t : LifecycleStateSnapshot) : Type 0 where
  pub scope : t.list.identity_reference ≡ s.list.identity_reference
  pub epoch : t.list.epoch ≡ s.list.epoch + 1
  pub bound : t.list.previous_commitment ≡ some s.commitment
  pub distinct : AllDistinct [] [] t.list.devices
  pub entries : KeepsEntries s.list.devices t.list.devices

transition_refl : (a : DeviceLifecycleState) → is_valid_device_lifecycle_transition a a ≡ true
unfolding is_valid_device_lifecycle_transition
transition_refl a = ground arith

Continues-refl : (e : DeviceEntry) → Continues e e
Continues-refl e = record {
  device_id = refl;
  identity = refl;
  algorithm = refl;
  created_at = refl;
  allowed = transition_refl e.state;
}

pub append-KeepsEntries : (es : List DeviceEntry) (e : DeviceEntry) → KeepsEntries es (es ++ e ∷ [])
append-KeepsEntries es e id f found = (f, found-append es e f id found, Continues-refl f)

pub found-with_entry :
    (es : List DeviceEntry) (e f : DeviceEntry) (id : String)
    → device_entry_by_id es id ≡ some f
    → device_entry_by_id (with_entry e es) id ≡ some (if f.device_id == e.device_id then e else f)
unfolding device_entry_by_id
found-with_entry [] e f id h = cc
found-with_entry (x ∷ es) e f id h = ground (
  arith,
  found-with_entry es e f id,
  h,
  eq_iff x.device_id e.device_id,
  eq_iff x.device_id id,
  eq_iff e.device_id id,
)

-- Putting an entry in place of one that it continues.
pub with_entry-KeepsEntries :
    (es : List DeviceEntry) (target e : DeviceEntry) (id : String)
    → device_entry_by_id es id ≡ some target
    → Continues target e
    → KeepsEntries es (with_entry e es)
with_entry-KeepsEntries es target e id held c i f found =
    elim (Bool-cases (f.device_id == e.device_id)) [
      | inl here ↦
          let target_id = found_id es target id held in
          let f_id = found_id es f i found in
          let same_id : i ≡ id =
            ground (arith, eq_iff f.device_id e.device_id, here, c.device_id, target_id, f_id) in
          let same : f ≡ target = ground (arith, same_id, held, found) in
          (e, ground (arith, found-with_entry es e f i found, here), rw same c)
      | inr other ↦ (f, ground (arith, found-with_entry es e f i found, other), Continues-refl f)
    ]

pub next_list-Follows :
    (rt : DeviceRuntime) (s t : LifecycleStateSnapshot) (es : List DeviceEntry)
    → next_list rt s es ≡ ok t
    → KeepsEntries s.list.devices es
    → Follows s t
unfolding next_list
next_list-Follows rt s t es h keeps =
    let (l, made, h1) = returned (create_device_list rt.is_nfc _) _ h in
    let (_, checked, h2) = returned (assert_next_epoch rt.is_nfc s.list l) _ h1 in
    let (same, _, distinct) = create_device_list-AllDistinct rt.is_nfc _ l made in
    let list : t.list ≡ l = ground (arith, h2) in
    let devices : t.list.devices ≡ es = ground (arith, list, same) in
    record {
      scope = ground (arith, list, same);
      epoch = ground (arith, list, same);
      bound = ground (arith, list, same);
      distinct = rw devices distinct;
      entries = rw devices keeps;
    }

pub next_list-devices :
    (rt : DeviceRuntime) (s t : LifecycleStateSnapshot) (es : List DeviceEntry)
    → next_list rt s es ≡ ok t
    → t.list.devices ≡ es
unfolding next_list
next_list-devices rt s t es h =
    let (l, made, h1) = returned (create_device_list rt.is_nfc _) _ h in
    let (_, checked, h2) = returned (assert_next_epoch rt.is_nfc s.list l) _ h1 in
    let (same, _, distinct) = create_device_list-AllDistinct rt.is_nfc _ l made in
    ground (arith, h2, same)
