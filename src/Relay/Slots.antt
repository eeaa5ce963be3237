-- ===== src/Relay/Slots.antt =====
-- backend/socket.io/socketLimits.ts: concurrent slots by key. A release function is a handle: its key,
-- and whether it was called; handles are numbered in the order in which they were given out.
pub mod Count
mod Tests
use k3ncrypt.Base.{
  ℕ, zero, suc, ◌+◌, ◌-◌, String, string_eq, Bool, true, false, Option, none, some, List, [], ◌∷◌,
  ◌++◌, leb, eqb, if◌then◌else◌, length,
}
use k3ncrypt.Base.Dict.{Dict, get, put, delete}

abbrev pub max_sockets_per_address : ℕ
max_sockets_per_address = 64

abbrev pub max_sockets_per_device : ℕ
max_sockets_per_device = 10

pub record Handle : Type 0 where
  pub key : String
  pub released : Bool

-- `slotCounter(cap)`: its bound, its map, and the handles it has given out.
pub record SlotCounter : Type 0 where
  pub bound : ℕ
  pub open_slots : Dict String ℕ
  pub handles : List Handle

abbrev pub or_default : ℕ → Option ℕ → ℕ
or_default d none = d
or_default d (some n) = n

-- The number of the handle, or `undefined`.
pub admit : String → SlotCounter → SlotCounter × Option ℕ
admit key s =
    let count = or_default 0 (get key s.open_slots) in
    if leb s.bound count then (s, none) else (
      record s {
        open_slots = put key (count + 1) s.open_slots;
        handles = s.handles ++ record { key = key; released = false } ∷ [];
      },
      some (length s.handles),
    )

-- `next <= 0` is `next` being zero, also where the count was none.
pub leave : String → Dict String ℕ → Dict String ℕ
leave key slots =
    let next = or_default 1 (get key slots) - 1 in
    if eqb next 0 then delete key slots else put key next slots

-- The handle's number, if there is one that was not called yet.
pub unreleased : ℕ → List Handle → Option String
unreleased n [] = none
unreleased zero (h ∷ hs) = if h.released then none else some h.key
unreleased (suc n) (h ∷ hs) = unreleased n hs

pub mark : ℕ → List Handle → List Handle
mark n [] = []
mark zero (h ∷ hs) = record h { released = true } ∷ hs
mark (suc n) (h ∷ hs) = h ∷ mark n hs

abbrev pub release_of : ℕ → Option String → SlotCounter → SlotCounter
release_of n none s = s
release_of n (some key) s = record s {
  open_slots = leave key s.open_slots;
  handles = mark n s.handles;
}

pub release : ℕ → SlotCounter → SlotCounter
release n s = release_of n (unreleased n s.handles) s
