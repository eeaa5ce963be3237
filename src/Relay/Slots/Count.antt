-- ===== src/Relay/Slots/Count.antt =====
-- backend/socket.io/socketLimits.ts: the map counts the handles that were not released.
use k3ncrypt.Base.{
  ℕ, zero, suc, ◌+◌, ◌-◌, ◌≤◌, ◌<◌, ◌≡◌, ◌↔◌, refl, inl, inr, String, string_eq, ◌==◌, true, false,
  not, ◌&&◌, Option, none, some, List, [], ◌∷◌, ◌++◌, leb, eqb, ◌∙◌, if◌then◌else◌, arith,
  Bool-cases,
}
use text.Mathlib.TextEquality.{eq_iff}
use k3ncrypt.Base.Dict.{Dict, get, is_some, get-put, get-delete}
use k3ncrypt.Relay.Slots.{
  Handle, SlotCounter, or_default, admit, leave, unreleased, mark, release_of, release,
}

-- The handles of a key that were not called.
unfoldable pub held : String → List Handle → ℕ
held key [] = 0
held key (h ∷ hs) = if h.key == key && not h.released then 1 + held key hs else held key hs

held-append : (key : String) (hs ks : List Handle) → held key (hs ++ ks) ≡ held key hs + held key ks
unfolding held
held-append key [] ks = omega arith
held-append key (h ∷ hs) ks = ground (arith, held-append key hs ks)

-- Calling a handle for the first time takes one off its key, and only off its key.
held-mark :
    (n : ℕ) (key k : String) (hs : List Handle)
    → unreleased n hs ≡ some k
    → held key hs ≡ (if k == key then held key (mark n hs) + 1 else held key (mark n hs))
unfolding held mark unreleased
held-mark n key k [] h = cc
held-mark zero key k (x ∷ hs) h = ground (arith, h, eq_iff k key)
held-mark (suc n) key k (x ∷ hs) h = ground (arith, held-mark n key k hs h)

-- The map holds for each key the number of its handles that are still held, and no key at zero; no
-- key has more than the bound.
pub record Counts (s : SlotCounter) : Type 0 where
  pub counted : (key : String) → or_default 0 (get key s.open_slots) ≡ held key s.handles
  pub bounded : (key : String) → held key s.handles ≤ s.bound

-- A slot is given exactly when fewer than the bound are held for its key.
admit-held :
    (key : String) (s : SlotCounter)
    → Counts s
    → (is_some (admit key s).1 ≡ true) ↔ (held key s.handles < s.bound)
unfolding admit
admit-held key s v = ground (arith, v.counted key)

admit-Counts : (key : String) (s : SlotCounter) → Counts s → Counts (admit key s).0
unfolding admit held
admit-Counts key s v = elim (Bool-cases (leb s.bound (or_default 0 (get key s.open_slots)))) [
  | inl full ↦ rw full v
  | inr room ↦ rw room (record {
    counted = λ k. rw (get-put key k (or_default 0 (get key s.open_slots) + 1) s.open_slots) (
        ground (
          arith,
          held-append k s.handles (record { key = key; released = false } ∷ []),
          v.counted k,
          v.counted key,
          eq_iff key k,
        ));
    bounded = λ k. ground (
      arith,
      room,
      held-append k s.handles (record { key = key; released = false } ∷ []),
      v.bounded k,
      v.counted k,
      v.counted key,
      eq_iff key k,
    );
  })
]

get-leave :
    (key k : String) (slots : Dict String ℕ)
    → or_default 0 (get k (leave key slots))
      ≡ (if key == k then or_default 0 (get key slots) - 1 else or_default 0 (get k slots))
unfolding leave
get-leave key k slots = elim (Bool-cases (eqb (or_default 1 (get key slots) - 1) 0)) [
  | inl last ↦ rw (last, get-delete key k slots) (ground (arith, last))
  | inr more ↦
      rw (more, get-put key k (or_default 1 (get key slots) - 1) slots) (ground (arith, more))
]

release_of-Counts :
    (n : ℕ) (o : Option String) (s : SlotCounter)
    → unreleased n s.handles ≡ o
    → Counts s
    → Counts (release_of n o s)
release_of-Counts n none s found v = v
release_of-Counts n (some key) s found v = record {
  counted = λ k.
      rw (get-leave key k s.open_slots) (
        ground
          (arith, held-mark n k key s.handles found, v.counted k, v.counted key, eq_iff key k));
  bounded = λ k. ground (arith, held-mark n k key s.handles found, v.bounded k);
}

release-Counts : (n : ℕ) (s : SlotCounter) → Counts s → Counts (release n s)
unfolding release
release-Counts n s v = release_of-Counts n (unreleased n s.handles) s refl v

-- Connections that ask for a slot, and calls of the release functions, in any order and any number.
pub data Use : Type 0 where
  admits : String → Use
  releases : ℕ → Use

abbrev pub use_step : Use → SlotCounter → SlotCounter
use_step (admits key) s = (admit key s).0
use_step (releases n) s = release n s

unfoldable pub run : List Use → SlotCounter → SlotCounter
run [] s = s
run (u ∷ log) s = run log (use_step u s)

use_step-Counts : (u : Use) (s : SlotCounter) → Counts s → Counts (use_step u s)
use_step-Counts (admits key) s v = admit-Counts key s v
use_step-Counts (releases n) s v = release-Counts n s v

-- Whatever is admitted and released, in any order and however often a release function is called, the
-- map counts for each key the handles that were not called yet, and no key has more than the bound.
pub run-Counts : (log : List Use) (s : SlotCounter) → Counts s → Counts (run log s)
unfolding run
run-Counts [] s v = v
run-Counts (u ∷ log) s v = run-Counts log (use_step u s) (use_step-Counts u s v)

use_step-bound : (u : Use) (s : SlotCounter) → (use_step u s).bound ≡ s.bound
unfolding admit release
use_step-bound (admits key) s = ground arith
use_step-bound (releases n) s = ground arith

run-bound : (log : List Use) (s : SlotCounter) → (run log s).bound ≡ s.bound
unfolding run
run-bound [] s = refl
run-bound (u ∷ log) s = run-bound log (use_step u s) ∙ use_step-bound u s

abbrev pub slot_counter : ℕ → SlotCounter
slot_counter bound = record { bound = bound; open_slots = []; handles = [] }

-- After any history of a new counter, of admissions and of calls of the release functions in any order
-- and any number, a slot is given exactly when fewer than the bound are held for its key: given, and
-- not released since.
pub admit_iff :
    (log : List Use) (bound : ℕ) (key : String)
    → (is_some (admit key (run log (slot_counter bound))).1 ≡ true)
      ↔ (held key (run log (slot_counter bound)).handles < bound)
unfolding get held
admit_iff log bound key =
    let v =
      run-Counts log (slot_counter bound)
        (record { counted = λ k. refl; bounded = λ k. omega arith }) in
    ground
      (arith, admit-held key (run log (slot_counter bound)) v, run-bound log (slot_counter bound))
