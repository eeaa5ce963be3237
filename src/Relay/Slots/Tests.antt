-- ===== src/Relay/Slots/Tests.antt =====
-- Slots of backend/socket.io/socketLimits.ts at concrete histories.
use k3ncrypt.Base.{◌≡◌, ◌↔◌, ◌<◌, refl, string_eq, true, some, none, List, [], ◌∷◌}
use k3ncrypt.Base.Dict.{get, put, delete, is_some}
use k3ncrypt.Relay.Slots.{admit, leave, unreleased, mark, release}
use k3ncrypt.Relay.Slots.Count.{held, Use, admits, releases, run, slot_counter, admit_iff}

slots : Unit {0}
unfolding get put delete admit leave unreleased mark release held run
slots = tt

-- The first handle is released twice, and counts once.
abbrev twice : List Use
twice = admits "ip" ∷ admits "ip" ∷ admits "ip" ∷ releases 0 ∷ releases 0 ∷ []

slot_tests :
    ((admit "ip" (run (admits "ip" ∷ admits "ip" ∷ []) (slot_counter 2))).1 ≡ none)
    × ((admit "ip" (run twice (slot_counter 2))).1 ≡ some 2)
    × (held "ip" (run twice (slot_counter 2)).handles ≡ 1)
unfolding slots
slot_tests = (refl, refl, refl)

admit_iff_example :
    (is_some (admit "ip" (run twice (slot_counter 2))).1 ≡ true)
    ↔ (held "ip" (run twice (slot_counter 2)).handles < 2)
admit_iff_example = admit_iff twice 2 "ip"
