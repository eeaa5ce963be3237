-- ===== src/Relay/Clients/Tests.antt =====
-- Connections of backend/socket.io/clients.ts at concrete registries.
use k3ncrypt.Base.{
  ◌≡◌, ◌≤◌, refl, string_eq, true, false, some, List, [], ◌∷◌, ok, err, arith, length,
}
use k3ncrypt.Base.Dict.{get, put, delete}
use k3ncrypt.Relay.Clients.{
  Clients, required_param, get_clients_by_channel, get_sid_by_ids, is_full,
  would_exceed_channel_capacity, set_client_to_channel, delete_in, delete_client,
  is_sender_in_channel,
}
use k3ncrypt.Relay.Clients.Registry.{
  sid, Event, connects, disconnects, run, slot, run-slot, IsPruned, users_of, set-capacity,
}

registry : Unit {0}
unfolding get put delete get_clients_by_channel get_sid_by_ids is_full would_exceed_channel_capacity
    set_client_to_channel delete_in delete_client is_sender_in_channel run slot
registry = tt

abbrev pair : Clients
pair = ("room", ("ann", "s1") ∷ ("bob", "s2") ∷ []) ∷ []

-- Ann reconnects before her old connection ends.
abbrev reconnection : List Event
reconnection = connects "ann" "room" "s3" ∷ disconnects "ann" "room" "s1" ∷ []

registry_tests :
    (would_exceed_channel_capacity "eve" "room" 2 pair ≡ ok true)
    × (would_exceed_channel_capacity "bob" "room" 2 pair ≡ ok false)
    × (get_sid_by_ids "" "room" pair ≡ err required_param)
    × (would_exceed_channel_capacity "eve" "room" 1 (("room", ("undefined", "s5") ∷ []) ∷ [])
        ≡ ok false)
    × (is_sender_in_channel "room" "bob" pair ≡ ok true)
    × (delete_client "ann" "room" "s0" pair ≡ (pair, false))
    × (run (disconnects "ann" "room" "s1" ∷ disconnects "bob" "room" "s2" ∷ []) pair ≡ [])
    × (sid "ann" "room" (run reconnection pair) ≡ some "s3")
unfolding registry
registry_tests = (refl, refl, refl, refl, refl, refl, refl, refl)

run-slot_example :
    sid "ann" "room" (run reconnection pair) ≡ slot "ann" "room" reconnection (some "s1")
unfolding registry
run-slot_example = run-slot reconnection pair "ann" "room"

empty-IsPruned : IsPruned []
unfolding get
empty-IsPruned c users found = cc

set-capacity_example : length (users_of "room" (set_client_to_channel "bob" "room" "s4" pair)) ≤ 2
unfolding registry
set-capacity_example = set-capacity "bob" "room" "s4" 2 pair refl refl (omega arith)
