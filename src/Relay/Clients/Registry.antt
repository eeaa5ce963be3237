-- ===== src/Relay/Clients/Registry.antt =====
-- backend/socket.io/clients.ts: what the registry holds after any history of connections.
use k3ncrypt.Base.{
  ℕ, ◌+◌, ◌≤◌, ◌≡◌, refl, inl, inr, String, string_eq, ◌==◌, Bool, false, ◌&&◌, Option, none, some,
  List, [], ◌∷◌, if◌then◌else◌, length, arith, Bool-cases, Option-cases, ok,
}
use text.Mathlib.TextEquality.{eq_iff}
use k3ncrypt.Base.Dict.{
  Dict, get, put, delete, is_some, get-put, get-put_self, get-delete, length-put,
}
use k3ncrypt.Relay.Clients.{
  Clients, or_no_users, get_clients_by_channel, get_sid_by_ids, is_full,
  would_exceed_channel_capacity, users_with, set_client_to_channel, is_sid, put_users, delete_in,
  delete_client,
}

abbrev pub sid_of : String → Option (Dict String String) → Option String
sid_of user none = none
sid_of user (some users) = get user users

-- The connection of a user in a channel.
abbrev pub sid : String → String → Clients → Option String
sid user channel clients = sid_of user (get channel clients)

abbrev pub same_slot : String → String → String → String → Bool
same_slot user channel u c = channel == c && user == u

sid-set :
    (user channel new u c : String) (clients : Clients)
    → sid u c (set_client_to_channel user channel new clients)
      ≡ (if same_slot user channel u c then some new else sid u c clients)
unfolding set_client_to_channel get
sid-set user channel new u c clients = elim (Option-cases (get channel clients)) [
  | inl fresh ↦
      rw (get-put channel c (users_with user new (get channel clients)) clients)
        (ground (arith, fresh, eq_iff channel c))
  | inr (users, found) ↦
      rw (get-put channel c (users_with user new (get channel clients)) clients)
        (ground (arith, found, eq_iff channel c, get-put user u new users))
]

sid-put_users :
    (channel u c : String) (users : Dict String String) (clients : Clients)
    → sid u c (put_users channel users clients)
      ≡ (if channel == c then get u users else sid u c clients)
unfolding get
sid-put_users channel u c [] clients =
    rw (get-delete channel c clients) (ground (arith, eq_iff channel c))
sid-put_users channel u c (x ∷ users) clients =
    rw (get-put channel c (x ∷ users) clients) (ground (arith))

-- What a disconnection leaves of a slot: nothing, if the slot holds that connection.
abbrev pub without : String → Option String → Option String
without expected o = if is_sid o expected then none else o

delete_in-sid :
    (user channel expected u c : String) (o : Option (Dict String String)) (clients : Clients)
    → get channel clients ≡ o
    → sid u c (delete_in user channel expected o clients).0
      ≡ (if same_slot user channel u c then without expected (sid u c clients) else sid u c clients)
unfolding delete_in
delete_in-sid user channel expected u c none clients found = ground (arith, found, eq_iff channel c)
delete_in-sid user channel expected u c (some users) clients found =
    elim (Bool-cases (is_sid (get user users) expected)) [
      | inl current ↦
          rw (current, sid-put_users channel u c (delete user users) clients)
            (rw (get-delete user u users)
              (ground (arith, found, current, eq_iff channel c, eq_iff user u)))
      | inr other ↦ rw other (ground (arith, found, other, eq_iff channel c, eq_iff user u))
    ]

sid-delete :
    (user channel expected u c : String) (clients : Clients)
    → sid u c (delete_client user channel expected clients).0
      ≡ (if same_slot user channel u c then without expected (sid u c clients) else sid u c clients)
unfolding delete_client
sid-delete user channel expected u c clients =
    delete_in-sid user channel expected u c (get channel clients) clients refl

-- Connections and disconnections of users in channels.
pub data Event : Type 0 where
  connects disconnects : String → String → String → Event

abbrev pub handle : Event → Clients → Clients
handle (connects user channel new) clients = set_client_to_channel user channel new clients
handle (disconnects user channel old) clients = (delete_client user channel old clients).0

unfoldable pub run : List Event → Clients → Clients
run [] clients = clients
run (e ∷ log) clients = run log (handle e clients)

-- One slot by itself: the last connection, until that very connection ends.
abbrev pub slot_step : String → String → Event → Option String → Option String
slot_step u c (connects user channel new) o = if same_slot user channel u c then some new else o
slot_step u c (disconnects user channel old) o =
    if same_slot user channel u c then without old o else o

unfoldable pub slot : String → String → List Event → Option String → Option String
slot u c [] o = o
slot u c (e ∷ log) o = slot u c log (slot_step u c e o)

-- After any history the registry holds for each user and channel what that slot by itself would hold:
-- the connection of the last `setClientToChannel`, unless a later disconnection named that very
-- connection. A delayed disconnection of an older one changes nothing.
pub run-slot :
    (log : List Event) (clients : Clients) (u c : String)
    → sid u c (run log clients) ≡ slot u c log (sid u c clients)
unfolding run slot
run-slot [] clients u c = refl
run-slot (connects user channel new ∷ log) clients u c =
    rw (← sid-set user channel new u c clients)
      (run-slot log (set_client_to_channel user channel new clients) u c)
run-slot (disconnects user channel old ∷ log) clients u c =
    rw (← sid-delete user channel old u c clients)
      (run-slot log (delete_client user channel old clients).0 u c)

abbrev pub NonEmpty : Dict String String → Type 0
NonEmpty [] = ⊥
NonEmpty (u ∷ users) = Unit

-- Every channel that is kept has a user.
abbrev pub IsPruned : Clients → Type 0
IsPruned clients =
    (c : String) (users : Dict String String) → get c clients ≡ some users → NonEmpty users

put_users-IsPruned :
    (channel : String) (users : Dict String String) (clients : Clients)
    → IsPruned clients
    → IsPruned (put_users channel users clients)
put_users-IsPruned channel [] clients v c users found =
    v c users (ground (arith, get-delete channel c clients, found))
put_users-IsPruned channel (x ∷ xs) clients v c users found = elim (Bool-cases (channel == c)) [
  | inl here ↦
      let same : users ≡ x ∷ xs = ground (arith, get-put channel c (x ∷ xs) clients, here, found) in
      rw same tt
  | inr other ↦ v c users (ground (arith, get-put channel c (x ∷ xs) clients, other, found))
]

put-NonEmpty : (user new : String) (users : Dict String String) → NonEmpty (put user new users)
unfolding put
put-NonEmpty user new [] = tt
put-NonEmpty user new ((u, s) ∷ users) = ground arith

users_with-NonEmpty :
    (user new : String) (o : Option (Dict String String)) → NonEmpty (users_with user new o)
users_with-NonEmpty user new none = tt
users_with-NonEmpty user new (some users) = put-NonEmpty user new users

set-IsPruned :
    (user channel new : String) (clients : Clients)
    → IsPruned clients
    → IsPruned (set_client_to_channel user channel new clients)
unfolding set_client_to_channel
set-IsPruned user channel new clients v c users found = elim (Bool-cases (channel == c)) [
  | inl here ↦
      let same : users ≡ users_with user new (get channel clients) = ground (
        arith,
        get-put channel c (users_with user new (get channel clients)) clients,
        here,
        found,
      ) in
      rw same (users_with-NonEmpty user new (get channel clients))
  | inr other ↦ v c users (
      ground (
        arith,
        get-put channel c (users_with user new (get channel clients)) clients,
        other,
        found,
      ))
]

delete_in-IsPruned :
    (user channel expected : String) (o : Option (Dict String String)) (clients : Clients)
    → IsPruned clients
    → IsPruned (delete_in user channel expected o clients).0
unfolding delete_in
delete_in-IsPruned user channel expected none clients v = v
delete_in-IsPruned user channel expected (some users) clients v =
    elim (Bool-cases (is_sid (get user users) expected)) [
      | inl current ↦ rw current (put_users-IsPruned channel (delete user users) clients v)
      | inr other ↦ rw other v
    ]

handle-IsPruned : (e : Event) (clients : Clients) → IsPruned clients → IsPruned (handle e clients)
unfolding delete_client
handle-IsPruned (connects user channel new) clients v = set-IsPruned user channel new clients v
handle-IsPruned (disconnects user channel old) clients v =
    delete_in-IsPruned user channel old (get channel clients) clients v

-- No history leaves a channel without users in the registry.
pub run-IsPruned :
    (log : List Event) (clients : Clients) → IsPruned clients → IsPruned (run log clients)
unfolding run
run-IsPruned [] clients v = v
run-IsPruned (e ∷ log) clients v = run-IsPruned log (handle e clients) (handle-IsPruned e clients v)

abbrev pub users_of : String → Clients → Dict String String
users_of channel clients = or_no_users (get channel clients)

users_with-length :
    (user new : String) (o : Option (Dict String String))
    → length (users_with user new o)
      ≡ (if is_some (sid_of user o) then length (or_no_users o) else length (or_no_users o) + 1)
users_with-length user new none = omega arith
users_with-length user new (some users) = length-put user new users

-- A user for whom `wouldExceedChannelCapacity` answers no can be set, in a channel where nobody is
-- called "undefined": a channel within the capacity stays within it.
pub set-capacity :
    (user channel new : String) (capacity : ℕ) (clients : Clients)
    → would_exceed_channel_capacity user channel capacity clients ≡ ok false
    → get "undefined" (users_of channel clients) ≡ none
    → length (users_of channel clients) ≤ capacity
    → length (users_of channel (set_client_to_channel user channel new clients)) ≤ capacity
unfolding would_exceed_channel_capacity is_full get_clients_by_channel get_sid_by_ids
    set_client_to_channel
set-capacity user channel new capacity clients room nobody fits =
    rw (get-put_self channel (users_with user new (get channel clients)) clients)
      (ground (arith, users_with-length user new (get channel clients), room, nobody, fits))
