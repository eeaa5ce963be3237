-- ===== src/Relay/Clients.antt =====
-- backend/socket.io/clients.ts: the connection of each user in each channel. An identifier is taken
-- not to be the name of a property that every JavaScript object has.
pub mod Registry
mod Tests
use k3ncrypt.Base.{
  ℕ, String, string_eq, ◌==◌, Bool, true, false, not, ◌&&◌, ◌||◌, Option, none, some, List, [], ◌∷◌,
  leb, ltb, if◌then◌else◌, length, Result, ok, err, ◌>>=◌,
}
use k3ncrypt.Base.Dict.{Dict, get, put, delete, has, is_some}

-- `clientRecord`: the `sid` of each user, by channel.
abbrev pub Clients : Type 0
Clients = Dict String (Dict String String)

-- "required param".
pub data ClientError : Type 0 where
  required_param : ClientError

abbrev pub is_empty : String → Bool
is_empty s = s == ""

abbrev pub or_no_users : Option (Dict String String) → Dict String String
or_no_users none = []
or_no_users (some users) = users

pub get_clients_by_channel : String → Clients → Result ClientError (Dict String String)
get_clients_by_channel channel clients =
    if is_empty channel then err required_param else ok (or_no_users (get channel clients))

-- `undefined` and `null` are both `none`. A user that is not found is looked up as `undefined`, which
-- as a key is the text "undefined".
abbrev pub sid_in : String → Option (Dict String String) → Option String
sid_in user none = none
sid_in user (some users) = if has user users then get user users else get "undefined" users

pub get_sid_by_ids : String → String → Clients → Result ClientError (Option String)
get_sid_by_ids user channel clients =
    if is_empty channel || is_empty user
    then err required_param
    else ok (sid_in user (get channel clients))

-- The last test, where neither identifier is empty.
pub is_full : String → String → ℕ → Clients → Result ClientError Bool
is_full user channel capacity clients = do
  users ← get_clients_by_channel channel clients
  sid ← get_sid_by_ids user channel clients
  ok (leb capacity (length users) && not (is_some sid))

pub would_exceed_channel_capacity : String → String → ℕ → Clients → Result ClientError Bool
would_exceed_channel_capacity user channel capacity clients =
    if is_empty user || is_empty channel || ltb capacity 1
    then ok true
    else is_full user channel capacity clients

abbrev pub users_with : String → String → Option (Dict String String) → Dict String String
users_with user sid none = (user, sid) ∷ []
users_with user sid (some users) = put user sid users

pub set_client_to_channel : String → String → String → Clients → Clients
set_client_to_channel user channel sid clients =
    put channel (users_with user sid (get channel clients)) clients

-- `current.sid !== expectedSid`, or no current one.
abbrev pub is_sid : Option String → String → Bool
is_sid none expected = false
is_sid (some sid) expected = sid == expected

-- The channel without a user; an empty channel goes.
abbrev pub put_users : String → Dict String String → Clients → Clients
put_users channel [] clients = delete channel clients
put_users channel (u ∷ users) clients = put channel (u ∷ users) clients

pub delete_in : String → String → String → Option (Dict String String) → Clients → Clients × Bool
delete_in user channel expected none clients = (clients, false)
delete_in user channel expected (some users) clients =
    if is_sid (get user users) expected
    then (put_users channel (delete user users) clients, true)
    else (clients, false)

pub delete_client : String → String → String → Clients → Clients × Bool
delete_client user channel expected clients =
    delete_in user channel expected (get channel clients) clients

-- `!!find(u => u === sender)`: an empty identifier that is found does not count.
pub is_sender_in_channel : String → String → Clients → Result ClientError Bool
is_sender_in_channel channel sender clients = do
  users ← get_clients_by_channel channel clients
  ok (has sender users && not (is_empty sender))
