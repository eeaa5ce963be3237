-- ===== src/Groups.antt =====
-- service/src/groups: who may change a group's membership (membership.ts), the validation of an event
-- (protocol.ts), the changes (state.ts), and the calls of the runtime (runtime.ts). What is stored is
-- the snapshot; the storage's compare-and-swap, which also updates the keys, answers whether it wrote,
-- and that answer is an input, as are digests and whether a device context was issued.
pub mod Members
pub mod History
mod Tests
use k3ncrypt.Base.{
  ℕ, ◌+◌, String, string_eq, ◌==◌, Bool, true, false, not, ◌&&◌, ◌||◌, Option, none, some, List, [],
  ◌∷◌, ◌++◌, leb, ltb, eqb, if◌then◌else◌, any, find, includes, length, keep, map, Result, ok, err,
  ◌>>=◌, ◌>>◌, throw_if, or_throw,
}
use k3ncrypt.Base.Dict.{Dict, get, put}
use k3ncrypt.Devices.{is_commitment}

pub data GroupMemberState : Type 0 where
  pending active removed : GroupMemberState

pub data Role : Type 0 where
  administrator member_role : Role

pub record GroupMember : Type 0 where
  pub member_id : String
  pub user_identity_reference : String
  pub device_id : String
  pub state : GroupMemberState
  pub role : Option Role

pub record GroupMembershipSnapshot : Type 0 where
  pub group_id : String
  pub epoch : ℕ
  pub members : List GroupMember
  pub transcript_commitment : String

pub data Action : Type 0 where
  observe add activate remove : Action

pub record GroupAuthorization : Type 0 where
  pub group_id : String
  pub actor_device_id : String
  pub target_device_id : Option String
  pub epoch : ℕ
  pub expires_at : ℕ
  pub action : Option Action

pub record GroupMembershipEvent : Type 0 where
  pub version : ℕ
  pub event_id : String
  pub operation : Action
  pub authorization : GroupAuthorization
  pub target_device_id : String
  pub epoch : ℕ
  pub transcript_commitment : String
  pub created_at : ℕ
  pub digest : String

pub data GroupError : Type 0 where
  authorization_rejected event_rejected addition_rejected activation_rejected : GroupError
  removal_rejected changed_concurrently state_unavailable creation_rejected not_issued : GroupError

abbrev pub is_active : GroupMemberState → Bool
is_active active = true
is_active pending = false
is_active removed = false

abbrev pub is_pending : GroupMemberState → Bool
is_pending pending = true
is_pending active = false
is_pending removed = false

abbrev pub is_administrator : Option Role → Bool
is_administrator none = false
is_administrator (some administrator) = true
is_administrator (some member_role) = false

abbrev pub action_number : Action → ℕ
action_number observe = 0
action_number add = 1
action_number activate = 2
action_number remove = 3

abbrev pub is_action : Action → Option Action → Bool
is_action a none = false
is_action a (some b) = eqb (action_number a) (action_number b)

-- An action that changes the group.
abbrev pub is_change : Option Action → Bool
is_change none = false
is_change (some a) = not (eqb (action_number a) 0)

pub member_at : String → List GroupMember → Option GroupMember
member_at id members = find (λ m. m.device_id == id) members

abbrev pub may_act : Option Action → Option GroupMember → Bool
may_act action none = false
may_act action (some m) = is_active m.state && (not (is_change action) || is_administrator m.role)

abbrev pub unknown_target : GroupAuthorization → List GroupMember → Bool
unknown_target c members = elim c.target_device_id [
  | none ↦ false
  | some id ↦
      not (id == "") && not (is_action add c.action) && not (any (λ m. m.device_id == id) members)
]

pub bad_change : ℕ → GroupAuthorization → GroupMembershipSnapshot → Bool
bad_change now c s =
    not (c.group_id == s.group_id) || not (eqb c.epoch s.epoch) || leb c.expires_at now

-- `GroupMembershipService.authorize`.
pub authorize_change :
    ℕ → GroupAuthorization → GroupMembershipSnapshot → Result GroupError (Unit {0})
authorize_change now c s = do
  throw_if (bad_change now c s) authorization_rejected
  throw_if (not (may_act c.action (member_at c.actor_device_id s.members))) authorization_rejected
  throw_if (unknown_target c s.members) authorization_rejected

abbrev pub is_target : String → Option String → Bool
is_target id none = false
is_target id (some other) = other == id

pub bad_event :
    (digest_of : GroupMembershipEvent → String)
    → ℕ
    → List String
    → GroupMembershipEvent
    → GroupMembershipSnapshot
    → Bool
bad_event digest_of now seen e s =
    not (eqb e.version 1)
    || e.event_id == ""
    || includes seen e.event_id
    || not (is_commitment e.transcript_commitment)
    || not (is_commitment e.digest)
    || not (eqb e.epoch s.epoch)
    || not (e.transcript_commitment == s.transcript_commitment)
    || ltb now e.created_at
    || ltb (e.created_at + 300_000) now
    || not (e.authorization.group_id == s.group_id)
    || not (eqb e.authorization.epoch s.epoch)
    || not (is_action e.operation e.authorization.action)
    || not (is_target e.target_device_id e.authorization.target_device_id)
    || not (digest_of e == e.digest)

-- `GroupMembershipProtocol.validate`, which remembers the event.
pub validate :
    (digest_of : GroupMembershipEvent → String)
    → ℕ
    → List String
    → GroupMembershipEvent
    → GroupMembershipSnapshot
    → Result GroupError (List String)
validate digest_of now seen e s = do
  throw_if (bad_event digest_of now seen e s) event_rejected
  authorize_change now e.authorization s
  ok (seen ++ e.event_id ∷ [])

-- The state of the member at a device, set; `members.map` of activation and removal.
pub set_state : String → GroupMemberState → List GroupMember → List GroupMember
set_state id state [] = []
set_state id state (m ∷ ms) =
    (if m.device_id == id then record m { state = state } else m) ∷ set_state id state ms

pub next_snapshot :
    (commitment : GroupMembershipSnapshot → List GroupMember → String)
    → GroupMembershipSnapshot
    → List GroupMember
    → GroupMembershipSnapshot
next_snapshot commitment s members = record s {
  epoch = s.epoch + 1;
  members = members;
  transcript_commitment = commitment s members;
}

pub is_taken : GroupMember → List GroupMember → Bool
is_taken m members = any (λ e. e.device_id == m.device_id || e.member_id == m.member_id) members

pub added_members : GroupMember → GroupMembershipSnapshot → Result GroupError (List GroupMember)
added_members m s = do
  throw_if (not (is_pending m.state) || is_taken m s.members) addition_rejected
  ok (s.members ++ m ∷ [])

abbrev pub is_pending_member : Option GroupMember → Bool
is_pending_member none = false
is_pending_member (some m) = is_pending m.state

pub activated_members : String → GroupMembershipSnapshot → Result GroupError (List GroupMember)
activated_members id s = do
  throw_if (not (is_pending_member (member_at id s.members))) activation_rejected
  ok (set_state id active s.members)

abbrev pub is_removable : String → Option GroupMember → Bool
is_removable actor none = false
is_removable actor (some m) = is_active m.state && not (m.device_id == actor)

pub removed_members :
    String → String → GroupMembershipSnapshot → Result GroupError (List GroupMember)
removed_members actor id s = do
  throw_if (not (is_removable actor (member_at id s.members))) removal_rejected
  ok (set_state id removed s.members)

-- The sender of a device context, where its session is ready and encrypted and the sender verified.
pub record Sender : Type 0 where
  pub ready : Bool
  pub encrypted : Bool
  pub verified : Bool
  pub device_id : String
  pub identity_reference : String

abbrev pub matches_context : Sender → Option GroupMember → Bool
matches_context c none = false
matches_context c (some m) =
    c.ready
    && c.encrypted
    && c.verified
    && m.device_id == c.device_id
    && m.user_identity_reference == c.identity_reference

-- What is stored of each group, and the identifiers of the events that were validated.
pub record Group : Type 0 where
  pub stored : Dict String GroupMembershipSnapshot
  pub seen : List String

-- What a call is given besides its event: the time, whether the context was issued, its sender, and
-- whether the compare-and-swap writes.
pub record Around : Type 0 where
  pub now : ℕ
  pub issued : Bool
  pub sender : Sender
  pub writes : Bool

abbrev pub with_action : Action → Option String → GroupAuthorization → GroupAuthorization
with_action action target c = record c { action = some action; target_device_id = target }

-- `add` with a member, `activate` and `remove` of the runtime.
pub data Request : Type 0 where
  adding : GroupMember → Request
  activating removing : Request

abbrev pub wrong_operation : Request → GroupMembershipEvent → Bool
wrong_operation (adding m) e =
    not (is_action add (some e.operation)) || not (e.target_device_id == m.device_id)
wrong_operation activating e = not (is_action activate (some e.operation))
wrong_operation removing e = not (is_action remove (some e.operation))

-- The members that the state service makes, after its own authorization.
pub changed_members :
    ℕ
    → Request
    → GroupMembershipEvent
    → GroupMembershipSnapshot
    → Result GroupError (List GroupMember)
changed_members now (adding m) e s = do
  authorize_change now (with_action add e.authorization.target_device_id e.authorization) s
  added_members m s
changed_members now activating e s = do
  authorize_change now (with_action activate (some e.target_device_id) e.authorization) s
  activated_members e.target_device_id s
changed_members now removing e s = do
  authorize_change now (with_action remove (some e.target_device_id) e.authorization) s
  removed_members e.authorization.actor_device_id e.target_device_id s

module _ (digest_of : GroupMembershipEvent → String)
    (commitment : GroupMembershipSnapshot → List GroupMember → String) where
  pub commit_members :
      (writes : Bool)
      → GroupMembershipSnapshot
      → List GroupMember
      → Group
      → Group × Result GroupError GroupMembershipSnapshot
  commit_members writes s members g =
      if writes
      then (
        record g { stored = put s.group_id (next_snapshot commitment s members) g.stored },
        ok (next_snapshot commitment s members),
      )
      else (g, err changed_concurrently)

  pub change_validated :
      Around
      → Request
      → GroupMembershipEvent
      → GroupMembershipSnapshot
      → Group
      → Group × Result GroupError GroupMembershipSnapshot
  change_validated c r e s g = elim (changed_members c.now r e s) [
    | err x ↦ (g, err x)
    | ok members ↦ commit_members c.writes s members g
  ]

  pub change_stored :
      Around
      → Request
      → GroupMembershipEvent
      → GroupMembershipSnapshot
      → Group
      → Group × Result GroupError GroupMembershipSnapshot
  change_stored c r e s g =
      if not (matches_context c.sender (member_at e.authorization.actor_device_id s.members))
      then (g, err authorization_rejected)
      else elim (validate digest_of c.now g.seen e s) [
        | err x ↦ (g, err x)
        | ok seen ↦ change_validated c r e s (record g { seen = seen })
      ]

  pub change :
      Around
      → Request
      → GroupMembershipEvent
      → Group
      → Group × Result GroupError GroupMembershipSnapshot
  change c r e g =
      if wrong_operation r e
      then (g, err event_rejected)
      else if not c.issued
      then (g, err not_issued)
      else elim (get e.authorization.group_id g.stored) [
        | none ↦ (g, err state_unavailable)
        | some s ↦ change_stored c r e s g
      ]

abbrev pub is_lead : GroupMember → Bool
is_lead m = is_active m.state && is_administrator m.role

abbrev pub is_only : Sender → List GroupMember → Bool
is_only c [] = false
is_only c (m ∷ []) = matches_context c (some m)
is_only c (m ∷ n ∷ ms) = false

abbrev pub is_stored : Option GroupMembershipSnapshot → Bool
is_stored none = false
is_stored (some s) = true

pub bad_creation : Around → GroupMembershipSnapshot → Group → Bool
bad_creation c s g =
    not (eqb s.epoch 0)
    || not (is_only c.sender (keep is_lead s.members))
    || is_stored (get s.group_id g.stored)

pub create :
    Around → GroupMembershipSnapshot → Group → Group × Result GroupError GroupMembershipSnapshot
create c s g =
    if not c.issued
    then (g, err not_issued)
    else if bad_creation c s g || not c.writes
    then (g, err creation_rejected)
    else (record g { stored = put s.group_id s g.stored }, ok s)
