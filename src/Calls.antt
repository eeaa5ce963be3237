-- ===== src/Calls.antt =====
-- service/src/calls/contracts.ts and callSecurityPolicy.ts: the data of a call. Times are
-- milliseconds; the participants are a list, since the code checks their number when it runs.
pub mod Machine
pub mod Replay
pub mod Pending
use k3ncrypt.Base.{ℕ, String, List}

pub data CallState : Type 0 where
  idle inviting ringing accepted connecting connected reconnecting : CallState
  ended rejected cancelled expired failed : CallState

pub data CallEvent : Type 0 where
  invite accept reject cancel connect connected reconnect end expire fail heartbeat : CallEvent

pub data Verification : Type 0 where
  unknown unverified verified changed_pending_review : Verification

pub data MediaMode : Type 0 where
  audio video : MediaMode

pub record CallParticipant : Type 0 where
  pub participant_id : String
  pub identity_id : String
  pub verification : Verification

pub record CallSession : Type 0 where
  pub call_id : String
  pub conversation_id : String
  pub participants : List CallParticipant
  pub media_mode : MediaMode
  pub state : CallState
  pub created_at : ℕ
  pub updated_at : ℕ
  pub expires_at : ℕ
  pub identity_binding : String
  pub protocol_version : ℕ

pub record CallSecurityPolicy : Type 0 where
  pub invitation_lifetime : ℕ
  pub heartbeat_timeout : ℕ
  pub max_participants : ℕ
  pub max_sequence_gap : ℕ

abbrev pub default_policy : CallSecurityPolicy
default_policy = record {
  invitation_lifetime = 60_000;
  heartbeat_timeout = 30_000;
  max_participants = 2;
  max_sequence_gap = 1;
}

-- The errors that the call code throws; `external` is a rejection of an adapter.
pub data CallError : Type 0 where
  not_expired has_expired invalid_transition : CallError
  unknown_call invalid_participants invalid_incoming attempt_exists : CallError
  unauthorized number_changed check_required binding_changed : CallError
  invalid_signal claim_rejected external : CallError
