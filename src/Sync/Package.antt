-- ===== src/Sync/Package.antt =====
-- service/src/sync: packages and authorizations (contracts.ts), with the checks of codec.ts and
-- authorization.ts. Digests, the size of a package's JSON and the trust boundary's answers are parameters.
use k3ncrypt.Base.{
  ℕ, String, string_eq, ◌==◌, Bool, true, false, not, ◌&&◌, ◌||◌, Option, none, some, List, [], ◌∷◌,
  leb, ltb, eqb, nat_eq, all, length, includes, Result, ◌>>◌, throw_if,
}
use k3ncrypt.Base.Text.{codes, is_lower_hex, is_digit}
use k3ncrypt.Devices.{DeviceEntry, DeviceList, is_active, device_entry_by_id}
use k3ncrypt.Sync.{
  SyncCheckpoint, SyncError, not_trusted, authorization_rejected, checkpoint_mismatch,
}

pub record SyncAuthorization : Type 0 where
  pub version : ℕ
  pub scope : String
  pub source_device_id : String
  pub target_device_id : String
  pub source_identity_reference : String
  pub target_identity_reference : String
  pub checkpoint : SyncCheckpoint
  pub transfer_id : String
  pub expires_at : ℕ
  pub active_member_device_ids : Option (List String)

pub data Purpose : Type 0 where
  sync_manifest sync_chunk sync_delta sync_ack sync_reconcile : Purpose

pub record SyncCompletionManifest : Type 0 where
  pub version : ℕ
  pub expected_chunk_count : ℕ
  pub final_content_commitment : String

-- A payload that has the fields of a manifest, or another one.
pub data Payload : Type 0 where
  manifest_payload : SyncCompletionManifest → Payload
  other_payload : String → Payload

pub record SyncPackage : Type 0 where
  pub purpose : Purpose
  pub scope : String
  pub sender : String
  pub sender_identity : String
  pub receiver : String
  pub receiver_identity : String
  pub checkpoint : SyncCheckpoint
  pub stream_id : String
  pub sequence : ℕ
  pub message_id : String
  pub transfer_id : Option String
  pub payload : Payload

pub record SyncAcknowledgement : Type 0 where
  pub transfer_id : String
  pub checkpoint : SyncCheckpoint
  pub sequence : ℕ
  pub digest : String

unfoldable pub is_id_char : ℕ → Bool
is_id_char c =
    (leb b'A' c && leb c b'Z')
    || (leb b'a' c && leb c b'z')
    || is_digit c
    || eqb c b'_'
    || eqb c b'-'

-- /^[A-Za-z0-9_-]{16,128}$/ and /^[0-9a-f]{64}$/.
unfoldable pub is_id : String → Bool
is_id s = leb 16 (length (codes s)) && leb (length (codes s)) 128 && all is_id_char (codes s)

unfoldable pub is_hex_digest : String → Bool
is_hex_digest s = eqb (length (codes s)) 64 && all is_lower_hex (codes s)

abbrev pub is_optional_id : Option String → Bool
is_optional_id none = true
is_optional_id (some s) = is_id s

unfoldable pub good_manifest : Payload → Bool
good_manifest (other_payload s) = false
good_manifest (manifest_payload m) =
    eqb m.version 1
    && leb 1 m.expected_chunk_count
    && leb m.expected_chunk_count 10_000
    && is_hex_digest m.final_content_commitment

abbrev pub good_payload : Purpose → Payload → Bool
good_payload sync_manifest p = good_manifest p
good_payload sync_chunk p = true
good_payload sync_delta p = true
good_payload sync_ack p = true
good_payload sync_reconcile p = true

-- What `decodeSyncPackage` asks of a package of the right types.
unfoldable pub is_package : (size : ℕ) → SyncPackage → Bool
is_package size p =
    leb size 65_536
    && leb 1 p.sequence
    && is_id p.stream_id
    && is_id p.message_id
    && is_optional_id p.transfer_id
    && is_hex_digest p.checkpoint.commitment
    && good_payload p.purpose p.payload

abbrev pub members_of : SyncAuthorization → List String
members_of a = elim a.active_member_device_ids [
  | none ↦ a.source_device_id ∷ a.target_device_id ∷ []
  | some ids ↦ ids
]

abbrev pub has_repeats : List String → Bool
has_repeats [] = false
has_repeats (m ∷ ms) = includes ms m || has_repeats ms

unfoldable pub bad_authorization : ℕ → SyncAuthorization → Bool
bad_authorization now a =
    not (eqb a.version 1)
    || a.scope == ""
    || a.source_device_id == ""
    || a.target_device_id == ""
    || a.source_device_id == a.target_device_id
    || ltb a.expires_at now
    || not (includes (members_of a) a.source_device_id)
    || not (includes (members_of a) a.target_device_id)
    || has_repeats (members_of a)

abbrev pub is_end : String → Option DeviceEntry → Bool
is_end reference none = false
is_end reference (some d) = is_active d.state && d.public_identity_reference == reference

-- The list of the trust boundary's snapshot, and whether it trusts the checkpoint's epoch.
pub record Boundary : Type 0 where
  pub list : DeviceList
  pub trusted : Bool

pub record Digests : Type 0 where
  pub list_commitment : DeviceList → String
  pub digest : SyncPackage → String
  pub content : (transfer_id : String) → List (ℕ × String) → String
  pub size : SyncPackage → ℕ

unfoldable pub same_list : Digests → SyncCheckpoint → DeviceList → Bool
same_list g c list = eqb list.epoch c.epoch && g.list_commitment list == c.commitment

unfoldable pub ends_active : SyncAuthorization → DeviceList → Bool
ends_active a list =
    is_end a.source_identity_reference (device_entry_by_id list.devices a.source_device_id)
    && is_end a.target_identity_reference (device_entry_by_id list.devices a.target_device_id)

unfoldable pub authorize_sync :
    Digests → ℕ → SyncAuthorization → Boundary → Result SyncError (Unit {0})
authorize_sync g now a b = do
  throw_if (bad_authorization now a) authorization_rejected
  throw_if (not (same_list g a.checkpoint b.list)) checkpoint_mismatch
  throw_if (not b.trusted) not_trusted
  throw_if (not (ends_active a b.list)) authorization_rejected
