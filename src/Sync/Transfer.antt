-- ===== src/Sync/Transfer.antt =====
-- service/src/sync/transfer.ts: one transfer to a recipient, from its authorization to its completion.
pub mod Completion
mod Tests
use Prim.Native.Nat.{zero, suc}
use k3ncrypt.Base.{
  ℕ, ◌+◌, ◌-◌, String, string_eq, ◌==◌, Bool, true, false, not, ◌&&◌, ◌||◌, Option, none, some,
  List, [], ◌∷◌, leb, ltb, eqb, nat_eq, if◌then◌else◌, any, all, length, includes, Result, ok, err,
  ◌>>=◌, ◌>>◌, throw_if, or_throw,
}
use k3ncrypt.Base.Text.{codes, is_lower_hex, is_digit}
use k3ncrypt.Base.Dict.{Dict, get, put}
use k3ncrypt.Devices.{DeviceEntry, DeviceList, is_active, device_entry_by_id}
use k3ncrypt.Sync.{
  DeviceSyncState, pending, approved, syncing, suspended, TransferState, created, authorized,
  transferring, verified, completed, failed, same_device, same_transfer, SyncState,
  transition_device, transition_transfer, suspend, SyncCheckpoint, same_checkpoint, SyncError,
  invalid_package, identity_or_expiry_rejected, transfer_unavailable, package_rejected, not_trusted,
  sequence_conflict, manifest_replayed, transfer_incomplete, content_rejected,
  authorization_rejected, checkpoint_mismatch,
}
use k3ncrypt.Sync.Package.{
  SyncAuthorization, Purpose, sync_manifest, sync_chunk, sync_delta, sync_ack, sync_reconcile,
  SyncCompletionManifest, Payload, manifest_payload, other_payload, SyncPackage,
  SyncAcknowledgement, is_id_char, is_id, is_hex_digest, is_optional_id, good_manifest,
  good_payload, is_package, members_of, has_repeats, bad_authorization, is_end, Boundary, Digests,
  same_list, ends_active, authorize_sync,
}

pub record Transfer : Type 0 where
  pub state : SyncState
  pub received : Dict ℕ String
  pub chunks : Dict ℕ String
  pub manifest : Option SyncCompletionManifest

abbrev pub new_transfer : Transfer
new_transfer = record {
  state = record { device = pending; transfer = created };
  received = [];
  chunks = [];
  manifest = none;
}

-- Transitions one after the other; the first that throws ends them.
pub data Move : Type 0 where
  to_device : DeviceSyncState → Move
  to_transfer : TransferState → Move

abbrev pub move : Move → SyncState → Result SyncError SyncState
move (to_device d) s = transition_device d s
move (to_transfer t) s = transition_transfer t s

pub moves : List Move → SyncState → SyncState × Result SyncError (Unit {0})
moves [] s = (s, ok tt)
moves (m ∷ ms) s = elim (move m s) [ err e ↦ (s, err e) | ok next ↦ moves ms next ]

pub make : List Move → Transfer → Transfer × Result SyncError (Unit {0})
make ms t = (record t { state = (moves ms t.state).0 }, (moves ms t.state).1)

pub insert : ℕ × String → List (ℕ × String) → List (ℕ × String)
insert c [] = c ∷ []
insert c (d ∷ ds) = if leb c.0 d.0 then c ∷ d ∷ ds else d ∷ insert c ds

pub sort : List (ℕ × String) → List (ℕ × String)
sort [] = []
sort (c ∷ cs) = insert c (sort cs)

pub other_ends : ℕ → SyncAuthorization → SyncPackage → Bool
other_ends now a p =
    not (p.sender_identity == a.source_identity_reference)
    || not (p.receiver_identity == a.target_identity_reference)
    || leb a.expires_at now

abbrev pub is_transfer : String → Option String → Bool
is_transfer id none = false
is_transfer id (some other) = other == id

pub other_transfer : SyncAuthorization → SyncPackage → Bool
other_transfer a p =
    not (p.scope == a.scope)
    || not (p.sender == a.source_device_id)
    || not (p.receiver == a.target_device_id)
    || not (is_transfer a.transfer_id p.transfer_id)
    || not (same_checkpoint p.checkpoint a.checkpoint)

pub is_running : SyncState → Bool
is_running s = same_device s.device syncing && same_transfer s.transfer transferring

abbrev pub clashes : String → Option String → Bool
clashes digest none = false
clashes digest (some prior) = not (prior == "") && not (prior == digest)

abbrev pub is_manifest : Purpose → Bool
is_manifest sync_manifest = true
is_manifest sync_chunk = false
is_manifest sync_delta = false
is_manifest sync_ack = false
is_manifest sync_reconcile = false

abbrev pub is_content : Purpose → Bool
is_content sync_chunk = true
is_content sync_delta = true
is_content sync_manifest = false
is_content sync_ack = false
is_content sync_reconcile = false

abbrev pub is_some : Option SyncCompletionManifest → Bool
is_some none = false
is_some (some m) = true

abbrev pub as_manifest : Payload → Option SyncCompletionManifest
as_manifest (manifest_payload m) = some m
as_manifest (other_payload s) = none

-- What a package that is admitted changes.
pub keep_package : String → SyncPackage → Transfer → Transfer
keep_package digest p t = record t {
  received = put p.sequence digest t.received;
  chunks = if is_content p.purpose then put p.sequence digest t.chunks else t.chunks;
  manifest = if is_manifest p.purpose then as_manifest p.payload else t.manifest;
}

module _ (g : Digests) (a : SyncAuthorization) where
  pub authorize : ℕ → Boundary → Transfer → Transfer × Result SyncError (Unit {0})
  authorize now b t = elim (authorize_sync g now a b) [
    | err e ↦ (t, err e)
    | ok u ↦ make (to_device approved ∷ to_transfer authorized ∷ []) t
  ]

  -- The checks before a package's digest is made.
  pub package_allowed : ℕ → (trusted : Bool) → SyncPackage → SyncState → Result SyncError (Unit {0})
  package_allowed now trusted p s = do
    throw_if (not (is_package (g.size p) p)) invalid_package
    throw_if (other_ends now a p) identity_or_expiry_rejected
    throw_if (not (is_running s)) transfer_unavailable
    throw_if (other_transfer a p) package_rejected
    throw_if (not trusted) not_trusted

  pub take_package : SyncPackage → Transfer → Transfer × Result SyncError SyncAcknowledgement
  take_package p t =
      if clashes (g.digest p) (get p.sequence t.received)
      then (record t { state = suspend t.state }, err sequence_conflict)
      else if is_manifest p.purpose && is_some t.manifest
      then (t, err manifest_replayed)
      else (
        keep_package (g.digest p) p t,
        ok (record {
          transfer_id = a.transfer_id;
          checkpoint = a.checkpoint;
          sequence = p.sequence;
          digest = g.digest p;
        }),
      )

  pub accept :
      ℕ
      → (trusted : Bool) → SyncPackage
      → Transfer
      → Transfer × Result SyncError SyncAcknowledgement
  accept now trusted p t = elim (package_allowed now trusted p t.state) [
    | err e ↦ (t, err e)
    | ok u ↦ take_package p t
  ]

  pub complete_with : SyncCompletionManifest → Transfer → Transfer × Result SyncError (Unit {0})
  complete_with m t =
      if not (eqb (length t.chunks) m.expected_chunk_count)
      then (t, err transfer_incomplete)
      else if not (g.content a.transfer_id (sort t.chunks) == m.final_content_commitment)
      then (record t { state = suspend t.state }, err content_rejected)
      else make (to_transfer verified ∷ to_transfer completed ∷ to_device approved ∷ []) t

  pub complete : Transfer → Transfer × Result SyncError (Unit {0})
  complete t = elim t.manifest [ none ↦ (t, err transfer_incomplete) | some m ↦ complete_with m t ]

pub begin : Transfer → Transfer × Result SyncError (Unit {0})
begin t = make (to_device syncing ∷ to_transfer transferring ∷ []) t

pub fail : Transfer → Transfer × Result SyncError (Unit {0})
fail t =
    if same_transfer t.state.transfer completed
    then make (to_device suspended ∷ []) t
    else make (to_transfer failed ∷ to_device suspended ∷ []) t
