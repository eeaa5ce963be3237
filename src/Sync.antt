-- ===== src/Sync.antt =====
-- service/src/sync: the states of a synchronisation (stateMachine.ts, contracts.ts) and its fences
-- (fencing.ts).
pub mod Fencing
pub mod Package
pub mod Transfer
use k3ncrypt.Base.{
  ℕ, String, string_eq, ◌==◌, Bool, true, false, not, ◌&&◌, ◌||◌, Option, none, some, List, [], ◌∷◌,
  leb, ltb, eqb, if◌then◌else◌, any, Eq, Result, ok, err, ◌>>=◌, ◌>>◌, throw_if,
}

pub data DeviceSyncState : Type 0 where
  pending approved syncing suspended revoked : DeviceSyncState

pub data TransferState : Type 0 where
  created authorized transferring verified completed failed : TransferState

-- Two states are the same where their numbers are.
abbrev pub device_number : DeviceSyncState → ℕ
device_number pending = 0
device_number approved = 1
device_number syncing = 2
device_number suspended = 3
device_number revoked = 4

abbrev pub transfer_number : TransferState → ℕ
transfer_number created = 0
transfer_number authorized = 1
transfer_number transferring = 2
transfer_number verified = 3
transfer_number completed = 4
transfer_number failed = 5

abbrev pub same_device : DeviceSyncState → DeviceSyncState → Bool
same_device a b = eqb (device_number a) (device_number b)

abbrev pub same_transfer : TransferState → TransferState → Bool
same_transfer a b = eqb (transfer_number a) (transfer_number b)

abbrev pub device_transitions : DeviceSyncState → List DeviceSyncState
device_transitions pending = approved ∷ suspended ∷ revoked ∷ []
device_transitions approved = syncing ∷ suspended ∷ revoked ∷ []
device_transitions syncing = approved ∷ suspended ∷ revoked ∷ []
device_transitions suspended = pending ∷ approved ∷ revoked ∷ []
device_transitions revoked = []

abbrev pub transfer_transitions : TransferState → List TransferState
transfer_transitions created = authorized ∷ failed ∷ []
transfer_transitions authorized = transferring ∷ failed ∷ []
transfer_transitions transferring = verified ∷ failed ∷ []
transfer_transitions verified = completed ∷ failed ∷ []
transfer_transitions completed = []
transfer_transitions failed = []

pub data SyncError : Type 0 where
  invalid_device_transition invalid_transfer_transition : SyncError
  fence_rejected conflicting_fence conflict_rejected resolution_incomplete : SyncError
  invalid_package identity_or_expiry_rejected transfer_unavailable package_rejected not_trusted :
      SyncError
  sequence_conflict manifest_replayed transfer_incomplete content_rejected : SyncError
  authorization_rejected checkpoint_mismatch : SyncError

pub bad_device_transition : DeviceSyncState → DeviceSyncState → Bool
bad_device_transition from to =
    not (same_device from to) && not (any (same_device to) (device_transitions from))

pub bad_transfer_transition : TransferState → TransferState → Bool
bad_transfer_transition from to =
    not (same_transfer from to) && not (any (same_transfer to) (transfer_transitions from))

pub record SyncState : Type 0 where
  pub device : DeviceSyncState
  pub transfer : TransferState

unfoldable pub transition_device : DeviceSyncState → SyncState → Result SyncError SyncState
unfolding bad_device_transition
transition_device next s =
    if bad_device_transition s.device next
    then err invalid_device_transition
    else ok (record s { device = next })

unfoldable pub transition_transfer : TransferState → SyncState → Result SyncError SyncState
unfolding bad_transfer_transition
transition_transfer next s =
    if bad_transfer_transition s.transfer next
    then err invalid_transfer_transition
    else ok (record s { transfer = next })

abbrev pub is_final : TransferState → Bool
is_final completed = true
is_final failed = true
is_final created = false
is_final authorized = false
is_final transferring = false
is_final verified = false

unfoldable pub suspend : SyncState → SyncState
suspend s = record {
  device = if same_device s.device revoked then s.device else suspended;
  transfer = if is_final s.transfer then s.transfer else failed;
}

pub record SyncCheckpoint : Type 0 where
  pub epoch : ℕ
  pub commitment : String

abbrev pub same_checkpoint : SyncCheckpoint → SyncCheckpoint → Bool
same_checkpoint a b = eqb a.epoch b.epoch && a.commitment == b.commitment
