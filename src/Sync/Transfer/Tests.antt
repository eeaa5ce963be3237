-- ===== src/Sync/Transfer/Tests.antt =====
-- A transfer of one chunk, from its authorization to its completion.
use k3ncrypt.Base.{◌≡◌, refl, String, string_eq, nat_eq, true, none, some, List, [], ◌∷◌}
use k3ncrypt.Base.Text.{is_lower_hex, is_digit}
use k3ncrypt.Base.Dict.{get, put}
use k3ncrypt.Devices.{DeviceEntry, active, device_entry_by_id, is_active}
use k3ncrypt.Sync.{
  SyncCheckpoint, approved, suspended, completed, failed, transition_device, transition_transfer,
  suspend,
}
use k3ncrypt.Sync.Package.{
  SyncAuthorization, SyncPackage, sync_chunk, sync_manifest, Payload, other_payload,
  manifest_payload, Boundary, Digests, authorize_sync, bad_authorization, same_list, ends_active,
  is_package, is_id, is_id_char, is_hex_digest, good_manifest,
}
use k3ncrypt.Sync.Transfer.{
  new_transfer, moves, make, sort, insert, other_ends, other_transfer, is_running, keep_package,
  authorize, package_allowed, take_package, accept, complete_with, complete, begin,
}
use k3ncrypt.Sync.Transfer.Completion.{
  TransferCall, authorizing, beginning, accepting, completing, call, run, is_done, HasContent,
  run-HasContent,
}

abbrev hex : String
hex = "0123456789abcdef0123456789abcdef0123456789abcdef0123456789abcdef"

-- Digests that tell packages apart by their payload.
abbrev payload_text : Payload → String
payload_text (other_payload s) = s
payload_text (manifest_payload m) = m.final_content_commitment

abbrev digests : Digests
digests = record {
  list_commitment = λ list. hex;
  digest = λ p. payload_text p.payload;
  content = λ id chunks. hex;
  size = λ p. 100;
}

abbrev checkpoint : SyncCheckpoint
checkpoint = record { epoch = 2; commitment = hex }

abbrev authorization : SyncAuthorization
authorization = record {
  version = 1;
  scope = "user";
  source_device_id = "laptop";
  target_device_id = "phone";
  source_identity_reference = "id-l";
  target_identity_reference = "id-p";
  checkpoint = checkpoint;
  transfer_id = "transfer-0000001";
  expires_at = 100;
  active_member_device_ids = none;
}

abbrev entry : String → String → DeviceEntry
entry id reference = record {
  device_id = id;
  public_identity_reference = reference;
  algorithm = "a";
  state = active;
  created_at = 1;
  revoked_at = none;
  label = none;
}

abbrev boundary : Boundary
boundary = record {
  list = record {
    version = 1;
    identity_reference = "user";
    epoch = 2;
    previous_commitment = none;
    devices = entry "laptop" "id-l" ∷ entry "phone" "id-p" ∷ [];
  };
  trusted = true;
}

abbrev chunk : SyncPackage
chunk = record {
  purpose = sync_chunk;
  scope = "user";
  sender = "laptop";
  sender_identity = "id-l";
  receiver = "phone";
  receiver_identity = "id-p";
  checkpoint = checkpoint;
  stream_id = "stream-000000001";
  sequence = 1;
  message_id = "message-00000001";
  transfer_id = some "transfer-0000001";
  payload = other_payload "c1";
}

abbrev manifest : SyncPackage
manifest = record chunk {
  purpose = sync_manifest;
  sequence = 2;
  payload =
      manifest_payload
        (record { version = 1; expected_chunk_count = 1; final_content_commitment = hex });
}

abbrev sending : List TransferCall
sending =
    authorizing 5 boundary
    ∷ beginning
    ∷ accepting 6 true chunk
    ∷ accepting 7 true manifest
    ∷ completing
    ∷ []

sent_test :
    (run digests authorization sending new_transfer).state
    ≡ record { device = approved; transfer = completed }
unfolding run call authorize authorize_sync bad_authorization same_list ends_active
    device_entry_by_id is_active make moves transition_device transition_transfer begin accept
    package_allowed is_package is_id is_id_char is_hex_digest good_manifest is_lower_hex is_digit
    other_ends is_running other_transfer take_package keep_package get put complete complete_with
    sort insert
sent_test = refl

-- The same sequence with another content suspends the transfer.
clash_test :
    (run digests authorization
      (authorizing 5 boundary
        ∷ beginning
        ∷ accepting 6 true chunk
        ∷ accepting 7 true (record chunk { payload = other_payload "c2" })
        ∷ completing
        ∷ [])
      new_transfer).state
    ≡ record { device = suspended; transfer = failed }
unfolding run call authorize authorize_sync bad_authorization same_list ends_active
    device_entry_by_id is_active make moves transition_device transition_transfer begin accept
    package_allowed is_package is_id is_id_char is_hex_digest good_manifest is_lower_hex is_digit
    other_ends is_running other_transfer take_package keep_package get put complete complete_with
    sort insert suspend
clash_test = refl

done_test : is_done (run digests authorization sending new_transfer).state ≡ true
done_test = rw sent_test refl

run-HasContent_example :
    HasContent digests authorization (run digests authorization sending new_transfer)
run-HasContent_example = run-HasContent digests authorization sending done_test
