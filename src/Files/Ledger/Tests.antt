-- ===== src/Files/Ledger/Tests.antt =====
-- Calls of backend/attachments/fileLedger.ts at concrete transfers.
use k3ncrypt.Base.{
  ℕ, ◌≡◌, refl, ◌*◌, String, string_eq, nat_eq, true, false, some, none, List, [], ◌∷◌, err, arith,
}
use k3ncrypt.Base.Text.{fits_pattern, times, is_hex, is_digit, is_lower_hex}
use k3ncrypt.Base.Dict.{get, put}
use k3ncrypt.Files.{
  FileContext, WireObject, reservation_bytes, incomplete, available, is_uuid, is_identity_reference,
  is_version, is_variant, is_reference_char, groups, bad_attachment_context, bad_file_context,
}
use k3ncrypt.Files.Wire.{
  letter, b64, value_of, values_of, unpack, same_codes, canonical, decoded, unb64, sealed_bytes,
  sealed,
}
use k3ncrypt.Files.Ledger.{
  StoredFile, quota, authorization, incomplete_transfer, expired_transfer, conflict,
  AuthenticatedContext, expire_file, expire, sum_reserved, over_quota, create_change, live,
  is_sender, is_recipient, authorize, manifest_slot, chunk_slot, chunk_nonce, put_new, put_change,
  some_missing, complete_change, cancel_change, chunk_read, modify, putting, completing, canceling,
  change,
}
use k3ncrypt.Files.Ledger.Quota.{WithinQuota, create_change-WithinQuota}
use k3ncrypt.Files.Ledger.Shape.{IsWellFormed, change-IsWellFormed}
use k3ncrypt.Files.Ledger.Access.{Modified, modify-Modified}
use k3ncrypt.Files.Ledger.Serve.{
  Request, creating, owning, cleaning, serve, serve_all, IsSound, serve_all-IsSound,
}

ledger : Unit {0}
unfolding get put letter b64 value_of values_of unpack same_codes canonical decoded unb64
    sealed_bytes sealed reservation_bytes expire_file expire sum_reserved over_quota create_change
    live is_sender is_recipient authorize chunk_nonce put_new put_change some_missing
    complete_change cancel_change chunk_read modify change serve serve_all
ledger = tt

abbrev sender_reference : String
sender_reference = "K3 AAAA AAAA AAAA AAAA AAAA AAAA AAAA AAAA AAAA AAAA AAA"

abbrev recipient_reference : String
recipient_reference = "K3 BBBB BBBB BBBB BBBB BBBB BBBB BBBB BBBB BBBB BBBB BBB"

-- A file of one byte, in one chunk.
abbrev small : FileContext
small = record {
  transfer_id = "11111111-1111-4111-8111-111111111111";
  binding = record {
    conversation_id = "22222222-2222-4222-8222-222222222222";
    sender_participant_id = "33333333-3333-4333-8333-333333333333";
    recipient_participant_id = "44444444-4444-4444-8444-444444444444";
    sender_identity_reference = sender_reference;
    recipient_identity_reference = recipient_reference;
  };
  file_size = 1;
  chunk_size = 256 * 1024;
  chunk_count = 1;
}

context_tests :
    (bad_file_context small ≡ false)
    × (bad_file_context (record small { chunk_count = 2 }) ≡ true)
    × (bad_file_context (record small { transfer_id = "11111111-1111-9111-8111-111111111111" })
        ≡ true)
unfolding bad_file_context bad_attachment_context is_uuid is_identity_reference is_version
    is_variant is_reference_char groups fits_pattern times is_hex is_digit is_lower_hex
context_tests = (refl, refl, refl)

abbrev owner : AuthenticatedContext
owner = record {
  participant_id = "33333333-3333-4333-8333-333333333333";
  conversation_id = "22222222-2222-4222-8222-222222222222";
  permissions = [];
  identity_reference = some sender_reference;
  account_identity_reference = some "account";
  expires_at = 900_000;
}

abbrev reader : AuthenticatedContext
reader = record owner {
  participant_id = "44444444-4444-4444-8444-444444444444";
  identity_reference = some recipient_reference;
}

abbrev new_file : StoredFile
new_file = record {
  context = small;
  created_at = 5;
  expires_at = 86_400_005;
  state = incomplete;
  manifest = none;
  reserved = 16_663;
  chunks = [];
}

-- Twelve bytes, and seventeen.
abbrev object : WireObject
object = record { nonce = "AAAAAAAAAAAAAAAA"; ciphertext = "AAAAAAAAAAAAAAAAAAAAAAA" }

abbrev manifest_object : WireObject
manifest_object = record { nonce = "BAAAAAAAAAAAAAAA"; ciphertext = "AAAAAAAAAAAAAAAAAAAAAAA" }

abbrev uploaded : StoredFile
uploaded = record new_file {
  state = available;
  manifest = some manifest_object;
  chunks = (0, record { nonce = "AAAAAAAAAAAAAAAA"; bytes = 17 }) ∷ [];
}

abbrev history : List (ℕ × Request)
history =
    (5, creating small)
    ∷ (6, owning owner small.transfer_id (putting (chunk_slot 0) object none))
    ∷ (7, owning owner small.transfer_id (putting manifest_slot manifest_object none))
    ∷ (8, owning owner small.transfer_id completing)
    ∷ []

history_test : serve_all history [] ≡ uploaded ∷ []
unfolding ledger
history_test = refl

error_tests :
    (create_change small 16_663 6 (new_file ∷ new_file ∷ []) ≡ err quota)
    × (modify reader small.transfer_id (change 6 canceling) (new_file ∷ []) ≡ err authorization)
    × (change 6 completing new_file ≡ err incomplete_transfer)
    × (change 86_400_005 completing new_file ≡ err expired_transfer)
    × (change 6 (putting manifest_slot object none) uploaded ≡ err conflict)
    × (chunk_read owner 0 9 (some object) uploaded ≡ err authorization)
    × (serve_all
          ((9, owning owner small.transfer_id canceling) ∷ (172_800_005, cleaning) ∷ [])
          (uploaded ∷ [])
        ≡ [])
unfolding ledger
error_tests = (refl, refl, refl, refl, refl, refl, refl)

empty-WithinQuota : WithinQuota []
unfolding ledger
empty-WithinQuota = omega arith

serve_all-IsSound_example : IsSound (serve_all history [])
serve_all-IsSound_example =
    serve_all-IsSound history [] (record { quota = empty-WithinQuota; files = tt })

create_change-WithinQuota_example : WithinQuota (new_file ∷ [])
unfolding ledger
create_change-WithinQuota_example =
    create_change-WithinQuota small 16_663 5 [] (new_file ∷ []) new_file refl

new_file-IsWellFormed : IsWellFormed new_file
new_file-IsWellFormed = record {
  keys = tt;
  placed = tt;
  nonces = tt;
  apart = tt;
  closed = λ c. cc;
  whole = λ c. cc;
}

abbrev with_chunk : StoredFile
with_chunk = record new_file {
  chunks = (0, record { nonce = "AAAAAAAAAAAAAAAA"; bytes = 17 }) ∷ [];
}

change-IsWellFormed_example : IsWellFormed with_chunk
unfolding ledger
change-IsWellFormed_example =
    change-IsWellFormed 6 (putting (chunk_slot 0) object none) new_file with_chunk refl
      new_file-IsWellFormed

modify-Modified_example :
    Modified owner small.transfer_id
      (change 6 (putting (chunk_slot 0) object none))
      (new_file ∷ [])
      (with_chunk ∷ [])
      with_chunk
unfolding ledger
modify-Modified_example =
    modify-Modified owner small.transfer_id (change 6 (putting (chunk_slot 0) object none))
      (new_file ∷ []) (with_chunk ∷ []) with_chunk refl
