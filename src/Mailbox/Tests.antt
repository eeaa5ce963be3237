-- ===== src/Mailbox/Tests.antt =====
-- The messages of backend/db at concrete calls.
use k3ncrypt.Base.{ℕ, ◌≤◌, ◌≡◌, refl, String, true, false, none, some, List, [], ◌∷◌, arith, All}
use k3ncrypt.Mailbox.{
  OfflineMessage, Collection, Condition, active, unsupported_message, matches, is_deliverable, fifo,
  insert, sort, next_active_offline_message, find_offline_messages, change_row, claim, claim_head,
  claim_offline_message, offline_message_claim_until, is_acked, remove_first, ack_offline_message,
  reject_offline_message, is_prior, was_rejected, duplicate, stale, insert_offline_message,
  count_offline_messages, record_offline_rejection, delete_expired_offline_messages,
}
use k3ncrypt.Mailbox.Store.{
  Call, store, claim_next, ack, reject, call, run, empty, handed, handed_all, of_mailbox,
  is_mailbox_full, is_global_full, is_device_full, store_new, store_offline_message, mailbox_limit,
}
use k3ncrypt.Mailbox.Moves.{with_rows}
use k3ncrypt.Mailbox.Quota.{count_offline_messages-run}
use k3ncrypt.Mailbox.Lease.{Other, handed_all-Other}
use k3ncrypt.Mailbox.Ack.{acked, Acknowledged, ack_offline_message_lem}

abbrev message : String → String → ℕ → OfflineMessage
message id key timestamp = record {
  pk = 0;
  id = id;
  dedupe_key = key;
  channel = "room";
  mailbox = "box";
  sender_device = some "phone";
  timestamp = timestamp;
  expires_at = some 1_000;
  envelope = some "sealed";
  state = active;
  claimed_until = none;
  claim_id = none;
  delivery_attempts = 0;
  terminal_reason = none;
  terminal_at = none;
  terminal_claim_id = none;
}

-- The second message stored is the older one; the third has the key of the first.
abbrev stored_three : List (ℕ × Call)
stored_three =
    (1, store (message "a" "ka" 20))
    ∷ (2, store (message "b" "kb" 10))
    ∷ (3, store (message "c" "ka" 5))
    ∷ []

abbrev first_claim : Call
first_claim = claim_next "room" "box" 100 "w1"

abbrev claims_later : List (ℕ × Call)
claims_later =
    (50, claim_next "room" "box" 150 "w2")
    ∷ (60, ack (acked "b" "box" "room" (some "w1")))
    ∷ (70, claim_next "room" "box" 170 "w2")
    ∷ []

abbrev older : OfflineMessage
older = record (message "b" "kb" 10) { pk = 1 }

abbrev newer : OfflineMessage
newer = message "a" "ka" 20

abbrev two : Collection
two = record { pk = 2; rows = newer ∷ older ∷ [] }

store_test : run stored_three empty ≡ two
unfolding run call store_offline_message store_new is_mailbox_full is_global_full is_device_full
    count_offline_messages is_deliverable matches insert_offline_message
store_test = refl

claim_test : handed 10 first_claim two ≡ some (claim 100 "w1" older)
unfolding handed claim_offline_message claim_head next_active_offline_message sort insert fifo
    is_deliverable matches
claim_test = refl

first_claim_test : handed 10 first_claim (run stored_three empty) ≡ some (claim 100 "w1" older)
unfolding run call store_offline_message store_new is_mailbox_full is_global_full is_device_full
    count_offline_messages is_deliverable matches insert_offline_message handed
    claim_offline_message claim_head next_active_offline_message sort insert fifo
first_claim_test = refl

-- While the head is leased nothing is handed out; once it is acknowledged the next one is.
handed_test :
    handed_all ((10, first_claim) ∷ claims_later) two
    ≡ claim 100 "w1" older ∷ claim 170 "w2" newer ∷ []
unfolding handed_all handed call claim_offline_message claim_head next_active_offline_message sort
    insert fifo is_deliverable matches change_row ack_offline_message is_acked remove_first
handed_test = refl

until_test :
    offline_message_claim_until 20 (of_mailbox "room" "box") (call 10 first_claim two) ≡ some 100
unfolding offline_message_claim_until call claim_offline_message claim_head
    next_active_offline_message sort insert fifo is_deliverable matches change_row
until_test = refl

find_test : find_offline_messages 20 (of_mailbox "room" "box") 5 two.rows ≡ older ∷ newer ∷ []
unfolding find_offline_messages sort insert fifo is_deliverable matches
find_test = refl

abbrev rejecting : Condition
rejecting = acked "b" "box" "room" (some "w1")

reject_test :
    (reject_offline_message rejecting unsupported_message 30 (call 10 first_claim two)).1
    ≡ was_rejected
unfolding reject_offline_message call claim_offline_message claim_head next_active_offline_message
    sort insert fifo is_deliverable matches change_row is_prior
reject_test = refl

reject_again_test :
    (reject_offline_message rejecting unsupported_message 31
      (call 30 (reject rejecting unsupported_message) (call 10 first_claim two))).1
    ≡ duplicate
unfolding reject_offline_message call claim_offline_message claim_head next_active_offline_message
    sort insert fifo is_deliverable matches change_row is_prior
reject_again_test = refl

reject_stale_test :
    (reject_offline_message
      (acked "b" "box" "room" (some "w9"))
      unsupported_message
      30
      (call 10 first_claim two)).1
    ≡ stale
unfolding reject_offline_message call claim_offline_message claim_head next_active_offline_message
    sort insert fifo is_deliverable matches change_row is_prior
reject_stale_test = refl

record_test : (record_offline_rejection (message "d" "kd" 5) unsupported_message 30 two).0.pk ≡ 3
unfolding record_offline_rejection
record_test = refl

expired_test : delete_expired_offline_messages 1_000 two ≡ (record { pk = 2; rows = [] }, 2)
unfolding delete_expired_offline_messages
expired_test = refl

handed_all-Other_example :
    All (Other 1) (handed_all claims_later (call 10 first_claim (run stored_three empty)))
handed_all-Other_example =
    handed_all-Other stored_three 10 "room" "box" 100 "w1" (claim 100 "w1" older) first_claim_test
      claims_later (omega arith)

count_offline_messages-run_example :
    count_offline_messages 80 (of_mailbox "room" "box") (run stored_three empty) ≤ mailbox_limit
count_offline_messages-run_example =
    count_offline_messages-run "room" "box" stored_three 80 (omega arith) (omega arith)

-- The message is not claimed, so an acknowledgement under a claim fails.
ack_test : ack_offline_message (acked "b" "box" "room" (some "w1")) two ≡ (two, false)
unfolding ack_offline_message is_acked remove_first matches
ack_test = refl

ack_done_test :
    ack_offline_message (acked "b" "box" "room" none) two ≡ (with_rows two (newer ∷ []), true)
unfolding ack_offline_message is_acked remove_first matches
ack_done_test = refl

ack_offline_message_lem_example :
    Acknowledged "b" "box" "room" none two (with_rows two (newer ∷ [])) true
ack_offline_message_lem_example =
    ack_offline_message_lem "b" "box" "room" none two (with_rows two (newer ∷ [])) true
      ack_done_test
