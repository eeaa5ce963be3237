-- ===== src/Mailbox/Store.antt =====
-- backend/db/index.ts: storing a message for a receiver that is away, with the caps of
-- storageCaps.ts, and any history of the operations on the messages.
use k3ncrypt.Base.{
  ℕ, String, Bool, false, Option, none, some, List, [], ◌∷◌, leb, find, if◌then◌else◌,
}
use k3ncrypt.Mailbox.{
  OfflineMessage, OfflineRejectionReason, Collection, Condition, any_row, with_key,
  count_offline_messages, insert_offline_message, claim_offline_message, ack_offline_message,
  reject_offline_message, record_offline_rejection, delete_expired_offline_messages, active,
}

abbrev pub mailbox_limit : ℕ
mailbox_limit = 64

abbrev pub offline_global : ℕ
offline_global = 4_000

abbrev pub offline_per_device : ℕ
offline_per_device = 256

pub data StoreError : Type 0 where
  mailbox_quota storage_full_global storage_full_device : StoreError

pub data Stored : Type 0 where
  stored : OfflineMessage → Stored
  refused : StoreError → Stored

-- The condition `{ channel, mailbox }`.
abbrev pub of_mailbox : String → String → Condition
of_mailbox channel mailbox = record any_row { channel = some channel; mailbox = some mailbox }

unfoldable pub is_mailbox_full : ℕ → OfflineMessage → Collection → Bool
is_mailbox_full now m c =
    leb mailbox_limit (count_offline_messages now (of_mailbox m.channel m.mailbox) c)

unfoldable pub is_global_full : ℕ → Collection → Bool
is_global_full now c = leb offline_global (count_offline_messages now any_row c)

unfoldable pub is_device_full : ℕ → Option String → Collection → Bool
is_device_full now none c = false
is_device_full now (some device) c =
    leb offline_per_device
      (count_offline_messages now (record any_row { sender_device = some device }) c)

abbrev pub inserted : Collection × OfflineMessage → Collection × Stored
inserted r = (r.0, stored r.1)

unfoldable pub store_new : ℕ → OfflineMessage → Collection → Collection × Stored
store_new now m c =
    if is_mailbox_full now m c
    then (c, refused mailbox_quota)
    else if is_global_full now c
    then (c, refused storage_full_global)
    else if is_device_full now m.sender_device c
    then (c, refused storage_full_device)
    else inserted (insert_offline_message (record m { state = active }) c)

unfoldable pub store_offline_message : ℕ → OfflineMessage → Collection → Collection × Stored
store_offline_message now m c = elim (find (with_key m.dedupe_key) c.rows) [
  | some duplicate ↦ (c, stored duplicate)
  | none ↦ store_new now m c
]

-- One call of an operation, with the time it is made.
pub data Call : Type 0 where
  store : OfflineMessage → Call
  claim_next : String → String → (lease : ℕ) (claim_id : String) → Call
  ack : Condition → Call
  reject : Condition → OfflineRejectionReason → Call
  record_rejection : OfflineMessage → OfflineRejectionReason → Call
  delete_expired : Call

unfoldable pub call : ℕ → Call → Collection → Collection
call now (store m) c = (store_offline_message now m c).0
call now (claim_next channel mailbox lease id) c =
    (claim_offline_message now (of_mailbox channel mailbox) lease id c).0
call now (ack condition) c = (ack_offline_message condition c).0
call now (reject condition reason) c = (reject_offline_message condition reason now c).0
call now (record_rejection m reason) c = (record_offline_rejection m reason now c).0
call now delete_expired c = (delete_expired_offline_messages now c).0

-- The message that a call hands out.
unfoldable pub handed : ℕ → Call → Collection → Option OfflineMessage
handed now (claim_next channel mailbox lease id) c =
    (claim_offline_message now (of_mailbox channel mailbox) lease id c).1
handed now (store m) c = none
handed now (ack condition) c = none
handed now (reject condition reason) c = none
handed now (record_rejection m reason) c = none
handed now delete_expired c = none

unfoldable pub run : List (ℕ × Call) → Collection → Collection
run [] c = c
run ((now, e) ∷ es) c = run es (call now e c)

abbrev pub add_handed : Option OfflineMessage → List OfflineMessage → List OfflineMessage
add_handed none ms = ms
add_handed (some m) ms = m ∷ ms

-- The messages that a history hands out, in order.
unfoldable pub handed_all : List (ℕ × Call) → Collection → List OfflineMessage
handed_all [] c = []
handed_all ((now, e) ∷ es) c = add_handed (handed now e c) (handed_all es (call now e c))

abbrev pub empty : Collection
empty = record { pk = 0; rows = [] }
