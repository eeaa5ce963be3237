-- ===== src/Mailbox/Moves.antt =====
-- What one call can do to the rows: the operations as a step relation.
use k3ncrypt.Base.{
  ℕ, ◌+◌, ◌≡◌, refl, inl, inr, Bool, false, Option, none, some, List, [], ◌∷◌, ◌++◌, find, keep,
  Bool-cases, Option-cases, String, ◌&&◌,
}
use k3ncrypt.Mailbox.{
  OfflineMessage, OfflineRejectionReason, Collection, Condition, active, rejected, is_active,
  matches, with_key, claim, claim_head, change_row, terminal, remove_first, is_leased, is_acked,
  is_current, insert_offline_message, claim_offline_message, next_active_offline_message,
  ack_offline_message, reject_offline_message, record_offline_rejection,
  delete_expired_offline_messages,
}
use k3ncrypt.Mailbox.Store.{
  Call, store, claim_next, ack, reject, record_rejection, delete_expired, store_new,
  store_offline_message, call, is_mailbox_full, is_global_full, is_device_full, of_mailbox,
}

abbrev pub with_rows : Collection → List OfflineMessage → Collection
with_rows c rows = record c { rows = rows }

abbrev pub appended : Collection → OfflineMessage → Collection
appended c m = record { pk = c.pk + 1; rows = c.rows ++ record m { pk = c.pk } ∷ [] }

pub data Move (now : ℕ) (c : Collection) : Collection → Type 0 where
  stays : Move now c c
  adds :
      (m : OfflineMessage)
      → find (with_key m.dedupe_key) c.rows ≡ none
      → is_mailbox_full now m c ≡ false
      → Move now c (appended c m)
  adds_rejected :
      (m : OfflineMessage)
      → find (with_key m.dedupe_key) c.rows ≡ none
      → m.state ≡ rejected
      → Move now c (appended c m)
  claims :
      (m : OfflineMessage) (condition : Condition) (lease : ℕ) (id : String)
      → next_active_offline_message now condition c.rows ≡ some m
      → is_leased now m.claimed_until ≡ false
      → Move now c (with_rows c (change_row m.pk (claim lease id) c.rows))
  rejects :
      (pk : ℕ) (reason : OfflineRejectionReason) (id : Option String)
      → Move now c (with_rows c (change_row pk (terminal reason now id) c.rows))
  removes :
      (p : OfflineMessage → Bool) (rest : List OfflineMessage)
      → remove_first p c.rows ≡ some rest
      → Move now c (with_rows c rest)
  expires : Move now c (with_rows c (keep (λ m. is_current now m.expires_at) c.rows))

store_new-Move :
    (now : ℕ) (m : OfflineMessage) (c : Collection)
    → find (with_key m.dedupe_key) c.rows ≡ none
    → Move now c (store_new now m c).0
unfolding store_new insert_offline_message is_mailbox_full
store_new-Move now m c e = elim (Bool-cases (is_mailbox_full now m c)) [
  | inl a ↦ rw a stays
  | inr a ↦ elim (Bool-cases (is_global_full now c)) [
    | inl b ↦ rw (a, b) stays
    | inr b ↦ elim (Bool-cases (is_device_full now m.sender_device c)) [
      | inl d ↦ rw (a, b, d) stays
      | inr d ↦ rw (a, b, d, e, insert_offline_message) (adds (record m { state = active }) e a)
    ]
  ]
]

store-Move :
    (now : ℕ) (m : OfflineMessage) (c : Collection) → Move now c (store_offline_message now m c).0
unfolding store_offline_message
store-Move now m c = elim (Option-cases (find (with_key m.dedupe_key) c.rows)) [
  | inl e ↦ rw (e, store_offline_message) (store_new-Move now m c e)
  | inr (n, e) ↦ rw (e, store_offline_message) stays
]

claim-Move :
    (now : ℕ) (condition : Condition) (lease : ℕ) (id : String) (c : Collection)
    → Move now c (claim_offline_message now condition lease id c).0
unfolding claim_offline_message claim_head
claim-Move now condition lease id c =
    elim (Option-cases (next_active_offline_message now condition c.rows)) [
      | inl e ↦ rw e stays
      | inr (m, e) ↦ elim (Bool-cases (is_leased now m.claimed_until)) [
        | inl l ↦ rw (e, l) stays
        | inr l ↦ rw (e, l) (claims m condition lease id e l)
      ]
    ]

ack-Move :
    (now : ℕ) (condition : Condition) (c : Collection)
    → Move now c (ack_offline_message condition c).0
unfolding ack_offline_message
ack-Move now condition c = elim (Option-cases (remove_first (is_acked condition) c.rows)) [
  | inl e ↦ rw (e, ack_offline_message) stays
  | inr (rest, e) ↦ rw (e, ack_offline_message) (removes (is_acked condition) rest e)
]

reject-Move :
    (now : ℕ) (condition : Condition) (reason : OfflineRejectionReason) (c : Collection)
    → Move now c (reject_offline_message condition reason now c).0
unfolding reject_offline_message
reject-Move now condition reason c =
    elim (Option-cases (find (λ m. is_active m.state && matches condition m) c.rows)) [
      | inl e ↦ rw (e, reject_offline_message) stays
      | inr (m, e) ↦ rw (e, reject_offline_message) (rejects m.pk reason condition.claim_id)
    ]

recorded : OfflineMessage → OfflineRejectionReason → ℕ → OfflineMessage
recorded m reason now = record m {
  state = rejected;
  terminal_reason = some reason;
  terminal_at = some now;
  claimed_until = m.expires_at;
}

record-Move :
    (now : ℕ) (m : OfflineMessage) (reason : OfflineRejectionReason) (c : Collection)
    → Move now c (record_offline_rejection m reason now c).0
unfolding record_offline_rejection recorded
record-Move now m reason c = elim (Option-cases (find (with_key m.dedupe_key) c.rows)) [
  | inl e ↦ rw (e, record_offline_rejection) (adds_rejected (recorded m reason now) e refl)
  | inr (n, e) ↦ elim (Bool-cases (is_active n.state)) [
    | inl a ↦ rw (e, a, record_offline_rejection) (rejects n.pk reason none)
    | inr a ↦ rw (e, a, record_offline_rejection) stays
  ]
]

pub call-Move : (now : ℕ) (e : Call) (c : Collection) → Move now c (call now e c)
unfolding call delete_expired_offline_messages
call-Move now (store m) c = store-Move now m c
call-Move now (claim_next channel mailbox lease id) c =
    claim-Move now (of_mailbox channel mailbox) lease id c
call-Move now (ack condition) c = ack-Move now condition c
call-Move now (reject condition reason) c = reject-Move now condition reason c
call-Move now (record_rejection m reason) c = record-Move now m reason c
call-Move now delete_expired c = expires
