-- ===== src/Mailbox.antt =====
-- backend/db: messages for receivers that are away (inMemDB.ts, the mode without MongoDB, and its use
-- in index.ts). A collection is a list in insertion order; its rows are told apart by `pk`. The
-- fields that no reader of these functions looks at are left out. A time in a `Date` is its number.
pub mod Store
pub mod Keys
pub mod Ack
pub mod Quota
mod Tests
pub mod Lease
pub mod Order
pub mod Oldest
pub mod Moves
use k3ncrypt.Base.{
  ℕ, ◌+◌, ◌-◌, String, string_eq, ◌==◌, Bool, true, false, not, ◌&&◌, ◌||◌, Option, none, some,
  List, [], ◌∷◌, ◌++◌, leb, ltb, eqb, if◌then◌else◌, length, keep, find,
}

pub data MessageState : Type 0 where
  active rejected : MessageState

pub data OfflineRejectionReason : Type 0 where
  authenticated_invalid unsupported_message identity_changed : OfflineRejectionReason

pub record OfflineMessage : Type 0 where
  pub pk : ℕ
  pub id : String
  pub dedupe_key : String
  pub channel : String
  pub mailbox : String
  pub sender_device : Option String
  pub timestamp : ℕ
  pub expires_at : Option ℕ
  pub envelope : Option String
  pub state : MessageState
  pub claimed_until : Option ℕ
  pub claim_id : Option String
  pub delivery_attempts : ℕ
  pub terminal_reason : Option OfflineRejectionReason
  pub terminal_at : Option ℕ
  pub terminal_claim_id : Option String

-- The collection, and the next `pk`.
pub record Collection : Type 0 where
  pub pk : ℕ
  pub rows : List OfflineMessage

-- A condition: each key that is present has to be equal.
pub record Condition : Type 0 where
  pub id : Option String
  pub channel : Option String
  pub mailbox : Option String
  pub sender_device : Option String
  pub claim_id : Option String

abbrev pub any_row : Condition
any_row = record {
  id = none;
  channel = none;
  mailbox = none;
  sender_device = none;
  claim_id = none;
}

abbrev pub agrees : Option String → String → Bool
agrees none s = true
agrees (some t) s = s == t

-- `entry[key] === condition[key]`, where the entry may have no such key.
abbrev pub is_text : Option String → String → Bool
is_text none t = false
is_text (some s) t = s == t

abbrev pub agrees_with : Option String → Option String → Bool
agrees_with none s = true
agrees_with (some t) s = is_text s t

pub matches : Condition → OfflineMessage → Bool
matches c m =
    agrees c.id m.id
    && agrees c.channel m.channel
    && agrees c.mailbox m.mailbox
    && agrees_with c.sender_device m.sender_device
    && agrees_with c.claim_id m.claim_id

abbrev pub is_active : MessageState → Bool
is_active active = true
is_active rejected = false

-- `!entry.expiresAt || entry.expiresAt > now`, and the same of a lease, the other way round.
abbrev pub is_current : ℕ → Option ℕ → Bool
is_current now none = true
is_current now (some t) = ltb now t

abbrev pub is_leased : ℕ → Option ℕ → Bool
is_leased now none = false
is_leased now (some t) = ltb now t

-- `offlineMessageFifo(left, right) <= 0`; no two rows have one `pk`, so the identifiers never decide.
pub fifo : OfflineMessage → OfflineMessage → Bool
fifo left right =
    ltb left.timestamp right.timestamp
    || (eqb left.timestamp right.timestamp && leb left.pk right.pk)

pub insert : OfflineMessage → List OfflineMessage → List OfflineMessage
insert m [] = m ∷ []
insert m (n ∷ ms) = if fifo m n then m ∷ n ∷ ms else n ∷ insert m ms

-- `sort(offlineMessageFifo)`.
pub sort : List OfflineMessage → List OfflineMessage
sort [] = []
sort (m ∷ ms) = insert m (sort ms)

abbrev pub first : List OfflineMessage → Option OfflineMessage
first [] = none
first (m ∷ ms) = some m

pub is_deliverable : ℕ → Condition → OfflineMessage → Bool
is_deliverable now c m = is_active m.state && matches c m && is_current now m.expires_at

pub next_active_offline_message : ℕ → Condition → List OfflineMessage → Option OfflineMessage
next_active_offline_message now c rows = first (sort (keep (is_deliverable now c) rows))

abbrev pub take {ℓ} : {A : Type ℓ} → ℕ → List A → List A
take ℕ.zero xs = []
take (ℕ.suc n) [] = []
take (ℕ.suc n) (x ∷ xs) = x ∷ take n xs

pub find_offline_messages : ℕ → Condition → ℕ → List OfflineMessage → List OfflineMessage
find_offline_messages now c limit rows =
    take limit
      (sort (keep (λ m. is_deliverable now c m && not (is_leased now m.claimed_until)) rows))

-- A row changed in place.
pub change_row : ℕ → (OfflineMessage → OfflineMessage) → List OfflineMessage → List OfflineMessage
change_row pk f [] = []
change_row pk f (m ∷ ms) = if eqb m.pk pk then f m ∷ ms else m ∷ change_row pk f ms

abbrev pub with_key : String → OfflineMessage → Bool
with_key key m = m.dedupe_key == key

-- A new row, unless there is one with its key.
pub insert_offline_message : OfflineMessage → Collection → Collection × OfflineMessage
insert_offline_message m c = elim (find (with_key m.dedupe_key) c.rows) [
  | some existing ↦ (c, existing)
  | none ↦ (
    record { pk = c.pk + 1; rows = c.rows ++ record m { pk = c.pk } ∷ [] },
    record m { pk = c.pk },
  )
]

abbrev pub claim : ℕ → String → OfflineMessage → OfflineMessage
claim lease claim_id m = record m {
  claimed_until = some lease;
  claim_id = some claim_id;
  delivery_attempts = m.delivery_attempts + 1;
}

pub claim_head :
    ℕ → ℕ → String → Option OfflineMessage → Collection → Collection × Option OfflineMessage
claim_head now lease claim_id none c = (c, none)
claim_head now lease claim_id (some m) c = if is_leased now m.claimed_until then (c, none) else (
  record c { rows = change_row m.pk (claim lease claim_id) c.rows },
  some (claim lease claim_id m),
)

pub claim_offline_message :
    ℕ → Condition → ℕ → String → Collection → Collection × Option OfflineMessage
claim_offline_message now condition lease claim_id c =
    claim_head now lease claim_id (next_active_offline_message now condition c.rows) c

abbrev pub lease_of : ℕ → Option OfflineMessage → Option ℕ
lease_of now none = none
lease_of now (some m) = if is_leased now m.claimed_until then m.claimed_until else none

pub offline_message_claim_until : ℕ → Condition → Collection → Option ℕ
offline_message_claim_until now condition c =
    lease_of now (next_active_offline_message now condition c.rows)

abbrev pub is_missing : Option String → Bool
is_missing none = true
is_missing (some s) = false

-- Without a claim in the condition, only a row that nobody claimed.
abbrev pub claim_agrees : Option String → Option String → Bool
claim_agrees none held = is_missing held
claim_agrees (some t) held = is_text held t

pub is_acked : Condition → OfflineMessage → Bool
is_acked c m = matches c m && claim_agrees c.claim_id m.claim_id

-- `findIndex` and `splice`: the list without the first row that passes, if there is one.
pub remove_first : (OfflineMessage → Bool) → List OfflineMessage → Option (List OfflineMessage)
remove_first p [] = none
remove_first p (m ∷ ms) =
    if p m then some ms else elim (remove_first p ms) [ none ↦ none | some rest ↦ some (m ∷ rest) ]

pub ack_offline_message : Condition → Collection → Collection × Bool
ack_offline_message condition c = elim (remove_first (is_acked condition) c.rows) [
  | none ↦ (c, false)
  | some rest ↦ (record c { rows = rest }, true)
]

-- What stays of a rejected row; the lease runs until the row itself expires.
abbrev pub terminal : OfflineRejectionReason → ℕ → Option String → OfflineMessage → OfflineMessage
terminal reason now claim_id m = record m {
  state = rejected;
  terminal_reason = some reason;
  terminal_at = some now;
  terminal_claim_id = claim_id;
  claimed_until = m.expires_at;
  envelope = none;
  claim_id = none;
}

pub data OfflineRejectionResult : Type 0 where
  was_rejected duplicate stale : OfflineRejectionResult

pub is_prior : Condition → OfflineMessage → Bool
is_prior c m =
    not (is_active m.state)
    && matches (record c { claim_id = none }) m
    && claim_agrees c.claim_id m.terminal_claim_id

abbrev pub prior_result : Option OfflineMessage → OfflineRejectionResult
prior_result none = stale
prior_result (some m) = duplicate

pub reject_offline_message :
    Condition → OfflineRejectionReason → ℕ → Collection → Collection × OfflineRejectionResult
reject_offline_message condition reason now c =
    elim (find (λ m. is_active m.state && matches condition m) c.rows) [
      | some m ↦ (
        record c { rows = change_row m.pk (terminal reason now condition.claim_id) c.rows },
        was_rejected,
      )
      | none ↦ (c, prior_result (find (is_prior condition) c.rows))
    ]

-- `data` has the fields of the new terminal row.
pub record_offline_rejection :
    OfflineMessage → OfflineRejectionReason → ℕ → Collection → Collection × OfflineRejectionResult
record_offline_rejection m reason now c = elim (find (with_key m.dedupe_key) c.rows) [
  | some existing ↦
      if is_active existing.state
      then (
        record c { rows = change_row existing.pk (terminal reason now none) c.rows },
        was_rejected,
      )
      else (c, duplicate)
  | none ↦ (
    record {
      pk = c.pk + 1;
      rows =
          c.rows
          ++ record m {
            pk = c.pk;
            state = rejected;
            terminal_reason = some reason;
            terminal_at = some now;
            claimed_until = m.expires_at;
          }
            ∷ [];
    },
    was_rejected,
  )
]

-- `!(expiresAt instanceof Date) || expiresAt > now` stays.
pub delete_expired_offline_messages : ℕ → Collection → Collection × ℕ
delete_expired_offline_messages now c =
    let retained = keep (λ m. is_current now m.expires_at) c.rows in
    (record c { rows = retained }, length c.rows - length retained)

pub count_offline_messages : ℕ → Condition → Collection → ℕ
count_offline_messages now condition c = length (keep (is_deliverable now condition) c.rows)
