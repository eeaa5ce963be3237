-- ===== src/Mailbox/Oldest.antt =====
-- The message that a claim takes, told by the rows' fields: the source's order and tests are opened.
use k3ncrypt.Base.{ℕ, ◌≤◌, ◌<◌, ◌≡◌, ◌⊎◌, Option, none, some, String, string_eq}
use k3ncrypt.Mailbox.{OfflineMessage, Condition, active}

abbrev Equals : Option String → String → Type 0
Equals none s = Unit
Equals (some t) s = s ≡ t

abbrev Holds : Option String → Option String → Type 0
Holds none s = Unit
Holds (some t) s = s ≡ some t

-- Each key that a condition has is equal.
pub record Fits (c : Condition) (m : OfflineMessage) : Type 0 where
  pub id : Equals c.id m.id
  pub channel : Equals c.channel m.channel
  pub mailbox : Equals c.mailbox m.mailbox
  pub sender_device : Holds c.sender_device m.sender_device
  pub claim_id : Holds c.claim_id m.claim_id

abbrev pub After : ℕ → Option ℕ → Type 0
After now none = Unit
After now (some t) = now < t

abbrev pub NotAfter : ℕ → Option ℕ → Type 0
NotAfter now none = Unit
NotAfter now (some t) = t ≤ now

-- A row that waits for a receiver: active, of the condition, and not expired.
pub record Waits (now : ℕ) (c : Condition) (m : OfflineMessage) : Type 0 where
  pub state : m.state ≡ active
  pub fits : Fits c m
  pub unexpired : After now m.expires_at

-- At an earlier time, or at the same time and with no greater number.
abbrev pub Precedes : OfflineMessage → OfflineMessage → Type 0
Precedes m n = (m.timestamp < n.timestamp) ⊎ ((m.timestamp ≡ n.timestamp) × (m.pk ≤ n.pk))
