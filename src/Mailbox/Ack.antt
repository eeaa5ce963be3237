-- ===== src/Mailbox/Ack.antt =====
-- What an acknowledgement takes away, and what a worker with an old claim cannot take.
use k3ncrypt.Base.{
  ◌≡◌, refl, sym, ap, ◌∙◌, inl, inr, String, string_eq, Bool, true, false, Option, none, some, List,
  [], ◌∷◌, ◌++◌, arith, Bool-cases, Option-cases,
}
use text.Mathlib.TextEquality.{eq_iff}
use k3ncrypt.Mailbox.{
  OfflineMessage, Collection, Condition, any_row, matches, is_acked, claim_agrees, remove_first,
  ack_offline_message,
}
use k3ncrypt.Mailbox.Moves.{with_rows}

-- The condition of an acknowledgement.
abbrev pub acked : String → String → String → Option String → Condition
acked id mailbox channel claim_id = record any_row {
  id = some id;
  mailbox = some mailbox;
  channel = some channel;
  claim_id = claim_id;
}

remove_first_lem :
    (p : OfflineMessage → Bool) (ms rest : List OfflineMessage)
    → remove_first p ms ≡ some rest
    → (before : List OfflineMessage) × (m : OfflineMessage) × (after : List OfflineMessage) × (ms
        ≡ before ++ m ∷ after)
      × (rest ≡ before ++ after)
      × (p m ≡ true)
unfolding remove_first
remove_first_lem p [] rest e = absurd (ground (arith, e))
remove_first_lem p (m ∷ ms) rest e = elim (Bool-cases (p m)) [
  | inl q ↦ ([], m, ms, refl, ground (arith, e, q), q)
  | inr q ↦ elim (Option-cases (remove_first p ms)) [
    | inl n ↦ absurd (ground (arith, e, q, n))
    | inr (tail, n) ↦
        let (before, x, after, a, b, k) = remove_first_lem p ms tail n in
        let s : rest ≡ m ∷ tail = ground (arith, e, q, n) in
        (m ∷ before, x, after, ap (λ t. m ∷ t) a, s ∙ ap (λ t. m ∷ t) b, k)
  ]
]

claim_agrees_lem : (a b : Option String) → claim_agrees a b ≡ true → b ≡ a
claim_agrees_lem none none h = refl
claim_agrees_lem none (some t) h = cc
claim_agrees_lem (some s) none h = cc
claim_agrees_lem (some s) (some t) h = ap some ((eq_iff t s).0 h)

is_acked_lem :
    (id mailbox channel : String) (claim_id : Option String) (m : OfflineMessage)
    → is_acked (acked id mailbox channel claim_id) m ≡ true
    → (m.id ≡ id) × (m.mailbox ≡ mailbox) × (m.channel ≡ channel) × (m.claim_id ≡ claim_id)
unfolding is_acked matches
is_acked_lem id mailbox channel claim_id m h = (
  ground (arith, h, eq_iff m.id id),
  ground (arith, h, eq_iff m.mailbox mailbox),
  ground (arith, h, eq_iff m.channel channel),
  claim_agrees_lem claim_id m.claim_id (ground (arith, h)),
)

-- What an acknowledgement that answers `done` does with a collection.
abbrev pub Acknowledged :
    (id mailbox channel : String) (claim_id : Option String)
    → Collection
    → Collection
    → (done : Bool) → Type 0
Acknowledged id mailbox channel claim_id c d true =
    (before : List OfflineMessage) × (m : OfflineMessage) × (after : List OfflineMessage) × (c.rows
      ≡ before ++ m ∷ after)
    × (d ≡ with_rows c (before ++ after))
    × (m.id ≡ id)
    × (m.mailbox ≡ mailbox)
    × (m.channel ≡ channel)
    × (m.claim_id ≡ claim_id)
Acknowledged id mailbox channel claim_id c d false = d ≡ c

-- An acknowledgement that succeeds takes one message away and leaves the others in their order. The
-- message has the identifier, the mailbox and the channel given, and is held under just the claim
-- given, or under none where none is given. An acknowledgement that fails changes nothing.
pub ack_offline_message_lem :
    (id mailbox channel : String) (claim_id : Option String) (c d : Collection) (done : Bool)
    → ack_offline_message (acked id mailbox channel claim_id) c ≡ (d, done)
    → Acknowledged id mailbox channel claim_id c d done
unfolding ack_offline_message
ack_offline_message_lem id mailbox channel claim_id c d done h =
    elim (Option-cases (remove_first (is_acked (acked id mailbox channel claim_id)) c.rows)) [
      | inl e ↦
          let r : ◌≡◌ {A = Collection × Bool} (c, false) (d, done) =
            rw (e, ack_offline_message) at h in
          let q : false ≡ done = ap (λ x. x.1) r in rw (sym q) (ap (λ x. x.0) (sym r))
      | inr (rest, e) ↦
          let r : ◌≡◌ {A = Collection × Bool} (with_rows c rest, true) (d, done) =
            rw (e, ack_offline_message) at h in
          let (before, m, after, a, b, k) =
            remove_first_lem (is_acked (acked id mailbox channel claim_id)) c.rows rest e in
          let (x, y, z, t) = is_acked_lem id mailbox channel claim_id m k in
          let q : true ≡ done = ap (λ x. x.1) r in
          rw (sym q) (before, m, after, a, ap (λ y. y.0) (sym r) ∙ ap (with_rows c) b, x, y, z, t)
    ]
