-- ===== src/Files/Ledger/Access.antt =====
-- backend/attachments/fileLedger.ts: who reaches a transfer, and what a call leaves alone.
use k3ncrypt.Base.{
  ℕ, ◌<◌, ◌≡◌, ◌↔◌, refl, inl, inr, String, string_eq, nat_eq, true, false, Option, none, some,
  List, [], ◌∷◌, ◌++◌, ap, ◌∙◌, All, Result, ok, arith, Bool-cases, Result-cases, ◌==◌,
}
use text.Mathlib.TextEquality.{eq_iff}
use k3ncrypt.Base.Dict.{has}
use k3ncrypt.Files.{WireObject, available}
use k3ncrypt.Files.Ledger.{
  StoredFile, FileError, AuthenticatedContext, live, is_reference, is_sender, authorize, chunk_read,
  modify,
}

-- The caller sent this transfer, in the conversation of the call.
pub record Sends (auth : AuthenticatedContext) (f : StoredFile) : Type 0 where
  pub conversation : f.context.conversation_id ≡ auth.conversation_id
  pub participant : auth.participant_id ≡ f.context.sender_participant_id
  pub identity : auth.identity_reference ≡ some f.context.sender_identity_reference

reference_identity : (o : Option String) (r : String) → is_reference o r ≡ true → o ≡ some r
reference_identity none r h = cc
reference_identity (some i) r h = ap some (ground (arith, eq_iff i r))

authorize-Sends :
    (auth : AuthenticatedContext) (f : StoredFile) → authorize auth f true ≡ ok tt → Sends auth f
unfolding authorize is_sender
authorize-Sends auth f h = record {
  conversation = ground (arith, eq_iff f.context.conversation_id auth.conversation_id);
  participant = ground (arith, eq_iff auth.participant_id f.context.sender_participant_id);
  identity =
      reference_identity auth.identity_reference f.context.sender_identity_reference (ground arith);
}

-- One transfer of `ts` was the caller's and became `g`; the others are where they were.
pub record Modified (auth : AuthenticatedContext) (id : String)
    (action : StoredFile → Result FileError StoredFile) (ts us : List StoredFile) (g : StoredFile)
    : Type 0 where
  pub before : List StoredFile
  pub file : StoredFile
  pub after : List StoredFile
  pub was : ts ≡ before ++ file ∷ after
  pub is_now : us ≡ before ++ g ∷ after
  pub first : All (λ t. (t.context.transfer_id == id) ≡ false) before
  pub named : file.context.transfer_id ≡ id
  pub sent : Sends auth file
  pub done : action file ≡ ok g

-- An owner's call that succeeds was made by the sender of the first transfer with the given
-- identifier, replaces that transfer by what the action returns, and changes no other.
pub modify-Modified :
    (auth : AuthenticatedContext) (id : String) (action : StoredFile → Result FileError StoredFile)
    (ts us : List StoredFile) (g : StoredFile)
    → modify auth id action ts ≡ ok (us, g)
    → Modified auth id action ts us g
unfolding modify
modify-Modified auth id action [] us g h = cc
modify-Modified auth id action (f ∷ ts) us g h = elim (Bool-cases (f.context.transfer_id == id)) [
  | inl here ↦ elim (Result-cases (authorize auth f true)) [
    | inr (e, denied) ↦ absurd (ground (arith, here, denied))
    | inl (x, allowed) ↦ elim (Result-cases (action f)) [
      | inr (e, thrown) ↦ absurd (ground (arith, here, allowed, thrown))
      | inl (k, changed) ↦
          let same : g ≡ k = ground (arith, here, allowed, changed) in
          record {
            before = [];
            file = f;
            after = ts;
            was = refl;
            is_now = ground (arith, here, allowed, changed);
            first = tt;
            named = ground (arith, eq_iff f.context.transfer_id id, here);
            sent = authorize-Sends auth f allowed;
            done = rw same changed;
          }
    ]
  ]
  | inr other ↦ elim (Result-cases (modify auth id action ts)) [
    | inr (e, thrown) ↦ absurd (ground (arith, other, thrown))
    | inl ((vs, k), changed) ↦
        let same : g ≡ k = ground (arith, other, changed) in
        let shape : us ≡ f ∷ vs = ground (arith, other, changed) in
        let m = modify-Modified auth id action ts vs g (rw same changed) in
        record {
          before = f ∷ m.before;
          file = m.file;
          after = m.after;
          was = ap (◌∷◌ f) m.was;
          is_now = shape ∙ ap (◌∷◌ f) m.is_now;
          first = (other, m.first);
          named = m.named;
          sent = m.sent;
          done = m.done;
        }
  ]
]

-- What a chunk that is handed out has to satisfy.
pub record Readable (auth : AuthenticatedContext) (index now : ℕ) (f : StoredFile) : Type 0 where
  pub recipient : auth.participant_id ≡ f.context.recipient_participant_id
  pub complete : f.state ≡ available
  pub current : now < f.expires_at
  pub in_range : index < f.context.chunk_count
  pub held : has index f.chunks ≡ true

-- A chunk is handed out exactly when the caller is the recipient, the transfer is available and has
-- not expired, the index is in range and stored, and the persistence has the object.
pub chunk_read_iff :
    (auth : AuthenticatedContext) (index now : ℕ) (fetched : Option WireObject) (f : StoredFile)
    (w : WireObject)
    → (chunk_read auth index now fetched f ≡ ok w)
      ↔ (Readable auth index now f × (fetched ≡ some w))
unfolding chunk_read live
chunk_read_iff auth index now fetched f w = (
  λ h. (
    record {
      recipient = ground (arith, eq_iff auth.participant_id f.context.recipient_participant_id);
      complete = ground arith;
      current = ground arith;
      in_range = ground arith;
      held = ground arith;
    },
    ground arith,
  ),
  λ h.
      let r = h.0 in
      ground (
        arith,
        r.recipient,
        r.complete,
        r.current,
        r.in_range,
        r.held,
        h.1,
        eq_iff auth.participant_id f.context.recipient_participant_id,
      ),
)
