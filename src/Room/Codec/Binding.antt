-- ===== src/Room/Codec/Binding.antt =====
-- What service/src/crypto/roomMessageV1.ts hands out of the bytes it decodes.
use k3ncrypt.Base.{
  ℕ, ◌≡◌, refl, ap, ◌∙◌, inl, inr, Bool, true, false, not, List, eqb, drop, arith, Bool-cases, ok,
  passed, returned, present,
}
use k3ncrypt.Room.Codec.{
  domain, version, RoomMessageKind, RoomMessageV1, RoomMessageExpectation, DecodedRoomMessage,
  legacy, room_message, is_uuid, is_identity, byte_to_kind, starts_with, take, get_u16, get_u32,
  byte_at,
}
use k3ncrypt.Room.Codec.Frame.{
  validate_kind_payload, is_bound, admit, bad_payload_length, decode_event, bad_binding,
  decode_recipient, decode_sender, decode_body, too_large, decode_legacy, is_short,
  decode_room_message,
}
use k3ncrypt.Room.Codec.RoundTrip.{not-false}
use k3ncrypt.Room.Codec.Bytes.{same_text_lem}

-- A message that was sent in the room expected, by the sender and to the recipient expected, with a
-- payload that fits its kind.
pub record IsBound (is_utf8 : List ℕ → Bool) (expected : RoomMessageExpectation) (m : RoomMessageV1)
    : Type 0 where
  pub room : m.room_id ≡ expected.room_id
  pub sender : m.sender_identity_reference ≡ expected.sender_identity_reference
  pub recipient : m.recipient_identity_reference ≡ expected.recipient_identity_reference
  pub uuid : is_uuid m.room_id ≡ true
  pub sender_identity : is_identity m.sender_identity_reference ≡ true
  pub recipient_identity : is_identity m.recipient_identity_reference ≡ true
  pub valid : validate_kind_payload is_utf8 m.kind m.payload ≡ ok tt

abbrev pub Outcome :
    (List ℕ → Bool) → List ℕ → RoomMessageExpectation → Bool → DecodedRoomMessage → Type 0
Outcome is_utf8 value expected require (legacy payload) =
    (require ≡ false) × (starts_with value domain ≡ false) × (payload ≡ value)
Outcome is_utf8 value expected require (room_message m) =
    (starts_with value domain ≡ true) × IsBound is_utf8 expected m

module _ (is_utf8 : List ℕ → Bool) (expected : RoomMessageExpectation) where
  abbrev Accepted : DecodedRoomMessage → Type 0
  Accepted d = (m : RoomMessageV1) × (d ≡ room_message m) × IsBound is_utf8 expected m

  admit-Accepted :
      (m : RoomMessageV1) (d : DecodedRoomMessage) → admit is_utf8 expected m ≡ ok d → Accepted d
  unfolding admit
  admit-Accepted m d h =
      let (a, h1) = passed (not (is_identity expected.sender_identity_reference)) _ _ h in
      let (b, h2) = passed (not (is_identity expected.recipient_identity_reference)) _ _ h1 in
      let (c, h3) = passed (not (is_uuid expected.room_id)) _ _ h2 in
      let (x, h4) = passed (not (is_bound expected m)) _ _ h3 in
      let (u, v, h5) = returned (validate_kind_payload is_utf8 m.kind m.payload) _ h4 in
      let (f, h6) = passed (not (is_identity m.sender_identity_reference)) _ _ h5 in
      let (g, h7) = passed (not (is_identity m.recipient_identity_reference)) _ _ h6 in
      let y : is_bound expected m ≡ true = not-false (is_bound expected m) x in
      let r : m.room_id ≡ expected.room_id =
        same_text_lem m.room_id expected.room_id (ground (arith, y)) in
      (
        m,
        ground (arith, h7),
        record {
          room = r;
          sender =
              same_text_lem m.sender_identity_reference expected.sender_identity_reference
                (ground (arith, y));
          recipient =
              same_text_lem m.recipient_identity_reference expected.recipient_identity_reference
                (ground (arith, y));
          uuid = ap is_uuid r ∙ not-false (is_uuid expected.room_id) c;
          sender_identity = not-false (is_identity m.sender_identity_reference) f;
          recipient_identity = not-false (is_identity m.recipient_identity_reference) g;
          valid = v;
        },
      )

  event-Accepted :
      (kind : RoomMessageKind) (room sender recipient rest : List ℕ) (d : DecodedRoomMessage)
      → decode_event is_utf8 expected kind room sender recipient rest ≡ ok d
      → Accepted d
  unfolding decode_event
  event-Accepted kind room sender recipient rest d h =
      admit-Accepted _ d
        (passed (bad_payload_length (get_u32 (drop 16 rest)) (drop 20 rest)) _ _ h).1

  recipient-Accepted :
      (kind : RoomMessageKind) (room sender rest : List ℕ) (d : DecodedRoomMessage)
      → decode_recipient is_utf8 expected kind room sender rest ≡ ok d
      → Accepted d
  unfolding decode_recipient
  recipient-Accepted kind room sender rest d h =
      let (a, h1) = passed (bad_binding 20 rest) _ _ h in
      let (b, h2) = passed (not (is_utf8 (take (get_u16 rest) (drop 2 rest)))) _ _ h1 in
      event-Accepted kind room sender (take (get_u16 rest) (drop 2 rest))
        (drop (get_u16 rest) (drop 2 rest)) d h2

  sender-Accepted :
      (kind : RoomMessageKind) (room rest : List ℕ) (d : DecodedRoomMessage)
      → decode_sender is_utf8 expected kind room rest ≡ ok d
      → Accepted d
  unfolding decode_sender
  sender-Accepted kind room rest d h =
      let (a, h1) = passed (bad_binding 2 rest) _ _ h in
      let (b, h2) = passed (not (is_utf8 (take (get_u16 rest) (drop 2 rest)))) _ _ h1 in
      recipient-Accepted kind room (take (get_u16 rest) (drop 2 rest))
        (drop (get_u16 rest) (drop 2 rest)) d h2

  body-Accepted :
      (rest : List ℕ) (d : DecodedRoomMessage)
      → decode_body is_utf8 expected rest ≡ ok d
      → Accepted d
  unfolding decode_body
  body-Accepted rest d h =
      let (a, h1) = passed (not (eqb (byte_at rest) version)) _ _ h in
      let (kind, b, h2) = present (byte_to_kind (byte_at (drop 1 rest))) _ _ h1 in
      sender-Accepted kind (take 16 (drop 2 rest)) (drop 18 rest) d h2

  -- Bytes that are decoded either have no frame, are handed out whole, and only where no frame is
  -- required; or they have one, and the message handed out names the room, the sender and the
  -- recipient expected, with a well-formed room and identities and a payload that fits its kind.
  pub decode_room_message-Outcome :
      (value : List ℕ) (require : Bool) (d : DecodedRoomMessage)
      → decode_room_message is_utf8 value expected require ≡ ok d
      → Outcome is_utf8 value expected require d
  unfolding decode_room_message decode_legacy
  decode_room_message-Outcome value require d h =
      let (a, h1) = passed (too_large value) _ _ h in
      elim (Bool-cases (starts_with value domain)) [
        | inl e ↦
            let (b, h2) = passed (is_short value) _ _ (rw e at h1) in
            let (m, s, k) = body-Accepted (drop 22 value) d h2 in rw s (e, k)
        | inr e ↦ elim (Bool-cases require) [
          | inl r ↦ absurd (ground (arith, rw (e, r, decode_legacy) at h1))
          | inr r ↦
              let s : d ≡ legacy value = ground (arith, rw (e, r, decode_legacy) at h1) in
              rw s (r, e, refl)
        ]
      ]
