-- ===== src/Room/Codec/Frame.antt =====
-- The frames of service/src/crypto/roomMessageV1.ts: encoding and decoding, check by check.
use k3ncrypt.Base.{
  ℕ, ◌+◌, ◌*◌, Bool, true, false, not, ◌&&◌, ◌||◌, List, ◌∷◌, ◌++◌, ltb, eqb, if◌then◌else◌, length,
  drop, Result, ok, err, ◌>>=◌, ◌>>◌, throw_if, or_throw,
}
use k3ncrypt.Room.Codec.{
  domain, version, header_length, canonical_identity_reference_bytes, max_payload_bytes,
  RoomMessageKind, text, attachment_reference, join_introduction, RoomMessageError,
  legacy_forbidden, unsupported_version, unsupported_kind, binding_mismatch, authenticated_invalid,
  invalid_uuid, invalid_identity, payload_too_large, invalid_utf8, RoomMessageV1,
  RoomMessageExpectation, DecodedRoomMessage, legacy, room_message, is_uuid, room_uuid_bytes,
  uuid_text, is_identity, kind_byte, byte_to_kind, starts_with, take, same_text, u16, u32, get_u16,
  get_u32, byte_at, is_file_reference, is_introduction,
}

-- The frame from the sender on, from the event on, and whole.
unfoldable pub event_frame : RoomMessageV1 → List ℕ
event_frame m = room_uuid_bytes m.event_id ++ (u32 (length m.payload) ++ m.payload)

unfoldable pub recipient_frame : RoomMessageV1 → List ℕ
recipient_frame m =
    u16 (length m.recipient_identity_reference) ++ (m.recipient_identity_reference ++ event_frame m)

unfoldable pub sender_frame : RoomMessageV1 → List ℕ
sender_frame m =
    u16 (length m.sender_identity_reference) ++ (m.sender_identity_reference ++ recipient_frame m)

unfoldable pub frame : RoomMessageV1 → List ℕ
frame m = domain ++ (version ∷ kind_byte m.kind ∷ (room_uuid_bytes m.room_id ++ sender_frame m))

abbrev pub is_bound : RoomMessageExpectation → RoomMessageV1 → Bool
is_bound e m =
    same_text m.room_id e.room_id
    && same_text m.sender_identity_reference e.sender_identity_reference
    && same_text m.recipient_identity_reference e.recipient_identity_reference

unfoldable pub bad_payload_length : ℕ → List ℕ → Bool
bad_payload_length n rest = ltb max_payload_bytes n || not (eqb n (length rest))

-- A length that is not 56, or fewer bytes than it and what has to follow.
unfoldable pub bad_binding : ℕ → List ℕ → Bool
bad_binding follows rest =
    not (eqb (get_u16 rest) canonical_identity_reference_bytes)
    || ltb (length (drop 2 rest)) (get_u16 rest + follows)

unfoldable pub too_large : List ℕ → Bool
too_large value =
    ltb (max_payload_bytes + header_length + 2 * canonical_identity_reference_bytes) (length value)

unfoldable pub decode_legacy : Bool → List ℕ → Result RoomMessageError DecodedRoomMessage
decode_legacy require value = if require then err legacy_forbidden else ok (legacy value)

unfoldable pub is_short : List ℕ → Bool
is_short value = ltb (length value) header_length

module _ (is_utf8 : List ℕ → Bool) where
  unfoldable pub validate_kind : RoomMessageKind → List ℕ → Result RoomMessageError (Unit {0})
  validate_kind text payload = do
    throw_if (not (is_utf8 payload)) invalid_utf8
    throw_if (is_file_reference payload || is_introduction payload) authenticated_invalid
    ok tt
  validate_kind attachment_reference payload =
      throw_if (not (is_file_reference payload)) authenticated_invalid
  validate_kind join_introduction payload =
      throw_if (not (is_introduction payload)) authenticated_invalid

  unfoldable pub validate_kind_payload :
      RoomMessageKind → List ℕ → Result RoomMessageError (Unit {0})
  validate_kind_payload kind payload = do
    throw_if (ltb max_payload_bytes (length payload)) payload_too_large
    validate_kind kind payload

  unfoldable pub encode_room_message_v1 : RoomMessageV1 → Result RoomMessageError (List ℕ)
  encode_room_message_v1 m = do
    throw_if (not (is_uuid m.room_id)) invalid_uuid
    throw_if (not (is_identity m.sender_identity_reference)) invalid_identity
    throw_if (not (is_identity m.recipient_identity_reference)) invalid_identity
    throw_if (not (is_uuid m.event_id)) invalid_uuid
    validate_kind_payload m.kind m.payload
    ok (frame m)

  -- The checks after the frame is read.
  unfoldable pub admit :
      RoomMessageExpectation → RoomMessageV1 → Result RoomMessageError DecodedRoomMessage
  admit expected m = do
    throw_if (not (is_identity expected.sender_identity_reference)) invalid_identity
    throw_if (not (is_identity expected.recipient_identity_reference)) invalid_identity
    throw_if (not (is_uuid expected.room_id)) invalid_uuid
    throw_if (not (is_bound expected m)) binding_mismatch
    validate_kind_payload m.kind m.payload
    throw_if (not (is_identity m.sender_identity_reference)) invalid_identity
    throw_if (not (is_identity m.recipient_identity_reference)) invalid_identity
    ok (room_message m)

  unfoldable pub decode_event :
      RoomMessageExpectation
      → RoomMessageKind
      → (room sender recipient rest : List ℕ) → Result RoomMessageError DecodedRoomMessage
  decode_event expected kind room sender recipient rest = do
    let n = get_u32 (drop 16 rest)
    throw_if (bad_payload_length n (drop 20 rest)) authenticated_invalid
    admit expected (record {
      room_id = uuid_text room;
      sender_identity_reference = sender;
      recipient_identity_reference = recipient;
      event_id = uuid_text (take 16 rest);
      kind = kind;
      payload = take n (drop 20 rest);
    })

  unfoldable pub decode_recipient :
      RoomMessageExpectation
      → RoomMessageKind
      → (room sender rest : List ℕ) → Result RoomMessageError DecodedRoomMessage
  decode_recipient expected kind room sender rest = do
    throw_if (bad_binding 20 rest) authenticated_invalid
    throw_if (not (is_utf8 (take (get_u16 rest) (drop 2 rest)))) invalid_utf8
    decode_event expected kind room sender (take (get_u16 rest) (drop 2 rest))
        (drop (get_u16 rest) (drop 2 rest))

  unfoldable pub decode_sender :
      RoomMessageExpectation
      → RoomMessageKind
      → (room rest : List ℕ) → Result RoomMessageError DecodedRoomMessage
  decode_sender expected kind room rest = do
    throw_if (bad_binding 2 rest) authenticated_invalid
    throw_if (not (is_utf8 (take (get_u16 rest) (drop 2 rest)))) invalid_utf8
    decode_recipient expected kind room (take (get_u16 rest) (drop 2 rest))
        (drop (get_u16 rest) (drop 2 rest))

  -- What follows the domain.
  unfoldable pub decode_body :
      RoomMessageExpectation → (rest : List ℕ) → Result RoomMessageError DecodedRoomMessage
  decode_body expected rest = do
    throw_if (not (eqb (byte_at rest) version)) unsupported_version
    kind ← or_throw (byte_to_kind (byte_at (drop 1 rest))) unsupported_kind
    decode_sender expected kind (take 16 (drop 2 rest)) (drop 18 rest)

  unfoldable pub decode_room_message :
      List ℕ
      → RoomMessageExpectation
      → (require : Bool) → Result RoomMessageError DecodedRoomMessage
  decode_room_message value expected require = do
    throw_if (too_large value) authenticated_invalid
    elim (starts_with value domain) [
      | false ↦ decode_legacy require value
      | true ↦ (do
        throw_if (is_short value) authenticated_invalid
        decode_body expected (drop 22 value))
    ]
