-- ===== src/Room/Codec/RoundTrip.antt =====
-- What service/src/crypto/roomMessageV1.ts encodes it decodes.
use k3ncrypt.Base.{
  ℕ, ◌+◌, ◌≤◌, ◌≡◌, refl, Bool, true, false, not, List, ◌∷◌, ◌++◌, ltb, eqb, length, length-append,
  drop, all, arith, some, ok, passed, returned,
}
use k3ncrypt.Room.Codec.{
  Text, domain, version, max_payload_bytes, RoomMessageKind, text, attachment_reference,
  join_introduction, RoomMessageV1, RoomMessageExpectation, room_message, is_uuid, room_uuid_bytes,
  is_identity, kind_byte, byte_to_kind, starts_with, take, u16, u32, get_u32,
}
use k3ncrypt.Room.Codec.Frame.{
  validate_kind_payload, event_frame, recipient_frame, sender_frame, frame, encode_room_message_v1,
  admit, bad_payload_length, decode_event, bad_binding, decode_recipient, decode_sender,
  decode_body, too_large, is_short, decode_room_message,
}
use k3ncrypt.Room.Codec.Uuid.{uuid_text-bytes, length-uuid}
use k3ncrypt.Room.Codec.Bytes.{
  take-append, drop-append, take_all, same_text_refl, identity_ascii, u32_lem,
}

-- A message that the encoder accepts.
pub record IsMessage (is_utf8 : List ℕ → Bool) (m : RoomMessageV1) : Type 0 where
  pub room : is_uuid m.room_id ≡ true
  pub sender : is_identity m.sender_identity_reference ≡ true
  pub recipient : is_identity m.recipient_identity_reference ≡ true
  pub event : is_uuid m.event_id ≡ true
  pub size : ltb max_payload_bytes (length m.payload) ≡ false
  pub valid : validate_kind_payload is_utf8 m.kind m.payload ≡ ok tt

abbrev pub expectation : RoomMessageV1 → RoomMessageExpectation
expectation m = record {
  room_id = m.room_id;
  sender_identity_reference = m.sender_identity_reference;
  recipient_identity_reference = m.recipient_identity_reference;
}

pub not-false : (b : Bool) → not b ≡ false → b ≡ true
not-false true h = refl
not-false false h = cc

kind_lem : (k : RoomMessageKind) → byte_to_kind (kind_byte k) ≡ some k
kind_lem text = refl
kind_lem attachment_reference = refl
kind_lem join_introduction = refl

module _ (is_utf8 : List ℕ → Bool) where
  payload_size :
      (m : RoomMessageV1)
      → validate_kind_payload is_utf8 m.kind m.payload ≡ ok tt
      → ltb max_payload_bytes (length m.payload) ≡ false
  unfolding validate_kind_payload
  payload_size m e = (passed (ltb max_payload_bytes (length m.payload)) _ _ e).0

  encode_room_message_v1_lem :
      (m : RoomMessageV1) (value : List ℕ)
      → encode_room_message_v1 is_utf8 m ≡ ok value
      → IsMessage is_utf8 m × (value ≡ frame m)
  unfolding encode_room_message_v1
  encode_room_message_v1_lem m value h =
      let (a, h1) = passed (not (is_uuid m.room_id)) _ _ h in
      let (b, h2) = passed (not (is_identity m.sender_identity_reference)) _ _ h1 in
      let (c, h3) = passed (not (is_identity m.recipient_identity_reference)) _ _ h2 in
      let (d, h4) = passed (not (is_uuid m.event_id)) _ _ h3 in
      let (u, e, h5) = returned (validate_kind_payload is_utf8 m.kind m.payload) _ h4 in
      (
        record {
          room = not-false (is_uuid m.room_id) a;
          sender = not-false (is_identity m.sender_identity_reference) b;
          recipient = not-false (is_identity m.recipient_identity_reference) c;
          event = not-false (is_uuid m.event_id) d;
          size = payload_size m e;
          valid = e;
        },
        ground (arith, h5),
      )

  admit_lem :
      (m : RoomMessageV1)
      → IsMessage is_utf8 m
      → admit is_utf8 (expectation m) m ≡ ok (room_message m)
  unfolding admit
  admit_lem m v =
      rw
        (
          v.sender,
          v.recipient,
          v.room,
          same_text_refl m.room_id,
          same_text_refl m.sender_identity_reference,
          same_text_refl m.recipient_identity_reference,
          v.valid,
          admit,
        )
        refl

  decode_event_lem :
      (m : RoomMessageV1)
      → IsMessage is_utf8 m
      → decode_event is_utf8
          (expectation m)
          m.kind
          (room_uuid_bytes m.room_id)
          m.sender_identity_reference
          m.recipient_identity_reference
          (event_frame m)
        ≡ ok (room_message m)
  unfolding decode_event event_frame bad_payload_length
  decode_event_lem m v =
      let event : List ℕ = room_uuid_bytes m.event_id in
      let body : List ℕ = u32 (length m.payload) ++ m.payload in
      let n : length event ≡ 16 = length-uuid m.event_id v.event in
      let small : length m.payload ≤ max_payload_bytes = ground (arith, v.size) in
      let a : drop 16 (event ++ body) ≡ body = drop-append 16 0 event body n in
      let b : drop 20 (event ++ body) ≡ m.payload = drop-append 16 4 event body n in
      let c : take 16 (event ++ body) ≡ event = take-append 16 event body n in
      let d : get_u32 body ≡ length m.payload = u32_lem (length m.payload) m.payload small in
      let f : eqb (length m.payload) (length m.payload) ≡ true = ground arith in
      rw
        (
          decode_event,
          event_frame,
          a,
          b,
          c,
          d,
          bad_payload_length,
          f,
          v.size,
          take_all m.payload,
          uuid_text-bytes m.room_id v.room,
          uuid_text-bytes m.event_id v.event,
        )
        (admit_lem m v)

  length-event_frame : (m : RoomMessageV1) → IsMessage is_utf8 m → 20 ≤ length (event_frame m)
  unfolding event_frame
  length-event_frame m v = omega (
    arith,
    length-uuid m.event_id v.event,
    length-append (room_uuid_bytes m.event_id) (u32 (length m.payload) ++ m.payload),
  )

  -- A binding of 56 bytes read: its text, and the rest.
  bad_binding_lem :
      (follows : ℕ) (t rest : List ℕ)
      → length t ≡ 56
      → follows ≤ length rest
      → bad_binding follows (u16 (length t) ++ (t ++ rest)) ≡ false
  unfolding bad_binding
  bad_binding_lem follows t rest h k = rw h (ground (arith, h, k, length-append t rest))

  module _ (ascii : (bs : List ℕ) → all (λ c. ltb c 128) bs ≡ true → is_utf8 bs ≡ true) where
    identity_utf8 : (t : Text) → is_identity t ≡ true → is_utf8 t ≡ true
    identity_utf8 t h = ascii t (identity_ascii t h).1

    decode_recipient_lem :
        (m : RoomMessageV1)
        → IsMessage is_utf8 m
        → decode_recipient is_utf8
            (expectation m)
            m.kind
            (room_uuid_bytes m.room_id)
            m.sender_identity_reference
            (recipient_frame m)
          ≡ ok (room_message m)
    unfolding decode_recipient recipient_frame
    decode_recipient_lem m v =
        let t : Text = m.recipient_identity_reference in
        let n : length t ≡ 56 = (identity_ascii t v.recipient).0 in
        let good : bad_binding 20 (u16 (length t) ++ (t ++ event_frame m)) ≡ false =
          bad_binding_lem 20 t (event_frame m) n (length-event_frame m v) in
        let a : take 56 (t ++ event_frame m) ≡ t = take-append 56 t (event_frame m) n in
        let b : drop 56 (t ++ event_frame m) ≡ event_frame m =
          drop-append 56 0 t (event_frame m) n in
        rw (decode_recipient, recipient_frame, good, n, a, b, identity_utf8 t v.recipient)
          (decode_event_lem m v)

    decode_sender_lem :
        (m : RoomMessageV1)
        → IsMessage is_utf8 m
        → decode_sender is_utf8 (expectation m) m.kind (room_uuid_bytes m.room_id) (sender_frame m)
          ≡ ok (room_message m)
    unfolding decode_sender sender_frame
    decode_sender_lem m v =
        let t : Text = m.sender_identity_reference in
        let n : length t ≡ 56 = (identity_ascii t v.sender).0 in
        let good : bad_binding 2 (u16 (length t) ++ (t ++ recipient_frame m)) ≡ false =
          bad_binding_lem 2 t (recipient_frame m) n (unfold recipient_frame in omega arith) in
        let a : take 56 (t ++ recipient_frame m) ≡ t = take-append 56 t (recipient_frame m) n in
        let b : drop 56 (t ++ recipient_frame m) ≡ recipient_frame m =
          drop-append 56 0 t (recipient_frame m) n in
        rw (decode_sender, sender_frame, good, n, a, b, identity_utf8 t v.sender)
          (decode_recipient_lem m v)

    decode_body_lem :
        (m : RoomMessageV1)
        → IsMessage is_utf8 m
        → decode_body is_utf8
            (expectation m)
            (version ∷ kind_byte m.kind ∷ (room_uuid_bytes m.room_id ++ sender_frame m))
          ≡ ok (room_message m)
    unfolding decode_body
    decode_body_lem m v =
        let room : List ℕ = room_uuid_bytes m.room_id in
        let n : length room ≡ 16 = length-uuid m.room_id v.room in
        let a : take 16 (room ++ sender_frame m) ≡ room = take-append 16 room (sender_frame m) n in
        let b : drop 16 (room ++ sender_frame m) ≡ sender_frame m =
          drop-append 16 0 room (sender_frame m) n in
        rw (decode_body, kind_lem m.kind, a, b) (decode_sender_lem m v)

    length-frame :
        (m : RoomMessageV1) → IsMessage is_utf8 m → length (frame m) ≡ 176 + length m.payload
    unfolding frame sender_frame recipient_frame event_frame
    length-frame m v =
        let s : Text = m.sender_identity_reference in
        let r : Text = m.recipient_identity_reference in
        omega (
          arith,
          length-uuid m.room_id v.room,
          length-uuid m.event_id v.event,
          (identity_ascii s v.sender).0,
          (identity_ascii r v.recipient).0,
          length-append (room_uuid_bytes m.room_id) (sender_frame m),
          length-append s (recipient_frame m),
          length-append r (event_frame m),
          length-append (room_uuid_bytes m.event_id) (u32 (length m.payload) ++ m.payload),
        )

    frame-domain : (m : RoomMessageV1) → starts_with (frame m) domain ≡ true
    unfolding frame starts_with
    frame-domain m = refl

    frame_body :
        (m : RoomMessageV1)
        → drop 22 (frame m)
          ≡ version ∷ kind_byte m.kind ∷ (room_uuid_bytes m.room_id ++ sender_frame m)
    unfolding frame
    frame_body m = refl

    decode_frame :
        (m : RoomMessageV1) (require : Bool)
        → IsMessage is_utf8 m
        → decode_room_message is_utf8 (frame m) (expectation m) require ≡ ok (room_message m)
    unfolding decode_room_message too_large is_short
    decode_frame m require v =
        let n : length (frame m) ≡ 176 + length m.payload = length-frame m v in
        let small : too_large (frame m) ≡ false = ground (arith, n, v.size) in
        let long : is_short (frame m) ≡ false = ground (arith, n) in
        rw (decode_room_message, small, frame-domain m, long, frame_body m) (decode_body_lem m v)

    -- A message that is encoded is decoded to itself where the room, the sender and the recipient that
    -- the reader expects are the message's own, whether or not a frame is required.
    pub decode_room_message-encode :
        (m : RoomMessageV1) (value : List ℕ) (require : Bool)
        → encode_room_message_v1 is_utf8 m ≡ ok value
        → decode_room_message is_utf8 value (expectation m) require ≡ ok (room_message m)
    decode_room_message-encode m value require h =
        let (v, e) = encode_room_message_v1_lem m value h in rw e (decode_frame m require v)
