-- ===== src/Room/Codec/Tests.antt =====
-- A frame encoded and decoded at a concrete room.
use k3ncrypt.Base.{ℕ, ◌≡◌, refl, Bool, true, false, List, [], ◌∷◌, all, ltb, length, ok, err}
use k3ncrypt.Base.Text.{codes, fits_pattern, times, is_lower_hex, is_digit}
use k3ncrypt.Room.Codec.{
  text, legacy_forbidden, binding_mismatch, authenticated_invalid, RoomMessageV1,
  RoomMessageExpectation, legacy, room_message, pattern_of, put_dashes, is_uuid, without_dashes,
  bytes_of_pairs, pairs_of_bytes, room_uuid_bytes, uuid_text, is_reference_byte, reference_groups,
  is_identity, starts_with, is_file_reference, is_introduction,
}
use k3ncrypt.Room.Codec.Frame.{
  validate_kind, validate_kind_payload, event_frame, recipient_frame, sender_frame, frame,
  encode_room_message_v1, admit, bad_payload_length, decode_event, bad_binding, decode_recipient,
  decode_sender, decode_body, too_large, decode_legacy, is_short, decode_room_message,
}
use k3ncrypt.Room.Codec.RoundTrip.{expectation, decode_room_message-encode}
use k3ncrypt.Room.Codec.Binding.{Outcome, decode_room_message-Outcome}
use k3ncrypt.Room.Codec.EventId.{event_input_lem, room_message_commitment}

-- A decoder that takes bytes below 128 only.
abbrev ascii_only : List ℕ → Bool
ascii_only = all (λ c. ltb c 128)

abbrev hello : RoomMessageV1
hello = record {
  room_id = codes "01234567-89ab-cdef-0123-456789abcdef";
  sender_identity_reference = codes "K3 AAAA BBBB CCCC DDDD EEEE FFFF GGGG HHHH IIII JJJJ KKK";
  recipient_identity_reference = codes "K3 0000 1111 2222 3333 4444 5555 6666 7777 8888 9999 ___";
  event_id = codes "fedcba98-7654-3210-fedc-ba9876543210";
  kind = text;
  payload = codes "hello";
}

abbrev elsewhere : RoomMessageExpectation
elsewhere = record (expectation hello) { room_id = codes "01234567-89ab-cdef-0123-456789abcdee" }

encode_test : encode_room_message_v1 ascii_only hello ≡ ok (frame hello)
unfolding encode_room_message_v1 is_uuid pattern_of is_identity reference_groups fits_pattern times
    is_lower_hex is_digit is_reference_byte validate_kind_payload validate_kind is_file_reference
    is_introduction starts_with
encode_test = refl

length_test : length (frame hello) ≡ 181
unfolding frame sender_frame recipient_frame event_frame room_uuid_bytes bytes_of_pairs
    without_dashes
length_test = refl

-- The message of one room is refused in another.
mismatch_test : decode_room_message ascii_only (frame hello) elsewhere true ≡ err binding_mismatch
unfolding frame sender_frame recipient_frame event_frame room_uuid_bytes bytes_of_pairs
    without_dashes decode_room_message too_large is_short decode_body decode_sender bad_binding
    decode_recipient decode_event bad_payload_length admit is_uuid pattern_of is_identity
    reference_groups fits_pattern times is_lower_hex is_digit is_reference_byte uuid_text put_dashes
    pairs_of_bytes starts_with
mismatch_test = refl

legacy_test :
    decode_room_message ascii_only (codes "hello") elsewhere false ≡ ok (legacy (codes "hello"))
unfolding decode_room_message too_large decode_legacy starts_with
legacy_test = refl

forbidden_test :
    decode_room_message ascii_only (codes "hello") elsewhere true ≡ err legacy_forbidden
unfolding decode_room_message too_large decode_legacy starts_with
forbidden_test = refl

-- A text that would be read as the reference of a file is no text.
kind_test :
    validate_kind_payload ascii_only text (codes "k3ncrypt-file-1") ≡ err authenticated_invalid
unfolding validate_kind_payload validate_kind is_file_reference is_introduction starts_with
kind_test = refl

commitment_test : room_message_commitment (λ bs. 171 ∷ []) [] ≡ codes "v1:ab"
unfolding room_message_commitment pairs_of_bytes
commitment_test = refl

decode_room_message-encode_example :
    decode_room_message ascii_only (frame hello) (expectation hello) true ≡ ok (room_message hello)
decode_room_message-encode_example =
    decode_room_message-encode ascii_only (λ bs h. h) hello (frame hello) true encode_test

decode_room_message-Outcome_example :
    Outcome ascii_only (codes "hello") elsewhere false (legacy (codes "hello"))
decode_room_message-Outcome_example =
    decode_room_message-Outcome ascii_only elsewhere (codes "hello") false (legacy (codes "hello"))
      legacy_test

hello_uuid : is_uuid hello.room_id ≡ true
unfolding is_uuid pattern_of fits_pattern is_lower_hex is_digit
hello_uuid = refl

event_uuid : is_uuid hello.event_id ≡ true
unfolding is_uuid pattern_of fits_pattern is_lower_hex is_digit
event_uuid = refl

hello_identity : is_identity hello.sender_identity_reference ≡ true
unfolding is_identity reference_groups fits_pattern times is_digit is_reference_byte
hello_identity = refl

event_input_lem_example :
    (hello.room_id ≡ hello.room_id)
    × (hello.sender_identity_reference ≡ hello.sender_identity_reference)
    × (hello.event_id ≡ hello.event_id)
event_input_lem_example =
    event_input_lem hello.room_id hello.sender_identity_reference hello.event_id hello.room_id
      hello.sender_identity_reference hello.event_id hello_uuid hello_uuid hello_identity
      hello_identity event_uuid event_uuid refl
