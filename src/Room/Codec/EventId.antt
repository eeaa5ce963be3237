-- ===== src/Room/Codec/EventId.antt =====
-- service/src/crypto/roomMessageV1.ts: the replay identity of a message and the commitment to its
-- frame, as the bytes that are hashed. SHA-256 is a parameter.
use k3ncrypt.Base.{
  ℕ, ◌≡◌, sym, ap, ◌∙◌, true, not, List, [], ◌∷◌, ◌++◌, length, drop, ◌+◌, arith, Result, ok, ◌>>◌,
  throw_if,
}
use k3ncrypt.Base.Text.{codes}
use k3ncrypt.Room.Codec.{
  Text, RoomMessageError, invalid_uuid, invalid_identity, is_uuid, is_identity, room_uuid_bytes,
  uuid_text, u16, pairs_of_bytes, take,
}
use k3ncrypt.Room.Codec.Bytes.{take-append, drop-append, identity_ascii}
use k3ncrypt.Room.Codec.Uuid.{uuid_text-bytes, length-uuid}

abbrev pub event_domain : Text
event_domain = codes "K3NCRYPT/ROOM-MESSAGE-EVENT-ID" ++ 0 ∷ []

abbrev pub commitment_domain : Text
commitment_domain = codes "K3NCRYPT/ROOM-MESSAGE-COMMITMENT" ++ 0 ∷ []

abbrev pub version_mark : Text
version_mark = codes "v1:"

-- What is hashed.
unfoldable pub event_input : Text → Text → Text → List ℕ
event_input room sender event =
    event_domain
    ++ (room_uuid_bytes room ++ (u16 (length sender) ++ (sender ++ room_uuid_bytes event)))

module _ (sha256 : List ℕ → List ℕ) where
  unfoldable pub room_message_event_id : Text → Text → Text → Result RoomMessageError Text
  room_message_event_id room sender event = do
    throw_if (not (is_uuid room)) invalid_uuid
    throw_if (not (is_identity sender)) invalid_identity
    throw_if (not (is_uuid event)) invalid_uuid
    ok (version_mark ++ pairs_of_bytes (sha256 (event_input room sender event)))

  unfoldable pub room_message_commitment : List ℕ → Text
  room_message_commitment wrapper =
      version_mark ++ pairs_of_bytes (sha256 (commitment_domain ++ wrapper))

parts :
    (n : ℕ) (xs ys xs' ys' : List ℕ)
    → length xs ≡ n
    → length xs' ≡ n
    → xs ++ ys ≡ xs' ++ ys'
    → (xs ≡ xs') × (ys ≡ ys')
parts n xs ys xs' ys' a b h =
    let e : n + 0 ≡ n = omega arith in
    (
      sym (take-append n xs ys a) ∙ ap (take n) h ∙ take-append n xs' ys' b,
      sym (drop-append n 0 xs ys a) ∙ ap (drop (n + 0)) h ∙ drop-append n 0 xs' ys' b,
    )

bytes_eq :
    (t u : Text)
    → is_uuid t ≡ true
    → is_uuid u ≡ true
    → room_uuid_bytes t ≡ room_uuid_bytes u
    → t ≡ u
bytes_eq t u a b h = sym (uuid_text-bytes t a) ∙ ap uuid_text h ∙ uuid_text-bytes u b

-- The replay identities of two messages are hashed from different bytes unless the messages have the
-- same room, the same sender and the same event: where both identities can be made at all, equal
-- bytes come from equal parts.
pub event_input_lem :
    (room sender event room' sender' event' : Text)
    → is_uuid room ≡ true
    → is_uuid room' ≡ true
    → is_identity sender ≡ true
    → is_identity sender' ≡ true
    → is_uuid event ≡ true
    → is_uuid event' ≡ true
    → event_input room sender event ≡ event_input room' sender' event'
    → (room ≡ room') × (sender ≡ sender') × (event ≡ event')
unfolding event_input
event_input_lem room sender event room' sender' event' a a' b b' c c' h =
    let body : List ℕ = u16 (length sender) ++ (sender ++ room_uuid_bytes event) in
    let body' : List ℕ = u16 (length sender') ++ (sender' ++ room_uuid_bytes event') in
    let first : room_uuid_bytes room ++ body ≡ room_uuid_bytes room' ++ body' = ap (drop 31) h in
    let (r, rest) =
      parts 16 (room_uuid_bytes room) body (room_uuid_bytes room') body' (length-uuid room a)
        (length-uuid room' a') first in
    let second : sender ++ room_uuid_bytes event ≡ sender' ++ room_uuid_bytes event' =
      ap (drop 2) rest in
    let (s, last) =
      parts 56 sender (room_uuid_bytes event) sender' (room_uuid_bytes event')
        (identity_ascii sender b).0 (identity_ascii sender' b').0 second in
    (bytes_eq room room' a a' r, s, bytes_eq event event' c c' last)
