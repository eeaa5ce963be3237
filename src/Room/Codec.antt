-- ===== src/Room/Codec.antt =====
-- service/src/crypto/roomMessageV1.ts: the frame that binds a message to its room, its sender and its
-- recipient. A text is its bytes in UTF-8, and `Uint8Array` a list of bytes. Whether bytes are UTF-8
-- is asked of the runtime's decoder, a parameter. Reading at an offset is reading at the start of what
-- is left; the length checks of the source come before each read.
pub mod Frame
pub mod Uuid
pub mod Bytes
pub mod RoundTrip
pub mod Binding
pub mod EventId
mod Tests
use Prim.Native.Nat.{zero, suc}
use k3ncrypt.Base.{
  ℕ, ◌+◌, ◌-◌, ◌*◌, ◌/◌, ◌%◌, Bool, true, false, not, ◌&&◌, ◌||◌, Option, none, some, List, [], ◌∷◌,
  ◌++◌, leb, ltb, eqb, if◌then◌else◌, length, drop, keep, Result, ok, err, ◌>>=◌, ◌>>◌, throw_if,
  or_throw, Eq, ◌==◌, nat_eq,
}
use k3ncrypt.Base.Text.{codes, fits_pattern, times, is_lower_hex, is_digit}

abbrev pub Text : Type 0
Text = List ℕ

abbrev pub domain : Text
domain = codes "K3NCRYPT/ROOM-MESSAGE" ++ 0 ∷ []

abbrev pub version : ℕ
version = 1

abbrev pub header_length : ℕ
header_length = 22 + 1 + 1 + 16 + 2 + 2 + 16 + 4

abbrev pub canonical_identity_reference_bytes : ℕ
canonical_identity_reference_bytes = 56

abbrev pub max_payload_bytes : ℕ
max_payload_bytes = 60 * 1024

pub data RoomMessageKind : Type 0 where
  text attachment_reference join_introduction : RoomMessageKind

pub data RoomMessageError : Type 0 where
  legacy_forbidden unsupported_version unsupported_kind binding_mismatch authenticated_invalid :
      RoomMessageError
  invalid_uuid invalid_identity payload_too_large invalid_utf8 : RoomMessageError

pub record RoomMessageV1 : Type 0 where
  pub room_id : Text
  pub sender_identity_reference : Text
  pub recipient_identity_reference : Text
  pub event_id : Text
  pub kind : RoomMessageKind
  pub payload : List ℕ

pub record RoomMessageExpectation : Type 0 where
  pub room_id : Text
  pub sender_identity_reference : Text
  pub recipient_identity_reference : Text

pub data DecodedRoomMessage : Type 0 where
  legacy : List ℕ → DecodedRoomMessage
  room_message : RoomMessageV1 → DecodedRoomMessage

abbrev pub dash : ℕ
dash = 45

-- The pattern of a UUID, `k` digits of the first group and the lengths of the other groups given; and
-- digits with dashes put between the groups.
pub pattern_of : ℕ → List ℕ → List (ℕ → Bool)
pattern_of zero [] = []
pattern_of zero (n ∷ ns) = eqb dash ∷ pattern_of n ns
pattern_of (suc k) ns = is_lower_hex ∷ pattern_of k ns

pub put_dashes : ℕ → List ℕ → Text → Text
put_dashes zero [] ds = ds
put_dashes zero (n ∷ ns) ds = dash ∷ put_dashes n ns ds
put_dashes (suc k) ns [] = []
put_dashes (suc k) ns (d ∷ ds) = d ∷ put_dashes k ns ds

abbrev pub groups : List ℕ
groups = 4 ∷ 4 ∷ 4 ∷ 12 ∷ []

pub is_uuid : Text → Bool
is_uuid t = fits_pattern (pattern_of 8 groups) t

abbrev pub hex_value : ℕ → ℕ
hex_value c = if leb c b'9' then c - b'0' else c - 87

abbrev pub hex_digit : ℕ → ℕ
hex_digit n = if ltb n 10 then n + b'0' else n + 87

-- The text without its dashes, and pairs of digits read as bytes.
pub without_dashes : Text → Text
without_dashes t = keep (λ c. not (eqb dash c)) t

pub bytes_of_pairs : Text → List ℕ
bytes_of_pairs [] = []
bytes_of_pairs (c ∷ []) = []
bytes_of_pairs (c ∷ d ∷ t) = (hex_value c * 16 + hex_value d) ∷ bytes_of_pairs t

-- `byte.toString(16).padStart(2, '0')`, joined.
pub pairs_of_bytes : List ℕ → Text
pairs_of_bytes [] = []
pairs_of_bytes (b ∷ bs) = hex_digit (b / 16) ∷ hex_digit (b % 16) ∷ pairs_of_bytes bs

pub room_uuid_bytes : Text → List ℕ
room_uuid_bytes t = bytes_of_pairs (without_dashes t)

pub uuid_text : List ℕ → Text
uuid_text bs = put_dashes 8 groups (pairs_of_bytes bs)

-- [A-Z0-9_-]
pub is_reference_byte : ℕ → Bool
is_reference_byte c = (leb b'A' c && leb c b'Z') || is_digit c || eqb c b'_' || eqb c b'-'

-- `n` groups of four with a space after each, and a group of three.
pub reference_groups : ℕ → List (ℕ → Bool)
reference_groups zero = times 3 is_reference_byte []
reference_groups (suc n) = times 4 is_reference_byte (eqb b' ' ∷ reference_groups n)

pub is_identity : Text → Bool
is_identity t =
    eqb (length t) canonical_identity_reference_bytes
    && fits_pattern (eqb b'K' ∷ eqb b'3' ∷ eqb b' ' ∷ reference_groups 10) t

abbrev pub kind_byte : RoomMessageKind → ℕ
kind_byte text = 1
kind_byte attachment_reference = 2
kind_byte join_introduction = 3

abbrev pub byte_to_kind : ℕ → Option RoomMessageKind
byte_to_kind n =
    if eqb n 1
    then some text
    else if eqb n 2
    then some attachment_reference
    else if eqb n 3
    then some join_introduction
    else none

pub starts_with : List ℕ → List ℕ → Bool
starts_with value [] = true
starts_with [] (p ∷ ps) = false
starts_with (b ∷ bs) (p ∷ ps) = eqb b p && starts_with bs ps

abbrev pub file_prefix : List ℕ
file_prefix = codes "k3ncrypt-file-"

abbrev pub introduction_prefix : List ℕ
introduction_prefix = 0 ∷ 75 ∷ 51 ∷ 78 ∷ 67 ∷ 73 ∷ 1 ∷ []

abbrev pub take : ℕ → List ℕ → List ℕ
take zero xs = []
take (suc n) [] = []
take (suc n) (x ∷ xs) = x ∷ take n xs

abbrev pub same_text : Text → Text → Bool
same_text [] [] = true
same_text [] (d ∷ ds) = false
same_text (c ∷ cs) [] = false
same_text (c ∷ cs) (d ∷ ds) = eqb c d && same_text cs ds

-- Big-endian numbers, written and read.
abbrev pub u16 : ℕ → List ℕ
u16 n = n / 256 % 256 ∷ n % 256 ∷ []

abbrev pub u32 : ℕ → List ℕ
u32 n = n / 16_777_216 % 256 ∷ n / 65_536 % 256 ∷ n / 256 % 256 ∷ n % 256 ∷ []

abbrev pub get_u16 : List ℕ → ℕ
get_u16 (a ∷ b ∷ rest) = a * 256 + b
get_u16 (a ∷ []) = 0
get_u16 [] = 0

abbrev pub get_u32 : List ℕ → ℕ
get_u32 (a ∷ b ∷ c ∷ d ∷ rest) = a * 16_777_216 + b * 65_536 + c * 256 + d
get_u32 (a ∷ b ∷ c ∷ []) = 0
get_u32 (a ∷ b ∷ []) = 0
get_u32 (a ∷ []) = 0
get_u32 [] = 0

abbrev pub byte_at : List ℕ → ℕ
byte_at [] = 0
byte_at (b ∷ bs) = b

pub is_file_reference : List ℕ → Bool
is_file_reference payload = starts_with payload file_prefix

pub is_introduction : List ℕ → Bool
is_introduction payload = starts_with payload introduction_prefix
