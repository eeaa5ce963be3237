-- ===== src/Files.antt =====
-- service/src/files/protocol.ts and the parts of service/src/attachments/portableContext.ts that it
-- calls: limits, the data of a transfer, and the validation of its context. Sizes are natural
-- numbers; a text is compared as a whole, or tested as its code points.
pub mod Wire
pub mod Ledger
pub mod Commit
use k3ncrypt.Base.{
  ℕ, ◌+◌, ◌-◌, ◌*◌, ◌/◌, String, string_eq, Bool, true, false, not, ◌&&◌, ◌||◌, List, [], ◌∷◌,
  Option, leb, ltb, eqb, ◌==◌,
}
use k3ncrypt.Base.Text.{codes, fits_pattern, times, is_hex, is_digit}

abbrev pub max_file_size : ℕ
max_file_size = 8 * 1024 * 1024

abbrev pub max_chunk_size : ℕ
max_chunk_size = 256 * 1024

abbrev pub max_chunk_count : ℕ
max_chunk_count = 32

abbrev pub max_metadata_size : ℕ
max_metadata_size = 2048

abbrev pub max_active_transfers : ℕ
max_active_transfers = 2

abbrev pub max_stored_bytes_per_user : ℕ
max_stored_bytes_per_user = 12 * 1024 * 1024

abbrev pub max_incomplete_bytes_per_user : ℕ
max_incomplete_bytes_per_user = 12 * 1024 * 1024

abbrev pub max_records : ℕ
max_records = 32

abbrev pub transfer_expiry : ℕ
transfer_expiry = 24 * 60 * 60 * 1000

pub record FileBinding : Type 0 where
  pub conversation_id : String
  pub sender_participant_id : String
  pub recipient_participant_id : String
  pub sender_identity_reference : String
  pub recipient_identity_reference : String

pub record FileContext : Type 0 where
  pub transfer_id : String
  pub binding : FileBinding
  pub open binding use *
  pub file_size : ℕ
  pub chunk_size : ℕ
  pub chunk_count : ℕ

pub record WireObject : Type 0 where
  pub nonce : String
  pub ciphertext : String

pub data FileState : Type 0 where
  incomplete available canceled expired : FileState

-- `Math.ceil(a / b)`.
abbrev pub ceil_div : ℕ → ℕ → ℕ
ceil_div a b = (a + (b - 1)) / b

pub reservation_bytes : ℕ → ℕ → ℕ
reservation_bytes size count = ceil_div ((size + count * 16) * 4) 3 + count * 256 + 16_384

abbrev pub char : ℕ → ℕ → Bool
char = eqb

-- [1-8], and [89ab] with the case ignored.
is_version : ℕ → Bool
is_version c = leb b'1' c && leb c b'8'

is_variant : ℕ → Bool
is_variant c = eqb c b'8' || eqb c b'9' || eqb c b'a' || eqb c b'b' || eqb c b'A' || eqb c b'B'

pub is_uuid : String → Bool
is_uuid s =
    fits_pattern
      (times 8 is_hex (
        times 1 (char b'-') (
          times 4 is_hex (
            times 1 (char b'-') (
              times 1 is_version (
                times 3 is_hex (
                  times 1 (char b'-') (
                    times 1 is_variant
                      (times 3 is_hex (times 1 (char b'-') (times 12 is_hex [])))))))))))
      (codes s)

-- [A-Z0-9_-].
is_reference_char : ℕ → Bool
is_reference_char c = (leb b'A' c && leb c b'Z') || is_digit c || eqb c b'_' || eqb c b'-'

-- n groups of four and a space, then a group of three.
groups : ℕ → List (ℕ → Bool)
groups ℕ.zero = times 3 is_reference_char []
groups (ℕ.suc n) = times 4 is_reference_char (times 1 (char b' ') (groups n))

pub is_identity_reference : String → Bool
is_identity_reference s =
    fits_pattern (times 1 (char b'K') (times 1 (char b'3') (times 1 (char b' ') (groups 10))))
      (codes s)

-- The throwing condition of `encodeAttachmentContext('manifest', c)`; its `validString` passes every
-- text of the pattern tested here.
pub bad_attachment_context : FileContext → Bool
bad_attachment_context c =
    not (is_uuid c.transfer_id)
    || not (is_uuid c.conversation_id)
    || not (is_uuid c.sender_participant_id)
    || not (is_uuid c.recipient_participant_id)
    || c.sender_participant_id == c.recipient_participant_id
    || c.sender_identity_reference == c.recipient_identity_reference
    || not (is_identity_reference c.sender_identity_reference)
    || not (is_identity_reference c.recipient_identity_reference)
    || ltb c.file_size 1
    || ltb (50 * 1024 * 1024) c.file_size
    || ltb c.chunk_size 1
    || ltb max_chunk_size c.chunk_size
    || not (eqb c.chunk_count (ceil_div c.file_size c.chunk_size))
    || ltb c.chunk_count 1
    || ltb 256 c.chunk_count

-- The throwing condition of `validateFileContext`.
pub bad_file_context : FileContext → Bool
bad_file_context c =
    bad_attachment_context c
    || ltb max_file_size c.file_size
    || not (eqb c.chunk_size max_chunk_size)
    || ltb max_chunk_count c.chunk_count
