-- ===== src/Room.antt =====
-- service/src/crypto: the messages of a room.
pub mod Floor
pub mod Codec
