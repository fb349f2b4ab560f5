-- ===== src/Enc.antt =====
-- The encoder, raptorq/enc/src/main.rs.
pub mod Interleave
pub mod Rng
pub mod Ring
pub mod Reader
pub mod Encoder
pub mod Writer
pub mod Args
pub mod Process
