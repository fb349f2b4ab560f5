-- ===== src/Wire.antt =====
-- raptorq/common/src/lib.rs: the wire format shared by the encoder and the decoder.
pub mod Constants
pub mod Header
pub mod Frame
pub mod Continuity
