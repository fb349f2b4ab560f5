-- ===== src/Dec.antt =====
-- raptorq/dec/src/main.rs: the decoder.
pub mod Oti
pub mod Sbn
pub mod Gap
pub mod Block
pub mod State
pub mod Receive
pub mod Emit
pub mod Invariant
pub mod Run
pub mod Reader
pub mod Transparent
pub mod Process
pub mod Report
pub mod Args
