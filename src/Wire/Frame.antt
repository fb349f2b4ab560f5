-- ===== src/Wire/Frame.antt =====
-- Building and parsing the 188-byte packets of raptorq/common/src/lib.rs.
pub mod Build
pub mod Parse
pub mod Layout
pub mod RoundTrip
pub mod Soundness
