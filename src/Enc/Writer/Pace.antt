-- ===== src/Enc/Writer/Pace.antt =====
-- The pacing of `writer_thread` of raptorq/enc/src/main.rs.
