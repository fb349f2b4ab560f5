-- ===== src/Enc/Encoder/Spacing.antt =====
-- Where the baseline repair packets of a block stand: `rep_interval` of raptorq/enc/src/main.rs.
use live_video.Prelude.{ℕ, ◌/◌, u32}
use live_video.RaptorQ.{RaptorQ}
use live_video.Wire.Constants.{symbol_size}
use live_video.Enc.Encoder.{EncoderArgs}

module _ (q : RaptorQ) where
  open q use {Oti, BlockEncoder, source_packets, repair_packets, transfer_length}

  -- The symbols of a block.
  abbrev pub block_symbols : EncoderArgs Oti → ℕ
  block_symbols a = u32 (transfer_length a.oti / symbol_size)
