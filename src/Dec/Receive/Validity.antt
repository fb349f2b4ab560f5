-- ===== src/Dec/Receive/Validity.antt =====
-- A received packet keeps the state of `run_decoder` in raptorq/dec/src/main.rs valid.
use live_video.Prelude.{ℕ, ◌<◌, ◌≡◌, List}
use live_video.RaptorQ.{RaptorQ}

module _ (q : RaptorQ) where
  open q use {Oti, PayloadId, BlockDecoder, source_block_number, new_packet, symbol}

  -- What the crate documents of its packets: the symbol given to a packet is the packet's.
  abbrev pub KeepsSymbols : Type 0
  KeepsSymbols = (i : PayloadId) (s : List ℕ) → symbol (new_packet i s) ≡ s

  -- Block numbers on the wire are bytes.
  abbrev pub SbnBytes : Type 0
  SbnBytes = (i : PayloadId) → source_block_number i < 256
