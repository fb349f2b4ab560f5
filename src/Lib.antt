-- ===== src/Lib.antt =====
-- A model of the Rust programs of live-video in raptorq/: a broadcast link for an MPEG transport
-- stream with RaptorQ forward error correction. The encoder cuts its input into blocks, turns each
-- block into source and repair symbols and writes one TS packet for each symbol at a fixed rate,
-- with stuffing when there is nothing to send. The decoder finds the packets in its input, collects
-- the symbols of each block, and writes the blocks in order, decoded or as well as it can.
--
-- The files and the code they model:
-- - RaptorQ: the operations of the raptorq crate, a dependency, as a record that every definition
--   which calls the crate takes as a parameter. Theorems that rely on the crate say so by
--   hypotheses: a packet keeps the symbol it was made from (KeepsSymbols), block numbers are bytes
--   (SbnBytes), an OTI, a payload id and a symbol have 12, 4 and 167 bytes (Fits), and, for the way
--   from the encoder to the decoder, the laws of the codec (IsCodec).
-- - Wire: raptorq/common/src/lib.rs. Constants, TsHeader::parse and write (Header), the continuity
--   counter (Continuity), build_data_packet, build_noop_packet and make_block_oti (Frame/Build), and
--   parse_packet (Frame/Parse).
-- - Pid: parse_pid of raptorq/enc/src/main.rs and raptorq/dec/src/main.rs.
-- - Dec: raptorq/dec/src/main.rs. reader_thread (Reader), oti_is_sane (Oti), unwrap_sbn (Sbn),
--   cc_gap (Gap), BlockState (Block), and run_decoder with its variables (State), the match on a
--   received packet (Receive), the emission loop (Emit), and flush_remaining and the outer loop
--   (Run); log_interval_stats (Report), Args (Args), and main with both threads and the channel
--   (Process). Transparent is about runs of the loop in which enough of each block comes in.
-- - Enc: raptorq/enc/src/main.rs. reader_thread (Reader), emit_block and encoder_thread (Encoder)
--   with interleave (Interleave), BlockGen, prune_ring and pick_block (Ring) and Xorshift64 (Rng),
--   and writer_thread (Writer), the checks of main (Args), and the three threads of main with the
--   two channels between them (Process).
-- - Link: the encoder's writer and the decoder's reader over a link without losses. Segments and
--   Broadcast are about what the encoder's threads put on the wire, block by block, and Delivery
--   about what the decoder writes of it; Pipeline has the whole encoder program in place of its
--   threads, and EndToEnd goes from the input of the encoder to the output of the decoder.
-- - Maps and Prelude: maps as association lists, and the helpers that the others share.
-- - Examples: concrete runs over a small stand-in for the crate.
--
-- How the code is read. A thread is a function on a record of its variables; what it has sent or
-- written is a field of that record. What the environment decides is an argument: the bytes that a
-- read delivers, what a channel holds, whether a send or a write succeeds, and the readings of the
-- clock, in milliseconds in the decoder and the encoder's ring and in nanoseconds in the writer. A
-- loop over such inputs runs over a list of them, so its theorems hold for every history. Where two
-- threads share a channel (Dec/Process and Enc/Process), a step relation has their steps in any
-- order; a read of the reader and the send that it causes are one step, and the encoder hands over
-- the packets of a turn one by one before its next turn. In Enc/Process the writes to the sink
-- succeed. Integers wrap as in a release build; a failed bounds check, a division by zero or a
-- failed unwrap is a panic, and a theorem that excludes it says so. HashMap and BTreeMap are
-- association lists, the latter in order. Logging is left out.
--
-- Two loops have fuel. The emission loop of run_decoder has one round for each block up to the
-- highest one seen and one more, which is enough since each round passes a block; the loop over a
-- full buffer in reader_thread has two rounds, since after one of them the buffer is not full.
--
-- Not modelled: the rest of main of the encoder (arguments by clap, numbers in floating point and
-- the ZeroMQ socket), its threads behind a write that failed, the rounding of the two percentages
-- in the statistics, the logging, and everything outside raptorq/.
pub mod Prelude
pub mod RaptorQ
pub mod Maps
pub mod Wire
pub mod Dec
pub mod Enc
pub mod Pid
pub mod Link
pub mod Examples
