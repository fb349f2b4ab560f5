-- ===== src/Examples/Pipeline.antt =====
-- An example of the whole encoder program, raptorq/enc/src/main.rs, and of the decoder on what it
-- writes.
use live_video.Prelude.{
  ℕ, ◌+◌, ◌^◌, ◌<◌, ◌≡◌, refl, true, false, List, [], ◌∷◌, ◌++◌, concat, replicate, length, map,
  none, ok, arith,
}
use live_video.Prelude.Slices.{write_at, write_byte}
use live_video.Wire.Frame.Build.{build_data_packet, build_noop_packet}
use live_video.Wire.Frame.Layout.{Fits}
use live_video.Dec.Reader.{delivers}
use live_video.Dec.Oti.{oti_is_sane}
use live_video.Dec.State.{Decoder, Options, start_decoder}
use live_video.Dec.Run.{Turn, Received, packet, going, run_from}
use live_video.Dec.Transparent.{IsCalm}
use live_video.Enc.Reader as Reading
use live_video.Enc.Reader.{BlockReader, Progress, start_reader, read_turn}
use live_video.Enc.Reader.Blocks as Blocks
use live_video.Enc.Interleave.{interleave}
use live_video.Enc.Encoder as Coding
use live_video.Enc.Encoder.{EncoderArgs, EncoderState, Status, Slot, Incoming, start_encoder, slot}
use live_video.Enc.Writer as Writing
use live_video.Enc.Writer.{Tick, Fetch, Writer, Phase, start_phase, start_writer, write_turn}
use live_video.Enc.Writer.Stream.{AllFit}
use live_video.Enc.Process.{
  Settings, Pipeline, start_pipeline, read_step, slot_step, write_step, reads, encodes, hangs_up,
  hands_over, writes, drains, Reach, here, next, blocks_sent, packets_sent, reader_ended,
  encoder_ended, block_bound, packet_bound,
}
use live_video.Link.Broadcast.{IsCut}
use live_video.Link.Delivery.{IsPlayed, played_end, played_packet}
use live_video.Link.Pipeline.{Reach-drained}
use live_video.Link.EndToEnd.{run_from-Reach}
use live_video.Examples.Toy.{toy, small_oti, small_block, small_packet}
use live_video.Examples.Codec.{toy-IsCodec}

abbrev settings : Settings (List ℕ)
settings = record {
  block_size = 167;
  queue_blocks = 1;
  pid = 0x100;
  rate = 1000000;
  coding = record {
    oti = small_oti;
    baseline_repair = 0;
    max_repair = 0;
    adaptive = false;
    horizon = 700;
  };
}

abbrev Line : Type 0
Line = Pipeline (ℕ × List ℕ) ((ℕ × ℕ) × List ℕ)

abbrev slot_with : Incoming → Slot
slot_with i = record { incoming = i; created = 5; clock = λ n. 6 + n }

abbrev tick_with : Fetch ((ℕ × ℕ) × List ℕ) → Tick ((ℕ × ℕ) × List ℕ)
tick_with f = record { fetch = f; written = true; elapsed = 100 }

abbrev reader_of : Progress → BlockReader
reader_of (Reading.running r) = r
reader_of (Reading.closed r) = r
reader_of (Reading.broken r) = r
reader_of Reading.panicked = start_reader 167 []

abbrev encoder_of :
    Status (EncoderState (ℕ × List ℕ) ((ℕ × ℕ) × List ℕ))
    → EncoderState (ℕ × List ℕ) ((ℕ × ℕ) × List ℕ)
encoder_of (Coding.running s) = s
encoder_of (Coding.returned s) = s
encoder_of Coding.panicked = start_encoder toy

abbrev writer_of : Phase → Writer
writer_of (Writing.running w) = w
writer_of (Writing.drained w) = w
writer_of (Writing.failed w) = w
writer_of Writing.panicked = start_writer

-- The reader sends a block, the encoder makes a packet of it, the writer writes it, and the
-- threads end one after the other.
abbrev begun : Line
begun = start_pipeline toy settings small_block

abbrev has_read : Line
has_read = read_step toy settings (delivers 166) (reader_of begun.reader) begun

abbrev has_coded : Line
has_coded =
    slot_step toy settings (slot_with (Coding.block small_block)) (encoder_of has_read.encoder)
      (small_block ∷ []) [] has_read

abbrev has_handed : Line
has_handed = record has_coded { pending = []; packets = small_packet 0 ∷ [] }

abbrev has_written : Line
has_written =
    write_step toy settings (tick_with (Writing.packet (small_packet 0)))
      (writer_of has_handed.writer) (small_packet 0 ∷ []) [] has_handed

abbrev has_closed : Line
has_closed = read_step toy settings (delivers 0) (reader_of has_written.reader) has_written

abbrev has_returned : Line
has_returned =
    slot_step toy settings (slot_with Coding.disconnected) (encoder_of has_closed.encoder) [] []
      has_closed

abbrev has_drained : Line
has_drained =
    write_step toy settings (tick_with Writing.disconnected) (writer_of has_returned.writer) [] []
      has_returned

begun-Reach : Reach toy settings begun has_drained
unfolding start_pipeline read_step slot_step write_step blocks_sent packets_sent reader_ended
    encoder_ended block_bound packet_bound start_reader read_turn start_encoder slot interleave
    start_phase start_writer write_turn write_at write_byte build_data_packet build_noop_packet
begun-Reach =
    next has_returned has_drained
      (next has_closed has_returned
        (next has_written has_closed
          (next has_handed has_written
            (next has_coded has_handed
              (next has_read has_coded
                (next begun has_read here (reads (delivers 166) _ refl (omega arith)))
                (encodes (slot_with (Coding.block small_block)) _ (encoder_of has_coded.encoder)
                  small_block [] refl refl refl refl refl))
              (hands_over (small_packet 0) [] refl (omega arith)))
            (writes (tick_with (Writing.packet (small_packet 0))) _ (writer_of has_written.writer)
              (small_packet 0) [] refl refl refl refl))
          (reads (delivers 0) _ refl (omega arith)))
        (hangs_up (slot_with Coding.disconnected) _ refl refl refl refl refl))
      (drains (tick_with Writing.disconnected) _ refl refl refl refl)

has_closed_reader : has_drained.reader ≡ Reading.closed (reader_of has_drained.reader)
unfolding read_step slot_step write_step start_pipeline start_reader read_turn write_at
has_closed_reader = refl

has_drained_writer : has_drained.writer ≡ Writing.drained (writer_of has_drained.writer)
unfolding read_step slot_step write_step start_pipeline start_phase write_turn start_writer
has_drained_writer = refl

small_packet-Fits : Fits toy small_oti (small_packet 0)
small_packet-Fits = record { oti_length = refl; id_length = refl; symbol_length = refl }

all_fit : AllFit toy 0x100 1000000 small_oti has_drained.taken
unfolding read_step slot_step write_step start_pipeline
all_fit = (small_packet-Fits, tt)

Reach-drained_example :
    Blocks.IsCut 167 small_block (reader_of has_drained.reader)
    × IsCut toy settings.coding 0x100 0
        (reader_of has_drained.reader).sent
        (writer_of has_drained.writer).out
Reach-drained_example =
    Reach-drained toy settings small_block has_drained (reader_of has_drained.reader)
      (writer_of has_drained.writer) toy-IsCodec (omega arith) (omega arith) (omega arith) refl
      (omega arith) (omega arith) all_fit begun-Reach has_closed_reader has_drained_writer

abbrev options : Options
options = record { pid = 0x100; max_in_flight = 2; timeout = 700; stats_interval = none }

abbrev turn_with : Received → Turn
turn_with r = record {
  env = record { clock = λ n. 100; write_ok = λ n. true; flush_ok = true };
  received = r;
  arrival = 5;
  stats_time = 6;
  stats_reset = 7;
}

turn_with-IsCalm : (r : Received) → IsCalm options 0 (turn_with r)
turn_with-IsCalm r = record {
  stamped = omega arith;
  later = λ n. omega arith;
  prompt = λ n. omega arith;
  writes = λ n. refl;
  flushes = refl;
}

played : (wire : List (List ℕ)) → IsPlayed options 0 wire (map (λ b. turn_with (packet b)) wire)
played [] = played_end
played (b ∷ wire) = played_packet wire b _ _ (turn_with-IsCalm _) refl (played wire)

small_oti_sane : oti_is_sane toy small_oti ≡ true
unfolding oti_is_sane
small_oti_sane = refl

few_blocks : length (reader_of has_drained.reader).sent + 1 + 2 < 2 ^ 62
unfolding read_step slot_step write_step start_pipeline start_reader read_turn write_at
few_blocks = omega arith

abbrev heard : List Turn
heard = map (λ b. turn_with (packet b)) (writer_of has_drained.writer).out

run_from-Reach_example :
    (d : Decoder (ℕ × List ℕ)) × (run_from toy options heard (going (start_decoder 0))
      ≡ ok (going d))
    × ((padding : ℕ) × (padding < 167) × (concat d.out ≡ small_block ++ replicate padding 0))
run_from-Reach_example =
    run_from-Reach toy settings options small_block has_drained (reader_of has_drained.reader)
      (writer_of has_drained.writer) 0 0 heard toy-IsCodec (omega arith) (omega arith) (omega arith)
      refl small_oti_sane (omega arith) (omega arith) refl (omega arith) few_blocks all_fit
      begun-Reach has_closed_reader has_drained_writer (played _)
