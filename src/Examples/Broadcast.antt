-- ===== src/Examples/Broadcast.antt =====
-- An example of what raptorq/enc/src/main.rs puts on the wire.
use live_video.Prelude.{ℕ, ◌+◌, ◌≡◌, refl, true, false, replicate, List, [], ◌∷◌, arith}
use live_video.Prelude.Slices.{write_at, write_byte}
use live_video.Wire.Frame.Build.{build_data_packet, build_noop_packet}
use live_video.Wire.Frame.Layout.{Fits}
use live_video.Enc.Interleave.{interleave}
use live_video.Enc.Encoder.{
  EncoderArgs, EncoderState, Slot, Incoming, block, empty, Status, running, returned, panicked,
  start_encoder, encoder_thread,
}
use live_video.Enc.Writer as Writing
use live_video.Enc.Writer.{Tick, Fetch, Writer, Phase, start_phase, writer_thread, start_writer}
use live_video.Link.Broadcast.{IsCut, writer_thread-encoder_thread}
use live_video.Examples.Toy.{toy, small_oti, small_block, small_packet}
use live_video.Examples.Codec.{toy-IsCodec}

abbrev args : EncoderArgs (List ℕ)
args = record {
  oti = small_oti;
  baseline_repair = 1;
  max_repair = 1;
  adaptive = false;
  horizon = 700;
}

abbrev slot_with : Incoming → Slot
slot_with i = record { incoming = i; created = 5; clock = λ n. 6 + n }

abbrev slots : List Slot
slots = slot_with (block small_block) ∷ slot_with empty ∷ slot_with (block small_block) ∷ []

abbrev tick_with : Fetch ((ℕ × ℕ) × List ℕ) → Tick ((ℕ × ℕ) × List ℕ)
tick_with f = record { fetch = f; written = true; elapsed = 100 }

abbrev repair_packet : ℕ → (ℕ × ℕ) × List ℕ
repair_packet sbn = ((sbn, 1), replicate 167 0)

abbrev ticks : List (Tick ((ℕ × ℕ) × List ℕ))
ticks =
    tick_with Writing.empty
    ∷ tick_with (Writing.packet (small_packet 0))
    ∷ tick_with (Writing.packet (repair_packet 0))
    ∷ tick_with (Writing.packet (small_packet 1))
    ∷ tick_with (Writing.packet (repair_packet 1))
    ∷ []

abbrev state_of :
    Status (EncoderState (ℕ × List ℕ) ((ℕ × ℕ) × List ℕ))
    → EncoderState (ℕ × List ℕ) ((ℕ × ℕ) × List ℕ)
state_of (running s) = s
state_of (returned s) = s
state_of panicked = start_encoder toy

abbrev writer_of : Phase → Writer
writer_of (Writing.running w) = w
writer_of (Writing.drained w) = w
writer_of (Writing.failed w) = w
writer_of Writing.panicked = start_writer

abbrev encoder_end : Status (EncoderState (ℕ × List ℕ) ((ℕ × ℕ) × List ℕ))
encoder_end = encoder_thread toy (λ n. true) args slots (running (start_encoder toy))

abbrev writer_end : Phase
writer_end = writer_thread toy 0x100 1000000 small_oti ticks (start_phase 1000000)

encoder_end_running : encoder_end ≡ running (state_of encoder_end)
unfolding encoder_thread start_encoder interleave
encoder_end_running = refl

encoder_end_sent :
    small_packet 0 ∷ repair_packet 0 ∷ small_packet 1 ∷ repair_packet 1 ∷ []
    ≡ (state_of encoder_end).out
unfolding encoder_thread start_encoder interleave
encoder_end_sent = refl

writer_end_running : writer_end ≡ Writing.running (writer_of writer_end)
unfolding Writing.writer_thread build_data_packet write_at Writing.start_writer Writing.start_phase
    write_byte build_noop_packet
writer_end_running = refl

small_packet-Fits : (sbn : ℕ) → Fits toy small_oti (small_packet sbn)
small_packet-Fits sbn = record { oti_length = refl; id_length = refl; symbol_length = refl }

repair_packet-Fits : (sbn : ℕ) → Fits toy small_oti (repair_packet sbn)
repair_packet-Fits sbn = record { oti_length = refl; id_length = refl; symbol_length = refl }

writer_thread-encoder_thread_example :
    IsCut toy args 0x100 0 (small_block ∷ small_block ∷ []) (writer_of writer_end).out
writer_thread-encoder_thread_example =
    writer_thread-encoder_thread toy args toy-IsCodec (omega arith) (omega arith) (λ n. true) 0x100
      1000000 (omega arith) (omega arith) slots ticks (state_of encoder_end) (writer_of writer_end)
      (refl, (refl, tt))
      (
        small_packet-Fits 0,
        (repair_packet-Fits 0, (small_packet-Fits 1, (repair_packet-Fits 1, tt))),
      )
      encoder_end_running encoder_end_sent writer_end_running
