-- ===== src/Examples/Process.antt =====
-- Examples of the whole decoder program, raptorq/dec/src/main.rs.
use live_video.Prelude.{ℕ, refl, true, List, [], ◌∷◌, ◌++◌, replicate, none}
use live_video.Dec.State.{IntervalStats, Options, start_decoder}
use live_video.Dec.Reader.{delivers, start_reader}
use live_video.Dec.Run.{Turn, Received, packet, nothing, disconnected, going, run_from}
use live_video.Dec.Run.Counted.{NextCounts, run_from-NextCounts}
use live_video.Dec.Args.{default_args, options_of}
use live_video.Dec.Process.{Process, read_step, start_process, turn_step}
use live_video.Examples.Toy.{toy, small_oti, small_block}

abbrev options : Options
options = options_of default_args

abbrev data_packet : List ℕ
data_packet = 0x47 ∷ 0x01 ∷ 0x00 ∷ 0x17 ∷ 0x01 ∷ (small_oti ++ (0 ∷ 0 ∷ 0 ∷ 0 ∷ small_block))

abbrev turn_with : Received → Turn
turn_with r = record {
  env = record { clock = λ n. 100; write_ok = λ n. true; flush_ok = true };
  received = r;
  arrival = 5;
  stats_time = 6;
  stats_reset = 7;
}

-- A packet and a half, in one read of a packet.
abbrev input : List ℕ
input = data_packet ++ replicate 94 0x47

abbrev begun : Process (ℕ × List ℕ)
begun = start_process toy options input 0

abbrev has_read : Process (ℕ × List ℕ)
has_read = read_step (delivers 187) (start_reader input) begun

abbrev has_received : Process (ℕ × List ℕ)
has_received = turn_step toy options (turn_with (packet data_packet)) (start_decoder 0) [] has_read

abbrev quiet_options : Options
quiet_options = record { pid = 0x100; max_in_flight = 8; timeout = 700; stats_interval = none }

abbrev turns : List Turn
turns =
    turn_with (packet data_packet)
    ∷ turn_with nothing
    ∷ turn_with (packet data_packet)
    ∷ turn_with disconnected
    ∷ turn_with (packet data_packet)
    ∷ []

run_from-NextCounts_example :
    NextCounts 2 (run_from toy quiet_options turns (going (start_decoder 0)))
run_from-NextCounts_example = run_from-NextCounts toy quiet_options refl turns 0

abbrev stats : IntervalStats
stats = record {
  decoded = 9;
  besteffort = 1;
  be_timed_out = 1;
  be_forced = 0;
  be_syms_rcvd = 380;
  be_syms_needed = 392;
  zero_emitted = 0;
  pkts_ok = 4000;
  noops = 100;
  pkts_redundant = 900;
  pkts_unparseable = 2;
  pkts_lost = 30;
}
