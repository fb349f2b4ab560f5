-- ===== src/Examples/Receiver.antt =====
-- Examples for raptorq/dec/src/main.rs.
use live_video.Prelude.{
  ℕ, ◌+◌, ◌≡◌, ◌⊎◌, refl, true, List, [], ◌∷◌, ◌++◌, none, some, ok, err, arith,
}
use live_video.Maps.{get}
use live_video.Wire.Frame.Parse.{parse_packet}
use live_video.Dec.Block.{BlockState, best_effort}
use live_video.Dec.Block.BestEffort.{assemble, symbol_or, zero_symbol, best_effort_lem}
use live_video.Dec.Block.Invariant.{IsBlock}
use live_video.Dec.Oti.{oti_is_sane}
use live_video.Dec.State.{Decoder, Options, no_stats}
use live_video.Dec.Invariant.{IsValid}
use live_video.Dec.Receive.{on_bytes}
use live_video.Dec.Receive.Counters.{
  StatsAfter, after_kind, after_gap, kind_of, gap_of, on_bytes-stats,
}
use live_video.Dec.Emit.{Env, io_error, emit_blocks}
use live_video.Dec.Emit.Loop.{PassResult, emit_blocks_lem}
use live_video.Dec.Run.{Turn, Received, packet, nothing, disconnected, flush_remaining}
use live_video.Dec.Run.Flush.{pool_outputs, flush_remaining_lem}
use live_video.Examples.Toy.{toy, small_oti, small_block}

abbrev options : Options
options = record { pid = 0x100; max_in_flight = 2; timeout = 700; stats_interval = some 10000 }

-- A block of two symbols of which the second has come.
abbrev half_block : BlockState (ℕ × List ℕ)
half_block = record {
  k = 2;
  block_size = 334;
  decoder = (2, []);
  source_symbols = (1, small_block) ∷ [];
  repair_count = 0;
  completed = none;
  first_seen = 0;
}

half_block-IsBlock : IsBlock half_block
unfolding get
half_block-IsBlock = record {
  size = refl;
  nonempty = omega arith;
  sized = (refl, tt);
  distinct = (refl, tt);
  source = (omega arith, tt);
}

-- A decoder that waits for block 4 and holds a half of it.
abbrev waiting : Decoder (ℕ × List ℕ)
waiting = record {
  pool = (4, half_block) ∷ [];
  cursor = 4;
  highest_seen = 4;
  started = true;
  out = [];
  decoded_blocks = 0;
  besteffort_blocks = 0;
  zero_blocks = 0;
  redundant_packets = 0;
  lost_packets = 0;
  last_cc = some 4;
  istats = no_stats;
  last_stats = 0;
}

waiting-IsValid : IsValid waiting
unfolding get
waiting-IsValid = record {
  ascends = (omega arith, tt);
  bounded = (omega arith, tt);
  blocks = (half_block-IsBlock, tt);
  reached = omega arith;
  present = λ begun below. λ missing. cc;
  unstarted = λ fresh. cc;
}

abbrev env : Env
env = record { clock = λ n. 1000 + n; write_ok = λ n. true; flush_ok = true }

best_effort_lem_example :
    best_effort half_block
    ≡ some (assemble (symbol_or (λ _. zero_symbol) ((1, small_block) ∷ [])) 0 2)
unfolding get
best_effort_lem_example = best_effort_lem half_block 2 refl (refl, tt) (refl, tt)

small_oti_sane : oti_is_sane toy small_oti ≡ true
unfolding oti_is_sane
small_oti_sane = refl

-- A data packet of block 4 with counter 7, so that two packets were lost.
abbrev data_packet : List ℕ
data_packet = 0x47 ∷ 0x01 ∷ 0x00 ∷ 0x17 ∷ 0x01 ∷ (small_oti ++ (4 ∷ 0 ∷ 0 ∷ 0 ∷ small_block))

on_bytes-stats_example :
    StatsAfter toy
      (after_kind
        (kind_of toy waiting (parse_packet toy data_packet 0x100))
        (after_gap (gap_of toy waiting (parse_packet toy data_packet 0x100)) no_stats))
      (on_bytes toy options 30 waiting data_packet)
on_bytes-stats_example = on_bytes-stats toy options 30 waiting data_packet

emit_blocks_lem_example : PassResult options waiting (emit_blocks options env waiting)
emit_blocks_lem_example = emit_blocks_lem options env waiting waiting-IsValid (omega arith)

flush_remaining_lem_example :
    (flush_remaining env waiting ≡ err io_error)
    ⊎ ((d' : Decoder (ℕ × List ℕ)) × (flush_remaining env waiting ≡ ok d')
        × (d'.out ≡ pool_outputs waiting.pool)
        × (d'.pool ≡ []))
flush_remaining_lem_example = flush_remaining_lem env waiting waiting-IsValid

abbrev turn_with : Received → Turn
turn_with r = record { env = env; received = r; arrival = 5; stats_time = 6; stats_reset = 7 }

abbrev turns : List Turn
turns = turn_with (packet data_packet) ∷ turn_with nothing ∷ turn_with disconnected ∷ []
