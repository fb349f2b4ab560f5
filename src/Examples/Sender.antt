-- ===== src/Examples/Sender.antt =====
-- Examples for raptorq/enc/src/main.rs.
use live_video.Prelude.{
  ok, ◌↔◌, ℕ, ◌+◌, ◌≡◌, ◌<◌, ◌≤◌, refl, true, List, [], ◌∷◌, Option, some, arith,
}
use live_video.Enc.Interleave.{interleave}
use live_video.Enc.Interleave.Spread.{spread, interleave-spread}
use live_video.Enc.Rng.{IsRngState}
use live_video.Enc.Ring.{BlockGen, prune_ring, pick_block}
use live_video.Enc.Ring.Prune.{IsPruned, prune_ring-IsPruned}
use live_video.Enc.Ring.Pick.{IsPick, pick_block_lem}
use live_video.Enc.Encoder.{EncoderArgs, Slot, Incoming, block, empty, disconnected}
use live_video.Enc.Writer as Writer
use live_video.Enc.Writer.{Tick, Fetch, writer_thread, start_phase}
use live_video.Enc.Writer.Stream.{WriterResult, writer_thread-WriterResult}
use live_video.Wire.Frame.Layout.{Fits}
use live_video.Enc.Args.{Args, check_args, check_args-oti_is_sane}
use live_video.Wire.Frame.Build.{make_block_oti}
use live_video.Dec.Oti.{oti_is_sane}
use live_video.Examples.Toy.{toy, small_oti, small_block, small_packet}

abbrev sources : List ℕ
sources = 1 ∷ 2 ∷ 3 ∷ []

abbrev repairs : List ℕ
repairs = 8 ∷ 9 ∷ []

interleave-spread_example : interleave sources repairs 2 ≡ spread 2 2 sources repairs
interleave-spread_example =
    interleave-spread sources repairs 2 (omega arith) (omega arith) (omega arith)

one-IsRngState : IsRngState 1
one-IsRngState = record { nonzero = λ e. cc; fits = omega arith }

abbrev entry_at : ℕ → ℕ → BlockGen ℕ
entry_at t id = record { encoder = 5; next_repair_id = id; max_repair = 4; created = t }

-- An old block, an exhausted one and a fresh one.
abbrev three_blocks : List (BlockGen ℕ)
three_blocks = entry_at 10 1 ∷ entry_at 800 4 ∷ entry_at 900 2 ∷ []

prune_ring-IsPruned_example :
    IsPruned (λ n. 1000 + n) 700 three_blocks (prune_ring (λ n. 1000 + n) 700 three_blocks)
prune_ring-IsPruned_example =
    prune_ring-IsPruned (λ n. 1000 + n) 700 three_blocks (λ m. omega arith)
      (omega arith, (omega arith, (omega arith, tt)))

pick_block_lem_example :
    (choice : Option ℕ) × (rng' : ℕ) × (pick_block three_blocks 1 ≡ some (choice, rng'))
    × IsPick three_blocks choice
    × IsRngState rng'
pick_block_lem_example = pick_block_lem three_blocks 1 one-IsRngState

abbrev args : EncoderArgs (List ℕ)
args = record {
  oti = small_oti;
  baseline_repair = 1;
  max_repair = 2;
  adaptive = true;
  horizon = 700;
}

abbrev slot_with : Incoming → Slot
slot_with i = record { incoming = i; created = 5; clock = λ n. 6 + n }

abbrev slots : List Slot
slots = slot_with (block small_block) ∷ slot_with empty ∷ slot_with disconnected ∷ []

abbrev tick_with : Fetch ((ℕ × ℕ) × List ℕ) → Tick ((ℕ × ℕ) × List ℕ)
tick_with f = record { fetch = f; written = true; elapsed = 100 }

abbrev ticks : List (Tick ((ℕ × ℕ) × List ℕ))
ticks =
    tick_with Writer.empty
    ∷ tick_with (Writer.packet (small_packet 0))
    ∷ tick_with Writer.disconnected
    ∷ []

small_packet-Fits : Fits toy small_oti (small_packet 0)
small_packet-Fits = record { oti_length = refl; id_length = refl; symbol_length = refl }

writer_thread-WriterResult_example :
    WriterResult toy 0x100 1000000 small_oti
      (small_packet 0 ∷ [])
      (writer_thread toy 0x100 1000000 small_oti ticks (start_phase 1000000))
writer_thread-WriterResult_example =
    writer_thread-WriterResult toy 0x100 1000000 small_oti (omega arith) ticks (omega arith)
      (small_packet-Fits, tt)

abbrev default_args : Args
default_args = record {
  block_size = 65464;
  repair_passes = true;
  max_repair_passes = true;
  rate = 5000000;
}

default_args_pass : check_args default_args ≡ ok 392
unfolding check_args
default_args_pass = refl

check_args-oti_is_sane_example :
    (0 < 5000000) × ((oti_is_sane toy (make_block_oti toy 65464 167) ≡ true) ↔ (392 ≤ 56403))
check_args-oti_is_sane_example =
    check_args-oti_is_sane toy default_args 392 (refl, refl) default_args_pass (omega arith)
