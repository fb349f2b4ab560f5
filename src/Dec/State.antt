-- ===== src/Dec/State.antt =====
-- The state of `run_decoder` and `IntervalStats` of raptorq/dec/src/main.rs. Counters are `u64`
-- and wrap, as they do in a release build. Time is a number of milliseconds.
use live_video.Prelude.{ℕ, ◌+◌, Bool, List, [], Option, none, false, u64}
use live_video.Dec.Block.{BlockState}
use live_video.Dec.Gap.{cc_gap}

abbrev pub incr : ℕ → ℕ
incr n = u64 (n + 1)

pub record IntervalStats : Type 0 where
  pub decoded : ℕ
  pub besteffort : ℕ
  pub be_timed_out : ℕ
  pub be_forced : ℕ
  pub be_syms_rcvd : ℕ
  pub be_syms_needed : ℕ
  pub zero_emitted : ℕ
  pub pkts_ok : ℕ
  pub noops : ℕ
  pub pkts_redundant : ℕ
  pub pkts_unparseable : ℕ
  pub pkts_lost : ℕ

-- `IntervalStats::default()`.
abbrev pub no_stats : IntervalStats
no_stats = record {
  decoded = 0;
  besteffort = 0;
  be_timed_out = 0;
  be_forced = 0;
  be_syms_rcvd = 0;
  be_syms_needed = 0;
  zero_emitted = 0;
  pkts_ok = 0;
  noops = 0;
  pkts_redundant = 0;
  pkts_unparseable = 0;
  pkts_lost = 0;
}

-- The variables of `run_decoder`; `out` holds what was written to stdout, a chunk for each
-- `write_all`.
pub record Decoder (D : Type 0) : Type 0 where
  pub pool : List (ℕ × BlockState D)
  pub cursor : ℕ
  pub highest_seen : ℕ
  pub started : Bool
  pub out : List (List ℕ)
  pub decoded_blocks : ℕ
  pub besteffort_blocks : ℕ
  pub zero_blocks : ℕ
  pub redundant_packets : ℕ
  pub lost_packets : ℕ
  pub last_cc : Option ℕ
  pub istats : IntervalStats
  pub last_stats : ℕ

-- The variables before the loop.
unfoldable pub start_decoder : {D : Type 0} → ℕ → Decoder D
start_decoder now = record {
  pool = [];
  cursor = 0;
  highest_seen = 0;
  started = false;
  out = [];
  decoded_blocks = 0;
  besteffort_blocks = 0;
  zero_blocks = 0;
  redundant_packets = 0;
  lost_packets = 0;
  last_cc = none;
  istats = no_stats;
  last_stats = now;
}

-- The options that the loop reads: `--pid`, `--max-blocks-in-flight`, `--block-timeout-ms`.
pub record Options : Type 0 where
  pub pid : ℕ
  pub max_in_flight : ℕ
  pub timeout : ℕ
  pub stats_interval : Option ℕ

module _ {D : Type 0} where
  -- The gap of a frame's counter, added to the losses.
  unfoldable pub count_gap : Decoder D → ℕ → Decoder D
  count_gap d cc =
      let (gap, last) = cc_gap d.last_cc cc in
      let stats = d.istats in
      record d {
        istats = record stats { pkts_lost = u64 (stats.pkts_lost + gap) };
        lost_packets = u64 (d.lost_packets + gap);
        last_cc = last;
      }

  unfoldable pub count_noop : Decoder D → Decoder D
  count_noop d =
      let stats = d.istats in record d { istats = record stats { noops = incr stats.noops } }

  unfoldable pub count_unparseable : Decoder D → Decoder D
  count_unparseable d =
      let stats = d.istats in
      record d { istats = record stats { pkts_unparseable = incr stats.pkts_unparseable } }

  unfoldable pub count_redundant : Decoder D → Decoder D
  count_redundant d =
      let stats = d.istats in
      record d {
        redundant_packets = incr d.redundant_packets;
        istats = record stats { pkts_redundant = incr stats.pkts_redundant };
      }

  unfoldable pub count_ok : Decoder D → Decoder D
  count_ok d =
      let stats = d.istats in record d { istats = record stats { pkts_ok = incr stats.pkts_ok } }
