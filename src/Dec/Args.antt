-- ===== src/Dec/Args.antt =====
-- The arguments of raptorq/dec/src/main.rs, and what `run_decoder` makes of them.
use live_video.Prelude.{ℕ}
use live_video.Dec.State.{Options}
use live_video.Dec.Run.{stats_interval_of}

-- `Args`, with the PID as `parse_pid` returns it.
pub record DecoderArgs : Type 0 where
  pub pid : ℕ
  pub max_blocks_in_flight : ℕ
  pub block_timeout_ms : ℕ
  pub stats_interval_secs : ℕ

-- The defaults of the command line.
abbrev pub default_args : DecoderArgs
default_args = record {
  pid = 0x100;
  max_blocks_in_flight = 8;
  block_timeout_ms = 700;
  stats_interval_secs = 10;
}

-- The values that the loop works with; times are in milliseconds.
unfoldable pub options_of : DecoderArgs → Options
unfolding stats_interval_of
options_of args = record {
  pid = args.pid;
  max_in_flight = args.max_blocks_in_flight;
  timeout = args.block_timeout_ms;
  stats_interval = stats_interval_of args.stats_interval_secs;
}
