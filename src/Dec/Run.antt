-- ===== src/Dec/Run.antt =====
-- `flush_remaining` and the outer loop of `run_decoder` of raptorq/dec/src/main.rs.
pub mod Flush
pub mod Safety
pub mod Counted
use live_video.Prelude.{
  ℕ, ◌+◌, ◌-◌, ◌*◌, List, [], ◌∷◌, map, Option, none, some, ltb, leb, if◌then◌else◌, max, Outcome,
  ok, err, panic, ◌>>=◌, u64,
}
use live_video.Maps.{get, remove}
use live_video.RaptorQ.{RaptorQ}
use live_video.Dec.Block.{BlockState, best_effort}
use live_video.Dec.State.{Decoder, Options, incr, no_stats}
use live_video.Dec.Receive.{Flow, fall, again, abort, on_bytes}
use live_video.Dec.Emit.{Env, Fault, io_error, write_all, emit_blocks}

-- `rx.recv_timeout`: a packet of the reader thread, nothing within 20 ms, or the reader is gone.
pub data Received : Type 0 where
  packet : List ℕ → Received
  nothing : Received
  disconnected : Received

-- The rest of what the environment answers in one turn of the outer loop: when a new block is
-- stamped, and the clock at the statistics.
pub record Turn : Type 0 where
  pub env : Env
  pub received : Received
  pub arrival : ℕ
  pub stats_time : ℕ
  pub stats_reset : ℕ

-- The loop goes on, or has returned.
pub data Next (S : Type 0) : Type 0 where
  going : S → Next S
  finished : S → Next S

-- `(stats_interval_secs > 0).then(..)`, in milliseconds.
unfoldable pub stats_interval_of : ℕ → Option ℕ
stats_interval_of secs = if ltb 0 secs then some (secs * 1000) else none

module _ {D : Type 0} where
  -- What `flush_remaining` writes for a block.
  unfoldable pub block_bytes : BlockState D → Option (List ℕ) → Option (List ℕ)
  block_bytes b (some bytes) = some bytes
  block_bytes b none = best_effort b

  -- A block of the pool.
  unfoldable pub flush_block :
      Env → ℕ → ℕ → Decoder D → BlockState D → Option (List ℕ) → Outcome Fault (Decoder D)
  flush_block e n k d b none = panic
  flush_block e n k d b (some bytes) = do
    d' ← write_all e n (record d { pool = remove k d.pool }) bytes
    ok (record d' { cursor = incr k })

  -- One key: the cursor is moved up to it, and its block is written.
  unfoldable pub flush_key :
      Env → ℕ → ℕ → Decoder D → Option (BlockState D) → Outcome Fault (Decoder D)
  flush_key e n k d none = ok (record d { cursor = max d.cursor k })
  flush_key e n k d (some b) =
      flush_block e n k (record d { cursor = max d.cursor k }) b (block_bytes b b.completed)

  unfoldable pub flush_keys : Env → ℕ → List ℕ → Decoder D → Outcome Fault (Decoder D)
  flush_keys e n [] d = ok d
  flush_keys e n (k ∷ ks) d = flush_key e n k d (get k d.pool) >>= flush_keys e (n + 1) ks

  unfoldable pub flush_remaining : Env → Decoder D → Outcome Fault (Decoder D)
  flush_remaining e d = flush_keys e 0 (map (λ p. p.0) d.pool) d

  -- The statistics are logged and reset when their interval is over.
  unfoldable pub report_every : Option ℕ → Turn → Decoder D → Decoder D
  report_every none t d = d
  report_every (some interval) t d =
      if leb interval (t.stats_time - d.last_stats)
      then record d { istats = no_stats; last_stats = t.stats_reset }
      else d

  -- The flush of stdout.
  unfoldable pub flush_out : Env → Decoder D → Outcome Fault (Decoder D)
  flush_out e d = if e.flush_ok then ok d else err io_error

  -- The part of the loop behind the match: emission, flush and statistics.
  unfoldable pub settle : Options → Turn → Decoder D → Outcome Fault (Next (Decoder D))
  settle o t d = do
    d' ← emit_blocks o t.env d
    d'' ← flush_out t.env d'
    ok (going (report_every o.stats_interval t d''))

  -- The arm `Disconnected`.
  unfoldable pub close : Turn → Decoder D → Outcome Fault (Next (Decoder D))
  close t d = do d' ← flush_remaining t.env d; d'' ← flush_out t.env d'; ok (finished d'')

  -- After the arm `Ok(bytes)`.
  unfoldable pub after_receive :
      Options → Turn → Flow (Decoder D) → Outcome Fault (Next (Decoder D))
  after_receive o t (fall d) = settle o t d
  after_receive o t (again d) = ok (going d)
  after_receive o t abort = panic

module _ (q : RaptorQ) where
  open q use {BlockDecoder}

  unfoldable pub turn_on :
      Options → Turn → Decoder BlockDecoder → Received → Outcome Fault (Next (Decoder BlockDecoder))
  turn_on o t d (packet bytes) = after_receive o t (on_bytes q o t.arrival d bytes)
  turn_on o t d nothing = settle o t d
  turn_on o t d disconnected = close t d

  -- One turn of the outer loop.
  unfoldable pub turn :
      Options → Turn → Decoder BlockDecoder → Outcome Fault (Next (Decoder BlockDecoder))
  turn o t d = turn_on o t d t.received

  -- The outer loop, over the turns that the environment deals.
  unfoldable pub run_from :
      Options
      → List Turn
      → Next (Decoder BlockDecoder)
      → Outcome Fault (Next (Decoder BlockDecoder))
  run_from o ts (finished d) = ok (finished d)
  run_from o [] (going d) = ok (going d)
  run_from o (t ∷ ts) (going d) = turn o t d >>= run_from o ts
