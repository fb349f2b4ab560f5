-- ===== src/Dec/Emit.antt =====
-- The emission loop, `flush_remaining` and the loop of `run_decoder` of raptorq/dec/src/main.rs.
pub mod Rounds
pub mod Loop
use live_video.Prelude.{
  ℕ, zero, suc, ◌+◌, ◌-◌, ◌*◌, Bool, false, List, [], ◌∷◌, ◌++◌, Option, none, some, ◌&&◌, ◌||◌,
  leb, if◌then◌else◌, u64, length, replicate, Outcome, ok, err, panic, ◌>>=◌,
}
use live_video.Maps.{get, remove, last_key}
use live_video.Wire.Constants.{default_block_size}
use live_video.Dec.Block.{BlockState, best_effort}
use live_video.Dec.State.{Decoder, Options, incr}

-- What the environment answers during one pass: the readings of the clock, and whether each
-- write and the flush succeed.
pub record Env : Type 0 where
  pub clock : ℕ → ℕ
  pub write_ok : ℕ → Bool
  pub flush_ok : Bool

-- An error of stdout ends the program; `out_of_fuel` is the model's own, and never returned.
pub data Fault : Type 0 where
  io_error out_of_fuel : Fault

-- One round of the loop: a block was emitted, or the loop breaks.
pub data Round (S : Type 0) : Type 0 where
  emitted : S → Round S
  idle : Round S

module _ {D : Type 0} where
  unfoldable pub should_force : Options → Decoder D → Bool
  should_force o d = elim (last_key d.pool) [
    | none ↦ false
    | some hi ↦ leb (u64 (d.cursor + o.max_in_flight)) hi
  ]

  -- `write_all`, the `n`-th write of the pass.
  unfoldable pub write_all : Env → ℕ → Decoder D → List ℕ → Outcome Fault (Decoder D)
  write_all e n d bytes =
      if e.write_ok n then ok (record d { out = d.out ++ (bytes ∷ []) }) else err io_error

  unfoldable pub count_decoded : Decoder D → Decoder D
  count_decoded d =
      let stats = d.istats in
      record d {
        decoded_blocks = incr d.decoded_blocks;
        istats = record stats { decoded = incr stats.decoded };
        cursor = incr d.cursor;
      }

  unfoldable pub count_besteffort : Decoder D → BlockState D → Bool → Decoder D
  count_besteffort d b timed_out =
      let stats = d.istats in
      record d {
        besteffort_blocks = incr d.besteffort_blocks;
        istats = record stats {
          besteffort = incr stats.besteffort;
          be_syms_rcvd = u64 (stats.be_syms_rcvd + u64 (length b.source_symbols + b.repair_count));
          be_syms_needed = u64 (stats.be_syms_needed + b.k);
          be_timed_out = if timed_out then incr stats.be_timed_out else stats.be_timed_out;
          be_forced = if timed_out then stats.be_forced else incr stats.be_forced;
        };
        cursor = incr d.cursor;
      }

  unfoldable pub count_zero : Decoder D → Decoder D
  count_zero d =
      let stats = d.istats in
      record d {
        zero_blocks = incr d.zero_blocks;
        istats = record stats { zero_emitted = incr stats.zero_emitted };
        cursor = incr d.cursor;
      }

  -- The block at the cursor is out of the pool.
  unfoldable pub drop_block : Decoder D → Decoder D
  drop_block d = record d { pool = remove d.cursor d.pool }

  -- `first_seen.elapsed() >= timeout`, by the `n`-th reading of the clock.
  unfoldable pub is_late : Options → Env → ℕ → BlockState D → Bool
  is_late o e n b = leb o.timeout (e.clock n - b.first_seen)

  -- A best-effort emission; its verdict on lateness is the second reading of the clock.
  unfoldable pub emit_best_effort :
      Options → Env → ℕ → Decoder D → BlockState D → List ℕ → Outcome Fault (Round (Decoder D))
  emit_best_effort o e n d b bytes = do
    d' ← write_all e n (drop_block d) bytes
    ok (emitted (count_besteffort d' b (is_late o e (2 * n + 1) b)))

  -- A block of which nothing came.
  unfoldable pub emit_zeros : Env → ℕ → Decoder D → Outcome Fault (Round (Decoder D))
  emit_zeros e n d = do
    d' ← write_all e n d (replicate default_block_size 0)
    ok (emitted (count_zero d'))

  -- The arms for a block at the cursor. The clock is read twice in a round.
  unfoldable pub round_block :
      Options
      → Env
      → ℕ
      → Decoder D
      → BlockState D
      → Option (List ℕ)
      → Outcome Fault (Round (Decoder D))
  round_block o e n d b (some bytes) = do
    d' ← write_all e n (drop_block d) bytes
    ok (emitted (count_decoded d'))
  round_block o e n d b none =
      if is_late o e (2 * n) b || should_force o d
      then elim (best_effort b) [ none ↦ panic | some bytes ↦ emit_best_effort o e n d b bytes ]
      else ok idle

  -- The match on `pool.get(&cursor)`.
  unfoldable pub round_on :
      Options → Env → ℕ → Decoder D → Option (BlockState D) → Outcome Fault (Round (Decoder D))
  round_on o e n d (some b) = round_block o e n d b b.completed
  round_on o e n d none =
      if d.started && (should_force o d || leb (u64 (d.cursor + o.max_in_flight)) d.highest_seen)
      then emit_zeros e n d
      else ok idle

  -- Round `n` of the inner loop.
  unfoldable pub round : Options → Env → ℕ → Decoder D → Outcome Fault (Round (Decoder D))
  round o e n d = round_on o e n d (get d.cursor d.pool)

  -- Going on after a round, or leaving the loop.
  unfoldable pub after_round :
      (Decoder D → Outcome Fault (Decoder D))
      → Decoder D
      → Outcome Fault (Round (Decoder D))
      → Outcome Fault (Decoder D)
  after_round next d (ok (emitted d')) = next d'
  after_round next d (ok idle) = ok d
  after_round next d (err f) = err f
  after_round next d panic = panic

  -- The inner loop, on fuel; the call is partly applied, so it runs only when a block was
  -- emitted.
  unfoldable pub emit_loop : ℕ → Options → Env → ℕ → Decoder D → Outcome Fault (Decoder D)
  unfolding after_round
  emit_loop zero o e n d = err out_of_fuel
  emit_loop (suc fuel) o e n d = after_round (emit_loop fuel o e (n + 1)) d (round o e n d)

  -- Each round that emits passes one block number, none of them behind the highest one seen.
  unfoldable pub emit_blocks : Options → Env → Decoder D → Outcome Fault (Decoder D)
  emit_blocks o e d = emit_loop (d.highest_seen + 2 - d.cursor) o e 0 d
