-- ===== src/Enc/Writer.antt =====
-- `writer_thread` of raptorq/enc/src/main.rs. Times are in nanoseconds since the thread's start;
-- the heartbeat log is left out.
pub mod Stream
pub mod Pace
use live_video.Prelude.{
  ℕ, zero, suc, ◌+◌, ◌*◌, ◌/◌, ◌-◌, ◌%◌, ◌^◌, Bool, true, false, List, [], ◌∷◌, ◌++◌, Option, none,
  some, ltb, ◌==◌, if◌then◌else◌, u64, replicate,
}
use live_video.RaptorQ.{RaptorQ}
use live_video.Wire.Constants.{ts_packet_size}
use live_video.Wire.Continuity.{advance}
use live_video.Wire.Frame.Build.{build_noop_packet, build_data_packet}

-- What `try_recv` finds.
pub data Fetch (P : Type 0) : Type 0 where
  packet : P → Fetch P
  empty : Fetch P
  disconnected : Fetch P

-- One turn: what the channel has, whether the write succeeds, and the time after it.
pub record Tick (P : Type 0) : Type 0 where
  pub fetch : Fetch P
  pub written : Bool
  pub elapsed : ℕ

-- The variables of the thread, what was written, and the time when the last sleep ends.
pub record Writer : Type 0 where
  pub cc : ℕ
  pub buf : List ℕ
  pub packets_sent : ℕ
  pub noops_sent : ℕ
  pub out : List (List ℕ)
  pub awake : ℕ

-- Where the thread stands: in its loop, returned with `Ok`, failed to write, or panicked.
pub data Phase : Type 0 where
  running : Writer → Phase
  drained : Writer → Phase
  failed : Writer → Phase
  panicked : Phase

unfoldable pub start_writer : Writer
start_writer = record {
  cc = 0;
  buf = replicate ts_packet_size 0;
  packets_sent = 0;
  noops_sent = 0;
  out = [];
  awake = 0;
}

unfoldable pub nanos_per_packet : ℕ → ℕ
nanos_per_packet rate_bps = 1000000000 * (ts_packet_size * 8) / rate_bps

-- The sleep behind a write, in nanoseconds; the product is of 128 bits.
unfoldable pub pause : ℕ → ℕ → ℕ → ℕ
unfolding nanos_per_packet
pause rate_bps total elapsed =
    let next_deadline_ns = nanos_per_packet rate_bps * total % 2 ^ 128 in
    if ltb elapsed next_deadline_ns then u64 (next_deadline_ns - elapsed) else 0

-- Before the loop: the division by the rate panics on 0, which `main` refuses.
unfoldable pub start_phase : ℕ → Phase
unfolding start_writer
start_phase rate_bps = if rate_bps == 0 then panicked else running start_writer

module _ (q : RaptorQ) (pid rate_bps : ℕ) (oti : q.Oti) where
  open q use {Packet}

  -- The write of the buffer and the sleep.
  unfoldable pub write_out : Tick Packet → Writer → Phase
  unfolding pause
  write_out t w =
      if t.written
      then running (record w {
        out = w.out ++ (w.buf ∷ []);
        awake = t.elapsed + pause rate_bps (u64 (w.packets_sent + w.noops_sent)) t.elapsed;
      })
      else failed w

  -- Behind the building of a packet, which panics if a bounds check fails.
  unfoldable pub emit : Tick Packet → Writer → Option (List ℕ) → Phase
  unfolding write_out
  emit t w none = panicked
  emit t w (some buf) = write_out t (record w { buf = buf })

  -- A turn of the loop, by what the channel has; once it is closed and empty the loop ends.
  unfoldable pub write_turn : Tick Packet → Fetch Packet → Writer → Phase
  unfolding emit advance
  write_turn t (packet p) w =
      emit t (record w { cc = (advance w.cc).1; packets_sent = u64 (w.packets_sent + 1) })
        (build_data_packet q pid (advance w.cc).0 oti p w.buf)
  write_turn t empty w =
      emit t (record w { cc = (advance w.cc).1; noops_sent = u64 (w.noops_sent + 1) })
        (build_noop_packet pid (advance w.cc).0 w.buf)
  write_turn t disconnected w = drained w

  unfoldable pub writer_thread : List (Tick Packet) → Phase → Phase
  unfolding write_turn
  writer_thread [] p = p
  writer_thread (t ∷ ts) (running w) = writer_thread ts (write_turn t t.fetch w)
  writer_thread (t ∷ ts) (drained w) = drained w
  writer_thread (t ∷ ts) (failed w) = failed w
  writer_thread (t ∷ ts) panicked = panicked
