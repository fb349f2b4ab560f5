-- ===== src/Dec/Reader/Ending.antt =====
-- `reader_thread` of raptorq/dec/src/main.rs stops once its input has been read.
use live_video.Prelude.{
  ℕ, zero, suc, ◌+◌, ◌-◌, ◌≤◌, ◌<◌, ◌≡◌, ◌≢◌, refl, Bool, true, false, not, List, [], ◌∷◌, arith,
  ◌==◌, length, min, if◌then◌else◌, some, none, drop, length-take, length-drop, Option,
}
use live_video.Prelude.Slices.{write_at}
use live_video.Wire.Constants.{ts_packet_size, ts_sync_byte}
use live_video.Dec.Reader.{
  Reader, Read, Standing, running, closed, exhausted, delivers, interrupted, failed, start_reader,
  begins_with, run_reader, skip_byte, send_packet, drain, after_read, read_turn, read_bytes,
}
use live_video.Dec.Reader.Scan.{
  ReaderResult, reader_runs, reader_ends, reader_refused, reader_breaks,
}
use live_video.Dec.Reader.Chunks.{run_reader-ReaderResult}

abbrev pub AllDeliver : List Read → Type 0
AllDeliver [] = Unit {0}
AllDeliver (delivers n ∷ ts) = AllDeliver ts
AllDeliver (t ∷ ts) = ⊥

-- Stopped, or with fewer than `k` bytes of the input to come.
pub data Progress (k : ℕ) : Standing → Type 0 where
  stops : (r : Reader) → Progress k (closed r)
  goes : (r : Reader) → length r.stdin < k → Progress k (running r)
  spent : Progress k exhausted

if-Progress :
    (k : ℕ) (b : Bool) (s t : Standing)
    → Progress k s
    → Progress k t
    → Progress k (if b then s else t)
if-Progress k true s t p q = p
if-Progress k false s t p q = q

module _ (accepts : ℕ → Bool) where
  drain-Progress :
      (k fuel : ℕ) (r : Reader) → length r.stdin < k → Progress k (drain accepts fuel r)
  unfolding drain skip_byte send_packet
  drain-Progress k zero r h = spent
  drain-Progress k (suc fuel) r h =
      if-Progress k (not (r.filled == ts_packet_size)) _ _ (goes r h) (
        if-Progress k (not (begins_with ts_sync_byte r.scratch)) _ _
          (drain-Progress k fuel (skip_byte r) h)
          (if-Progress k (accepts (length r.sent)) _ _ (drain-Progress k fuel (send_packet r) h)
            (stops r)))

  after_read-Progress :
      (k : ℕ) (r : Reader) (bytes : List ℕ)
      → length r.stdin < suc k
      → length bytes ≤ length r.stdin
      → Progress k (after_read accepts r bytes)
  unfolding after_read
  after_read-Progress k r [] h le = stops r
  after_read-Progress k r (b ∷ bs) h le =
      written (write_at r.filled (suc (length bs)) r.scratch (b ∷ bs))
    where
      written :
          (w : Option (List ℕ))
          → Progress k (elim w as (λ x. Standing) [
            | none ↦ exhausted
            | some scratch ↦ drain accepts 2 (record r {
              stdin = drop (suc (length bs)) r.stdin;
              scratch = scratch;
              filled = r.filled + suc (length bs);
            })
          ])
      written none = spent
      written (some scratch) =
          drain-Progress k 2 _ (omega (arith, length-drop (suc (length bs)) r.stdin))

  -- A read that delivers leaves less of the input, or ends the thread.
  pub read_turn-Progress :
      (k n : ℕ) (r : Reader)
      → length r.stdin < suc k
      → Progress k (read_turn accepts (delivers n) r)
  unfolding read_turn read_bytes
  read_turn-Progress k n r few =
      after_read-Progress k r _ few
        (omega (arith, length-take (min (suc n) (length r.scratch - r.filled)) r.stdin))

  weaken-Progress : (j k : ℕ) (s : Standing) → k ≤ j → Progress k s → Progress j s
  weaken-Progress j k s le (stops r) = stops r
  weaken-Progress j k s le (goes r few) = goes r (omega arith)
  weaken-Progress j k s le spent = spent

  run_reader-Progress :
      (ts : List Read) (s : Standing) (j k : ℕ)
      → AllDeliver ts
      → k ≤ j + length ts
      → Progress k s
      → Progress j (run_reader accepts ts s)
  unfolding run_reader read_turn read_bytes
  run_reader-Progress [] s j k h le p = weaken-Progress j k s (omega arith) p
  run_reader-Progress (delivers n ∷ ts) s j k h le (stops r) = stops r
  run_reader-Progress (delivers n ∷ ts) s j k h le spent = spent
  run_reader-Progress (delivers n ∷ ts) s j zero h le (goes r few) = absurd (omega arith)
  run_reader-Progress (delivers n ∷ ts) s j (suc k) h le (goes r few) =
      run_reader-Progress ts _ j k h (omega arith) (
        after_read-Progress k r _ few
          (omega (arith, length-take (min (suc n) (length r.scratch - r.filled)) r.stdin)))
  run_reader-Progress (interrupted ∷ ts) s j k h le p = absurd h
  run_reader-Progress (failed ∷ ts) s j k h le p = absurd h

  pub not_exhausted : (input : List ℕ) (s : Standing) → ReaderResult accepts input s → s ≢ exhausted
  not_exhausted input s (reader_runs r w few) e = cc
  not_exhausted input s (reader_ends r w last) e = cc
  not_exhausted input s (reader_refused r c split e' refused) e = cc
  not_exhausted input s (reader_breaks r w) e = cc

  closed_at :
      (input : List ℕ) (s : Standing)
      → Progress 0 s
      → ReaderResult accepts input s
      → (r : Reader) × (s ≡ closed r)
  closed_at input s (stops r) w = (r, refl)
  closed_at input s (goes r few) w = absurd (omega arith)
  closed_at input s spent w = absurd (not_exhausted input exhausted w refl)

  -- When every read delivers at least one byte until there are none, the reader has returned `Ok`
  -- after at most as many reads as the input has bytes, and one more, whether sends succeed or
  -- not.
  pub run_reader-closed :
      (ts : List Read) (input : List ℕ)
      → AllDeliver ts
      → length input < length ts
      → (r : Reader) × (run_reader accepts ts (running (start_reader input)) ≡ closed r)
  unfolding start_reader
  run_reader-closed ts input h enough =
      closed_at input _
        (run_reader-Progress ts _ 0 (suc (length input)) h (omega arith)
          (goes (start_reader input) (omega arith)))
        (run_reader-ReaderResult accepts input ts)
