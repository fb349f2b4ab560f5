-- ===== src/Dec/Reader/Chunks.antt =====
-- The chunks in which `reader_thread` of raptorq/dec/src/main.rs is given its input do not matter.
use mathlib.Core.List.{append_assoc}
use live_video.Prelude.{
  ℕ, suc, ◌+◌, ◌-◌, ◌≤◌, ◌<◌, ◌≡◌, refl, sym, ◌∙◌, ap, Bool, true, false, List, [], ◌∷◌, ◌++◌,
  arith, ◌==◌, inl, inr, Bool-cases, length, take, drop, min, length-append, length-take,
  length-drop, length-replicate, take_all, take-append, drop-append, take-append-drop, leb, ◌&&◌,
  length-eq-zero,
}
use live_video.Prelude.Slices.{write_at}
use live_video.Dec.Reader.{
  Reader, Read, delivers, interrupted, failed, Standing, running, start_reader, shift_left,
  read_bytes, skip_byte, send_packet, begins_with, drain, after_read, read_turn, run_reader,
}
use live_video.Dec.Reader.Scan.{
  scan, empty_scan, settle_held, settle_held_short, scan_chunk, scan-append, tail_of, IsScanned,
  ReaderResult, reader_runs, reader_ends, reader_refused, reader_breaks,
}

-- Skipping a byte leaves the tail of the buffer.
take-shift_left : (xs : List ℕ) → length xs ≡ 188 → take 187 (shift_left xs) ≡ tail_of xs
unfolding shift_left
take-shift_left [] h = absurd (omega arith)
take-shift_left (x ∷ xs) h = take-append 187 xs (drop (suc (length xs) - 1) (x ∷ xs)) (omega arith)

length-shift_left : (xs : List ℕ) → length xs ≡ 188 → length (shift_left xs) ≡ 188
unfolding shift_left
length-shift_left xs h = omega (
  arith,
  length-append (drop 1 xs) (drop (length xs - 1) xs),
  length-drop 1 xs,
  length-drop (length xs - 1) xs,
)

module _ (accepts : ℕ → Bool) (input : List ℕ) where
  -- The inner loop ends within two rounds, and settles what is held.
  drain_lem :
      (r : Reader) (consumed : List ℕ)
      → consumed ++ r.stdin ≡ input
      → length r.scratch ≡ 188
      → r.filled ≤ 188
      → scan empty_scan consumed
        ≡ settle_held (record { held = take r.filled r.scratch; found = r.sent })
      → ReaderResult accepts input (drain accepts 2 r)
  unfolding drain skip_byte send_packet
  drain_lem r consumed split whole room e = elim (Bool-cases (r.filled == 188)) [
    | inr partial ↦
        let few : r.filled < 188 = ground arith in
        let short : length (take r.filled r.scratch) < 188 =
          omega (arith, length-take r.filled r.scratch) in
        rw partial (
          reader_runs r
            (record {
              consumed = consumed;
              split = split;
              whole = whole;
              room = room;
              scanned = e ∙ settle_held_short _ short;
            })
            few)
    | inl full ↦
        let at : r.filled ≡ 188 = ground arith in
        let held : take r.filled r.scratch ≡ r.scratch =
          ap (λ n. take n r.scratch) at ∙ take_all 188 r.scratch whole in
        let e' : scan empty_scan consumed
            ≡ settle_held (record { held = r.scratch; found = r.sent }) =
          e ∙ ap (λ h. settle_held (record { held = h; found = r.sent })) held in
        elim (Bool-cases (begins_with 0x47 r.scratch)) [
          | inl sync ↦ elim (Bool-cases (accepts (length r.sent))) [
            | inl sent ↦
                rw (full, sync, sent)
                  (reader_runs (send_packet r)
                    (record {
                      consumed = consumed;
                      split = split;
                      whole = whole;
                      room = omega arith;
                      scanned = e' ∙ settled sync;
                    })
                    (omega arith))
            | inr refused ↦
                rw (full, sync, refused)
                  (reader_refused r consumed split (e' ∙ settled sync) refused)
          ]
          | inr junk ↦
              let below : (r.filled - 1 == 188) ≡ false = ground arith in
              rw (full, junk, below)
                (reader_runs (skip_byte r)
                  (record {
                    consumed = consumed;
                    split = split;
                    whole = length-shift_left r.scratch whole;
                    room = omega arith;
                    scanned = e' ∙ skipped junk at;
                  })
                  (omega arith))
        ]
  ]
    where
      settled :
          begins_with 0x47 r.scratch ≡ true
          → settle_held (record { held = r.scratch; found = r.sent })
            ≡ record { held = []; found = r.sent ++ (r.scratch ∷ []) }
      settled sync =
          let full_held : (length r.scratch == 188) ≡ true = ground arith in
          rw (full_held, sync) refl

      skipped :
          begins_with 0x47 r.scratch ≡ false
          → r.filled ≡ 188
          → settle_held (record { held = r.scratch; found = r.sent })
            ≡ record { held = take (r.filled - 1) (shift_left r.scratch); found = r.sent }
      skipped junk at =
          let full_held : (length r.scratch == 188) ≡ true = ground arith in
          let kept : take (r.filled - 1) (shift_left r.scratch) ≡ tail_of r.scratch =
            ap (λ n. take (n - 1) (shift_left r.scratch)) at ∙ take-shift_left r.scratch whole in
          rw (full_held, junk, kept) refl

  after_read_lem :
      (r : Reader) (bytes rest : List ℕ)
      → IsScanned input r.sent r
      → r.filled < 188
      → bytes ++ rest ≡ r.stdin
      → r.filled + length bytes ≤ 188
      → ((bytes ≡ []) → r.stdin ≡ [])
      → ReaderResult accepts input (after_read accepts r bytes)
  unfolding after_read write_at
  after_read_lem r [] rest w few split fits last = reader_ends r w (last refl)
  after_read_lem r (b ∷ bs) rest w few split fits last =
      let n : ℕ = suc (length bs) in
      let head : List ℕ = take r.filled r.scratch in
      let tail : List ℕ = drop (r.filled + n) r.scratch in
      let buf : List ℕ = head ++ ((b ∷ bs) ++ tail) in
      let head_len : length head ≡ r.filled =
        omega (arith, length-take r.filled r.scratch, w.whole) in
      let tail_len : length tail ≡ 188 - (r.filled + n) =
        omega (arith, length-drop (r.filled + n) r.scratch, w.whole) in
      let buf_len : length buf ≡ 188 = omega (
        arith,
        length-append head ((b ∷ bs) ++ tail),
        length-append (b ∷ bs) tail,
        head_len,
        tail_len,
      ) in
      let front : take (r.filled + n) buf ≡ head ++ (b ∷ bs) =
        ap (take (r.filled + n)) (sym (append_assoc head (b ∷ bs) tail))
        ∙ take-append (r.filled + n) (head ++ (b ∷ bs)) tail
            (omega (arith, length-append head (b ∷ bs), head_len)) in
      let ahead : drop n r.stdin ≡ rest =
        ap (drop n) (sym split) ∙ drop-append n (b ∷ bs) rest refl in
      let ok_write : (leb (r.filled + n) (length r.scratch) && (n == n)) ≡ true =
        ground (arith, w.whole) in
      let seen : (w.consumed ++ (b ∷ bs)) ++ drop n r.stdin ≡ input =
        ap ((w.consumed ++ (b ∷ bs)) ++◌) ahead
        ∙ append_assoc w.consumed (b ∷ bs) rest
        ∙ ap (w.consumed ++◌) split
        ∙ w.split in
      let scanned : scan empty_scan (w.consumed ++ (b ∷ bs))
          ≡ settle_held (record { held = take (r.filled + n) buf; found = r.sent }) =
        scan-append empty_scan w.consumed (b ∷ bs)
        ∙ ap (λ s. scan s (b ∷ bs)) w.scanned
        ∙ scan_chunk (record { held = head; found = r.sent }) b bs (omega (arith, head_len))
        ∙ ap (λ h. settle_held (record { held = h; found = r.sent })) (sym front) in
      rw (ok_write, after_read)
        (drain_lem (record r { stdin = drop n r.stdin; scratch = buf; filled = r.filled + n })
          (w.consumed ++ (b ∷ bs)) seen buf_len (omega arith) scanned)

  pub read_turn_lem :
      (t : Read) (r : Reader)
      → IsScanned input r.sent r
      → r.filled < 188
      → ReaderResult accepts input (read_turn accepts t r)
  unfolding read_turn read_bytes
  read_turn_lem (delivers n) r w few =
      let m : ℕ = min (suc n) (length r.scratch - r.filled) in
      after_read_lem r (take m r.stdin) (drop m r.stdin) w few (take-append-drop m r.stdin)
        (omega (arith, length-take m r.stdin, w.whole))
        (λ none_left.
          length-eq-zero r.stdin
            (omega (arith, w.whole, length-take m r.stdin, ap length none_left)))
  read_turn_lem interrupted r w few = reader_runs r w few
  read_turn_lem failed r w few = reader_breaks r w

  run_reader_keeps :
      (ts : List Read) (s : Standing)
      → ReaderResult accepts input s
      → ReaderResult accepts input (run_reader accepts ts s)
  unfolding run_reader
  run_reader_keeps [] s w = w
  run_reader_keeps (t ∷ ts) s (reader_runs r w few) =
      run_reader_keeps ts _ (read_turn_lem t r w few)
  run_reader_keeps (t ∷ ts) s (reader_ends r w e) = reader_ends r w e
  run_reader_keeps (t ∷ ts) s (reader_refused r c split e refused) =
      reader_refused r c split e refused
  run_reader_keeps (t ∷ ts) s (reader_breaks r w) = reader_breaks r w

  -- However the input is cut into reads, and whichever sends fail, the reader has sent exactly
  -- the packets that a scan of the bytes read so far finds one byte at a time, and holds the
  -- bytes which that scan holds: at the end of the input, on a read error and in between. When
  -- a send fails, the packet in the buffer is the last that the scan finds. The loop over the
  -- full buffer always ends within two rounds.
  pub run_reader-ReaderResult :
      (ts : List Read)
      → ReaderResult accepts input (run_reader accepts ts (running (start_reader input)))
  unfolding start_reader
  run_reader-ReaderResult ts = run_reader_keeps ts (running (start_reader input)) (
      reader_runs (start_reader input)
        (record {
          consumed = [];
          split = refl;
          whole = length-replicate {A = ℕ} 188 0;
          room = omega arith;
          scanned = unfold scan in refl;
        })
        (omega arith))
