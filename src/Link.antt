-- ===== src/Link.antt =====
-- The encoder's `writer_thread` (raptorq/enc/src/main.rs) and the decoder's `reader_thread`
-- (raptorq/dec/src/main.rs) over a link that loses nothing.
pub mod Segments
pub mod Broadcast
pub mod Delivery
pub mod Pipeline
pub mod EndToEnd
use mathlib.Core.List.{append-nil}
use live_video.Prelude.{
  ℕ, ◌+◌, ◌<◌, ◌≡◌, refl, sym, ◌∙◌, subst, true, false, List, [], ◌∷◌, ◌++◌, ◌==◌, leb, Bool-cases,
  inl, inr, length, concat, ok, err, arith,
}
use live_video.Prelude.Slices.{slice?}
use live_video.RaptorQ.{RaptorQ}
use live_video.Wire.Header.{bad_sync, parse}
use live_video.Wire.Frame.Parse.{ParsedFrame, to_header, parse_packet}
use live_video.Dec.Reader.{Reader, Read, running, closed, start_reader, run_reader}
use live_video.Dec.Reader.Ending.{AllDeliver}
use live_video.Dec.Reader.Aligned.{IsPacket, AllPackets, run_reader-concat}
use live_video.Enc.Writer as Writer
use live_video.Enc.Writer.Stream.{
  IsStream, stream_start, stream_data, stream_noop, AllFit, taken, WriterResult, writer_runs,
  writer_drained, writer_failed, writer_thread-WriterResult,
}

AllPackets-append :
    (ps : List (List ℕ)) (p : List ℕ) → AllPackets ps → IsPacket p → AllPackets (ps ++ (p ∷ []))
AllPackets-append [] p h w = (w, tt)
AllPackets-append (x ∷ ps) p h w = (h.0, AllPackets-append ps p h.1 w)

module _ (q : RaptorQ) (pid : ℕ) where
  open q use {Oti, PayloadId, Packet}

  no_sync :
      (b0 b1 b2 b3 : ℕ) (rest : List ℕ)
      → length (b0 ∷ b1 ∷ b2 ∷ b3 ∷ rest) ≡ 188
      → (b0 == 0x47) ≡ false
      → parse_packet q (b0 ∷ b1 ∷ b2 ∷ b3 ∷ rest) pid ≡ err bad_sync
  unfolding parse_packet slice? to_header parse
  no_sync b0 b1 b2 b3 rest size wrong =
      let whole : (length (b0 ∷ b1 ∷ b2 ∷ b3 ∷ rest) == 188) ≡ true = ground arith in
      let four : leb (0 + 4) (length (b0 ∷ b1 ∷ b2 ∷ b3 ∷ rest)) ≡ true = ground arith in
      rw (whole, four, wrong, parse_packet) refl

  -- A packet that can be parsed begins with the sync byte.
  parsed-IsPacket :
      (bytes : List ℕ) (f : ParsedFrame Oti PayloadId)
      → length bytes ≡ 188
      → parse_packet q bytes pid ≡ ok f
      → IsPacket bytes
  parsed-IsPacket (b0 ∷ b1 ∷ b2 ∷ b3 ∷ rest) f size e = elim (Bool-cases (b0 == 0x47)) [
    | inl sync ↦ (size, sync)
    | inr wrong ↦ cc (sym (no_sync b0 b1 b2 b3 rest size wrong) ∙ e)
  ]
  parsed-IsPacket [] f size e = absurd (omega arith)
  parsed-IsPacket (b0 ∷ []) f size e = absurd (omega arith)
  parsed-IsPacket (b0 ∷ b1 ∷ []) f size e = absurd (omega arith)
  parsed-IsPacket (b0 ∷ b1 ∷ b2 ∷ []) f size e = absurd (omega arith)

  module _ (rate_bps : ℕ) (oti : Oti) (small : pid < 8192) where
    IsStream-AllPackets :
        (ps : List Packet) (out : List (List ℕ))
        → IsStream q pid rate_bps oti ps out
        → AllPackets out
    IsStream-AllPackets ps out stream_start = tt
    IsStream-AllPackets ps out (stream_data before sent p bytes size e s) =
        AllPackets-append sent bytes (IsStream-AllPackets before sent s)
          (parsed-IsPacket bytes _ size e)
    IsStream-AllPackets ps out (stream_noop before sent bytes size e s) =
        AllPackets-append sent bytes (IsStream-AllPackets before sent s)
          (parsed-IsPacket bytes _ size e)

    -- What the writer has written when it stands somewhere.
    abbrev pub written : Writer.Phase → List (List ℕ)
    written (Writer.running w) = w.out
    written (Writer.drained w) = w.out
    written (Writer.failed w) = w.out
    written Writer.panicked = []

    -- The packets on the wire, and the first of those taken that they carry.
    pub record IsCarried (ps : List Packet) (out : List (List ℕ)) : Type 0 where
      pub before : List Packet
      pub after : List Packet
      pub split : before ++ after ≡ ps
      pub stream : IsStream q pid rate_bps oti before out

    written-IsCarried :
        (ps : List Packet) (p : Writer.Phase)
        → WriterResult q pid rate_bps oti ps p
        → IsCarried ps (written p)
    written-IsCarried ps p (writer_runs w v) = record {
      before = ps;
      after = [];
      split = append-nil ps;
      stream = v.stream;
    }
    written-IsCarried ps p (writer_drained w before after e s) = record {
      before = before;
      after = after;
      split = e;
      stream = s;
    }
    written-IsCarried ps p (writer_failed w before after e s) = record {
      before = before;
      after = after;
      split = e;
      stream = s;
    }

    -- For a PID of 13 bits, a positive rate, and packets whose parts have the sizes that the
    -- crate promises: when all bytes that the encoder's writer has written reach the decoder's
    -- reader, in reads of any size that all deliver, and its sends succeed, the reader returns
    -- `Ok` after at most one read more than there are bytes, and has sent exactly the packets
    -- that were written. The decoder's parser reads these as the first of the packets that the
    -- writer took from its channel, in order, with stuffing in between and counters without a
    -- gap.
    pub writer_thread-run_reader :
        (ts : List (Writer.Tick Packet)) (reads : List Read)
        → 0 < rate_bps
        → AllFit q pid rate_bps oti (taken q pid rate_bps oti ts)
        → AllDeliver reads
        → let out =
            written (Writer.writer_thread q pid rate_bps oti ts (Writer.start_phase rate_bps)) in
          length (concat out) < length reads
          → (r : Reader) × (run_reader (λ n. true) reads (running (start_reader (concat out)))
              ≡ closed r)
            × (r.sent ≡ out)
            × IsCarried (taken q pid rate_bps oti ts) r.sent
    writer_thread-run_reader ts reads paced fits deliver enough =
        let end = Writer.writer_thread q pid rate_bps oti ts (Writer.start_phase rate_bps) in
        let carried =
          written-IsCarried (taken q pid rate_bps oti ts) end
            (writer_thread-WriterResult q pid rate_bps oti small ts paced fits) in
        let (r, e, sent) =
          run_reader-concat reads (written end)
            (IsStream-AllPackets carried.before (written end) carried.stream) deliver enough in
        (r, e, sent, subst (IsCarried (taken q pid rate_bps oti ts)) (sym sent) carried)
