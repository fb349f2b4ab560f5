-- ===== src/Enc/Writer/Stream.antt =====
-- What `writer_thread` of raptorq/enc/src/main.rs writes.
use mathlib.Core.List.{append_assoc, append-nil}
use live_video.Prelude.{
  ◌==◌, false, ℕ, ◌+◌, ◌%◌, ◌<◌, ◌≡◌, refl, sym, ◌∙◌, ap, subst, true, List, [], ◌∷◌, ◌++◌, ◌==◌,
  Bool-cases, inl, inr, length, length-append, length-replicate, u64, ok, arith,
}
use live_video.RaptorQ.{RaptorQ}
use live_video.Wire.Continuity.{advance, advance-value}
use live_video.Wire.Frame.Parse.{ParsedFrame, data_frame, noop_frame, parse_packet}
use live_video.Wire.Frame.Layout.{Fits}
use live_video.Wire.Frame.RoundTrip.{
  on_pid, parse_packet-build_noop_packet, parse_packet-build_data_packet,
}
use live_video.Enc.Writer.{
  Fetch, packet, empty, disconnected, Tick, Writer, Phase, running, drained, failed, start_phase,
  start_writer, write_out, emit, write_turn, writer_thread,
}

module _ (q : RaptorQ) (pid rate_bps : ℕ) (oti : q.Oti) where
  open q use {
    Oti, Packet, PayloadId, deserialize_oti, serialize_oti, deserialize_id, serialize_id,
    payload_id, symbol,
  }

  -- The packets on the wire, each of 188 bytes: what the decoder's parser makes of them are the
  -- packets `ps` in this order, with stuffing in between, and the counter runs through all.
  pub data IsStream : List Packet → List (List ℕ) → Type 0 where
    stream_start : IsStream [] []
    stream_data :
        (ps : List Packet) (out : List (List ℕ)) (p : Packet) (bytes : List ℕ)
        → length bytes ≡ 188
        → parse_packet q bytes pid
          ≡ ok (
              data_frame
                (length out % 16)
                (deserialize_oti (serialize_oti oti))
                (deserialize_id (serialize_id (payload_id p)))
                (symbol p))
        → IsStream ps out
        → IsStream (ps ++ (p ∷ [])) (out ++ (bytes ∷ []))
    stream_noop :
        (ps : List Packet) (out : List (List ℕ)) (bytes : List ℕ)
        → length bytes ≡ 188
        → parse_packet q bytes pid ≡ ok (noop_frame (length out % 16))
        → IsStream ps out
        → IsStream ps (out ++ (bytes ∷ []))

  -- The packets that the writer takes from the channel.
  abbrev pub fetched : Fetch Packet → List Packet
  fetched (packet p) = p ∷ []
  fetched empty = []
  fetched disconnected = []

  abbrev pub taken : List (Tick Packet) → List Packet
  taken [] = []
  taken (t ∷ ts) = fetched t.fetch ++ taken ts

  abbrev pub AllFit : List Packet → Type 0
  AllFit [] = Unit {0}
  AllFit (p ∷ ps) = Fits q oti p × AllFit ps

  pub record IsWriting (ps : List Packet) (w : Writer) : Type 0 where
    pub counter : w.cc ≡ length w.out % 16
    pub size : length w.buf ≡ 188
    pub stream : IsStream ps w.out

  -- Where the thread may stand when `ps` have come in: all of them are written while it runs,
  -- and those before a failed write or the end of the channel otherwise.
  pub data WriterResult (ps : List Packet) : Phase → Type 0 where
    writer_runs : (w : Writer) → IsWriting ps w → WriterResult ps (running w)
    writer_drained :
        (w : Writer) (before after : List Packet)
        → before ++ after ≡ ps
        → IsStream before w.out
        → WriterResult ps (drained w)
    writer_failed :
        (w : Writer) (before after : List Packet)
        → before ++ after ≡ ps
        → IsStream before w.out
        → WriterResult ps (failed w)

  module _ (small : pid < 8192) where
    on_own_pid : (frame : ParsedFrame Oti PayloadId) → on_pid q pid pid frame ≡ ok frame
    on_own_pid frame = let same : (pid % 8192 == pid) ≡ true = ground arith in rw same refl

    write_out_lem :
        (t : Tick Packet) (w : Writer) (before after ps : List Packet)
        → before ++ after ≡ ps
        → IsStream before w.out
        → w.cc ≡ (length w.out + 1) % 16
        → length w.buf ≡ 188
        → IsStream ps (w.out ++ (w.buf ∷ []))
        → WriterResult ps (write_out q pid rate_bps oti t w)
    unfolding write_out
    write_out_lem t w before after ps e old cc size new = elim (Bool-cases t.written) [
      | inl done ↦ rw done (
          writer_runs _ (record {
            counter = omega (arith, cc, length-append w.out (w.buf ∷ []));
            size = size;
            stream = new;
          }))
      | inr refused ↦ rw refused (writer_failed w before after e old)
    ]

    pub write_turn_lem :
        (t : Tick Packet) (f : Fetch Packet) (ps : List Packet) (w : Writer)
        → AllFit (fetched f)
        → IsWriting ps w
        → WriterResult (ps ++ fetched f) (write_turn q pid rate_bps oti t f w)
    unfolding write_turn emit advance
    write_turn_lem t (packet p) ps w fits v =
        let (bytes, e, size, parsed) =
          parse_packet-build_data_packet q pid w.cc pid oti p w.buf fits.0 v.size in
        let counter : w.cc % 16 ≡ length w.out % 16 = omega (arith, v.counter) in
        let frame : ℕ → ParsedFrame Oti PayloadId = λ n.
          data_frame n (deserialize_oti (serialize_oti oti))
            (deserialize_id (serialize_id (payload_id p))) (symbol p) in
        subst
          (λ b. WriterResult (ps ++ (p ∷ [])) (
            emit q pid rate_bps oti t
              (record w { cc = (advance w.cc).1; packets_sent = u64 (w.packets_sent + 1) }) b))
          (sym e)
          (write_out_lem t _ ps (p ∷ []) (ps ++ (p ∷ [])) refl v.stream
            (omega (arith, (advance-value w.cc).1, v.counter)) size
            (stream_data ps w.out p bytes size
              (parsed ∙ on_own_pid (frame (w.cc % 16)) ∙ ap (λ n. ok (frame n)) counter) v.stream))
    write_turn_lem t empty ps w fits v =
        let (bytes, e, size, parsed) = parse_packet-build_noop_packet q pid w.cc pid w.buf v.size in
        let counter : w.cc % 16 ≡ length w.out % 16 = omega (arith, v.counter) in
        subst
          (λ b. WriterResult (ps ++ []) (
            emit q pid rate_bps oti t
              (record w { cc = (advance w.cc).1; noops_sent = u64 (w.noops_sent + 1) }) b))
          (sym e)
          (write_out_lem t _ ps [] (ps ++ []) refl v.stream
            (omega (arith, (advance-value w.cc).1, v.counter)) size
            (subst (λ x. IsStream x (w.out ++ (bytes ∷ []))) (sym (append-nil ps))
              (stream_noop ps w.out bytes size
                (parsed ∙ on_own_pid (noop_frame (w.cc % 16)) ∙ ap (λ n. ok (noop_frame n)) counter)
                v.stream)))
    write_turn_lem t disconnected ps w fits v = writer_drained w ps [] refl v.stream

    later :
        (ps more : List Packet) (p : Phase)
        → (before after : List Packet) → before ++ after ≡ ps
        → before ++ (after ++ more) ≡ ps ++ more
    later ps more p before after e = sym (append_assoc before after more) ∙ ap (λ x. x ++ more) e

    pub AllFit-append-left : (xs ys : List Packet) → AllFit (xs ++ ys) → AllFit xs × AllFit ys
    AllFit-append-left [] ys h = (tt, h)
    AllFit-append-left (x ∷ xs) ys h = let (l, r) = AllFit-append-left xs ys h.1 in ((h.0, l), r)

    writer_thread_keeps :
        (ts : List (Tick Packet)) (ps : List Packet) (p : Phase)
        → AllFit (taken ts)
        → WriterResult ps p
        → WriterResult (ps ++ taken ts) (writer_thread q pid rate_bps oti ts p)
    unfolding writer_thread
    writer_thread_keeps [] ps p fits r = subst (λ x. WriterResult x p) (sym (append-nil ps)) r
    writer_thread_keeps (t ∷ ts) ps p fits (writer_runs w v) =
        let (now, rest) = AllFit-append-left (fetched t.fetch) (taken ts) fits in
        subst
          (λ x.
            WriterResult x
              (writer_thread q pid rate_bps oti ts (write_turn q pid rate_bps oti t t.fetch w)))
          (append_assoc ps (fetched t.fetch) (taken ts))
          (writer_thread_keeps ts (ps ++ fetched t.fetch) _ rest
            (write_turn_lem t t.fetch ps w now v))
    writer_thread_keeps (t ∷ ts) ps p fits (writer_drained w before after e s) =
        writer_drained w before (after ++ taken (t ∷ ts)) (later ps _ p before after e) s
    writer_thread_keeps (t ∷ ts) ps p fits (writer_failed w before after e s) =
        writer_failed w before (after ++ taken (t ∷ ts)) (later ps _ p before after e) s

    -- The writer begins in its loop.
    pub start_phase-IsWriting :
        0 < rate_bps → (w : Writer) × (start_phase rate_bps ≡ running w) × IsWriting [] w
    unfolding start_phase start_writer
    start_phase-IsWriting paced =
        let positive : (rate_bps == 0) ≡ false = ground arith in
        (
          start_writer,
          rw positive refl,
          record { counter = refl; size = length-replicate {A = ℕ} 188 0; stream = stream_start },
        )

    -- For a PID of 13 bits, a positive rate, and packets whose parts have the sizes that the
    -- crate promises, the writer never panics. What it has written are packets of 188 bytes which
    -- the decoder's parser reads as the packets taken from the channel, in their order, with
    -- stuffing in between, and the continuity counter counts all of them modulo 16. While the
    -- thread runs these are all the packets taken; otherwise they are the first of them.
    pub writer_thread-WriterResult :
        (ts : List (Tick Packet))
        → 0 < rate_bps
        → AllFit (taken ts)
        → WriterResult (taken ts) (writer_thread q pid rate_bps oti ts (start_phase rate_bps))
    writer_thread-WriterResult ts paced fits =
        let (w, started, v) = start_phase-IsWriting paced in
        writer_thread_keeps ts [] (start_phase rate_bps) fits
          (subst (WriterResult []) (sym started) (writer_runs w v))
