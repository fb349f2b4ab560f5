-- ===== src/Enc/Process/Flow.antt =====
-- What flows between the threads of raptorq/enc/src/main.rs, and a turn of its reader.
use mathlib.Core.Bool.{false≢true}
use mathlib.Core.List.{append_assoc}
use live_video.Prelude.{
  ℕ, ◌≤◌, ◌≡◌, refl, sym, ◌∙◌, ap, subst, true, List, [], ◌++◌, length, drop, drop-append,
}
use live_video.RaptorQ.{RaptorQ}
use live_video.Dec.Reader.{Read}
use live_video.Enc.Reader as Reading
use live_video.Enc.Reader.{BlockReader, Progress, start_reader, read_turn}
use live_video.Enc.Reader.Blocks.{
  ReadingResult, still_reading, has_cut, read_failed, read_turn-ReadingResult,
}
use live_video.Enc.Encoder as Coding
use live_video.Enc.Encoder.{
  EncoderArgs, EncoderState, Status, Slot, Incoming, disconnected, start_encoder, slot, plain_slot,
  adaptive_slot,
}
use live_video.Enc.Encoder.Trace.{IsTrace}
use live_video.Enc.Encoder.Valid.{IsValid}
use live_video.Enc.Writer as Writing
use live_video.Enc.Writer.{Writer, Phase, Tick, Fetch, start_phase, write_turn}
use live_video.Enc.Writer.Stream.{IsStream, AllFit, IsWriting}
use live_video.Enc.Process.{
  Settings, block_bound, packet_bound, blocks_sent, reader_ended, packets_sent, encoder_ended,
  writer_ended, Pipeline, read_step,
}
use live_video.Enc.Process.Grows.{
  IsGrown, ReaderGrows, reader_grows, reader_panics, read_turn-ReaderGrows,
}

-- What has been passed on and what is on the way make up what was sent, when the sender goes on.
pub drop_grown : {A : Type 0} (xs ys : List A) → IsGrown xs ys → xs ++ drop (length xs) ys ≡ ys
drop_grown xs ys g =
    ap (λ z. xs ++ drop (length xs) z) g.grown
    ∙ ap (λ z. xs ++ z) (drop-append (length xs) xs g.new refl)
    ∙ sym g.grown

module _ (q : RaptorQ) (c : Settings q.Oti) where
  open q use {Packet, BlockEncoder}

  -- The encoder, after the blocks `bs`.
  pub data EncoderAt (bs : List (List ℕ)) : Status (EncoderState BlockEncoder Packet) → Type 0 where
    at_coding :
        (s : EncoderState BlockEncoder Packet) (ids : List ℕ)
        → IsValid q c.coding bs ids s
        → EncoderAt bs (Coding.running s)
    at_return :
        (s : EncoderState BlockEncoder Packet) (ids : List ℕ)
        → IsTrace q c.coding bs ids s.out
        → EncoderAt bs (Coding.returned s)

  -- The writer, after the packets `ps`.
  pub data WriterAt (ps : List Packet) : Phase → Type 0 where
    at_writing :
        (w : Writer) → IsWriting q c.pid c.rate c.coding.oti ps w → WriterAt ps (Writing.running w)
    at_drained :
        (w : Writer)
        → IsStream q c.pid c.rate c.coding.oti ps w.out
        → WriterAt ps (Writing.drained w)

  -- The blocks that the encoder has taken and those in the channel are what the reader has sent;
  -- the packets that the writer has taken, those in the channel and those still to be sent are
  -- what the encoder has made; both channels keep their bounds; each thread stands where its input
  -- leads it; and a thread has ended only when those before it have, with nothing left between.
  pub record IsFlowing (input : List ℕ) (s : Pipeline BlockEncoder Packet) : Type 0 where
    pub reading : ReadingResult c.block_size input s.reader
    pub passed : s.coded ++ s.blocks ≡ blocks_sent s.reader
    pub coding : EncoderAt s.coded s.encoder
    pub handed : s.taken ++ (s.packets ++ s.pending) ≡ packets_sent s.encoder
    pub writing : AllFit q c.pid c.rate c.coding.oti s.taken → WriterAt s.taken s.writer
    pub few_blocks : length s.blocks ≤ block_bound c
    pub few_packets : length s.packets ≤ packet_bound c
    pub coded_all :
        encoder_ended s.encoder ≡ true
        → (s.blocks ≡ []) × (s.pending ≡ []) × (reader_ended s.reader ≡ true)
    pub written_all :
        writer_ended s.writer ≡ true → (s.packets ≡ []) × (encoder_ended s.encoder ≡ true)

  module _ (input : List ℕ) where
    pub read_step-IsFlowing :
        (s : Pipeline BlockEncoder Packet) (e : Read) (r : BlockReader)
        → s.reader ≡ Reading.running r
        → length (read_step q c e r s).blocks ≤ block_bound c
        → IsFlowing input s
        → IsFlowing input (read_step q c e r s)
    unfolding read_step blocks_sent reader_ended
    read_step-IsFlowing s e r at room w = record {
      reading = standing;
      passed = on (read_turn-ReaderGrows c.block_size e r) standing;
      coding = w.coding;
      handed = w.handed;
      writing = w.writing;
      few_blocks = room;
      few_packets = w.few_packets;
      coded_all = λ done.
          let (blocks_gone, pending_gone, gone) = w.coded_all done in
          absurd (false≢true (sym (ap reader_ended at) ∙ gone));
      written_all = w.written_all;
    }
      where
        from :
            (p : Progress)
            → p ≡ Reading.running r
            → ReadingResult c.block_size input p
            → ReadingResult c.block_size input (read_turn (λ n. true) c.block_size e r)
        from p same (still_reading r' v) =
            let there : r' ≡ r = cc in
            subst (λ x. ReadingResult c.block_size input (read_turn (λ n. true) c.block_size e x))
              there (read_turn-ReadingResult c.block_size input e r' v)
        from p same (has_cut r' v) = cc
        from p same (read_failed r' v) = cc

        standing : ReadingResult c.block_size input (read_turn (λ n. true) c.block_size e r)
        standing = from s.reader at w.reading

        no_panic : (p : Progress) → ReadingResult c.block_size input p → p ≡ Reading.panicked → ⊥
        no_panic p (still_reading r' v) e = cc
        no_panic p (has_cut r' v) e = cc
        no_panic p (read_failed r' v) e = cc

        on :
            ReaderGrows r.sent (read_turn (λ n. true) c.block_size e r)
            → ReadingResult c.block_size input (read_turn (λ n. true) c.block_size e r)
            → s.coded
                ++ (s.blocks
                    ++ drop (length r.sent) (blocks_sent (read_turn (λ n. true) c.block_size e r)))
              ≡ blocks_sent (read_turn (λ n. true) c.block_size e r)
        on (reader_panics gone) v = absurd (no_panic _ v gone)
        on (reader_grows g) v =
            sym (append_assoc s.coded s.blocks _)
            ∙ ap
                (λ x.
                  x ++ drop (length r.sent) (blocks_sent (read_turn (λ n. true) c.block_size e r)))
                (w.passed ∙ ap blocks_sent at)
            ∙ drop_grown r.sent (blocks_sent (read_turn (λ n. true) c.block_size e r)) g
