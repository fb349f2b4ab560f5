-- ===== src/Link/Pipeline.antt =====
-- The whole encoder program, raptorq/enc/src/main.rs, from its input to the wire.
use live_video.Prelude.{ℕ, ◌^◌, ◌≤◌, ◌<◌, ◌≡◌, sym, ◌∙◌, ap, ap₂, subst, List, [], ◌∷◌, ◌++◌, arith}
use mathlib.Core.List.{append-nil}
use live_video.RaptorQ.{RaptorQ}
use live_video.Enc.Reader as Reading
use live_video.Enc.Reader.{BlockReader}
use live_video.Enc.Reader.Blocks as Blocks
use live_video.Enc.Reader.Blocks.{AllLength, ReadingResult, still_reading, has_cut, read_failed}
use live_video.Enc.Encoder.{EncoderState, Status}
use live_video.Enc.Encoder.Trace.{IsTrace}
use live_video.Enc.Writer as Writing
use live_video.Enc.Writer.{Writer, Phase}
use live_video.Enc.Writer.Stream.{IsStream, AllFit}
use live_video.Enc.Process.{
  Settings, blocks_sent, packets_sent, writer_ended, Pipeline, start_pipeline, Reach,
}
use live_video.Enc.Process.Flow.{EncoderAt, at_coding, at_return, WriterAt, at_writing, at_drained}
use live_video.Enc.Process.Safety.{Reach-IsFlowing}
use live_video.Link.Segments.{IsCodec}
use live_video.Link.Broadcast.{AllFull, IsCut, IsTrace-IsCut}

module _ (q : RaptorQ) (c : Settings q.Oti) where
  open q use {Packet, BlockEncoder, transfer_length}

  pub AllLength-AllFull :
      (bs : List (List ℕ))
      → c.block_size ≡ transfer_length c.coding.oti
      → AllLength c.block_size bs
      → AllFull q c.coding bs
  AllLength-AllFull [] same h = tt
  AllLength-AllFull (b ∷ bs) same h = (h.0 ∙ same, AllLength-AllFull bs same h.1)

  EncoderAt-IsTrace :
      (bs : List (List ℕ)) (x : Status (EncoderState BlockEncoder Packet))
      → EncoderAt q c bs x
      → (ids : List ℕ) × IsTrace q c.coding bs ids (packets_sent x)
  unfolding packets_sent
  EncoderAt-IsTrace bs x (at_coding s ids v) = (ids, v.trace)
  EncoderAt-IsTrace bs x (at_return s ids tr) = (ids, tr)

  drained-IsStream :
      (ps : List Packet) (x : Phase) (w : Writer)
      → x ≡ Writing.drained w
      → WriterAt q c ps x
      → IsStream q c.pid c.rate c.coding.oti ps w.out
  drained-IsStream ps x w at (at_writing w' v) = cc
  drained-IsStream ps x w at (at_drained w' st) =
      let there : w' ≡ w = cc in subst (λ y. IsStream q c.pid c.rate c.coding.oti ps y.out) there st

  closed-IsCut :
      (input : List ℕ) (x : Reading.Progress) (r : BlockReader)
      → x ≡ Reading.closed r
      → ReadingResult c.block_size input x
      → Blocks.IsCut c.block_size input r
  closed-IsCut input x r at (still_reading r' v) = cc
  closed-IsCut input x r at (has_cut r' v) =
      let there : r' ≡ r = cc in subst (Blocks.IsCut c.block_size input) there v
  closed-IsCut input x r at (read_failed r' v) = cc

  -- For the laws of the crate's codec, repair numbers up to 2^23, a positive block size that is
  -- the OTI's, a positive rate, a PID of 13 bits and packets of the sizes that the crate promises:
  -- in every interleaving of the three threads in which the writes succeed, once the reader has
  -- returned `Ok` and the writer has drained, the blocks that the reader sent are the input cut
  -- into blocks, the last one padded with zeros, and what is written falls into one segment for
  -- each of these blocks, in order, with all source and baseline repair packets of the block, and
  -- one behind them.
  pub Reach-drained :
      (input : List ℕ) (s : Pipeline BlockEncoder Packet) (r : BlockReader) (w : Writer)
      → IsCodec q c.coding.oti
      → c.coding.baseline_repair ≤ 2 ^ 23
      → c.coding.max_repair ≤ 2 ^ 23
      → 0 < c.block_size
      → c.block_size ≡ transfer_length c.coding.oti
      → 0 < c.rate
      → c.pid < 8192
      → AllFit q c.pid c.rate c.coding.oti s.taken
      → Reach q c (start_pipeline q c input) s
      → s.reader ≡ Reading.closed r
      → s.writer ≡ Writing.drained w
      → Blocks.IsCut c.block_size input r × IsCut q c.coding c.pid 0 r.sent w.out
  unfolding blocks_sent writer_ended
  Reach-drained input s r w codec baseline ceiling pos same paced small fit reached read drained =
      let v = Reach-IsFlowing q c input (omega arith) small s pos paced reached in
      let cut = closed-IsCut input s.reader r read v.reading in
      let (packets_gone, ended) = v.written_all (ap writer_ended drained) in
      let (blocks_gone, pending_gone, gone) = v.coded_all ended in
      let blocks : s.coded ≡ r.sent =
        sym (append-nil s.coded)
        ∙ ap (λ x. s.coded ++ x) (sym blocks_gone)
        ∙ v.passed
        ∙ ap blocks_sent read in
      let packets : s.taken ≡ packets_sent s.encoder =
        sym (append-nil s.taken)
        ∙ ap₂ (λ x y. s.taken ++ (x ++ y)) (sym packets_gone) (sym pending_gone)
        ∙ v.handed in
      let (ids, tr) = EncoderAt-IsTrace s.coded s.encoder v.coding in
      let stream = drained-IsStream s.taken s.writer w drained (v.writing fit) in
      (
        cut,
        subst (λ bs. IsCut q c.coding c.pid 0 bs w.out) blocks
            (IsTrace-IsCut q c.coding codec baseline ceiling c.pid c.rate s.coded ids
              (packets_sent s.encoder) w.out
              (subst (AllFull q c.coding) (sym blocks) (AllLength-AllFull r.sent same cut.blocks))
              tr (subst (λ ps. IsStream q c.pid c.rate c.coding.oti ps w.out) packets stream)),
      )
