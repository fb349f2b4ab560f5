-- ===== src/Enc/Process/Writes.antt =====
-- A turn of the writer in the flow of raptorq/enc/src/main.rs.
use mathlib.Core.Bool.{false≢true}
use mathlib.Core.List.{append_assoc, append-nil}
use live_video.Prelude.{
  ℕ, ◌<◌, ◌≡◌, sym, ◌∙◌, ap, subst, true, List, [], ◌++◌, length, length-append, arith,
}
use live_video.RaptorQ.{RaptorQ}
use live_video.Enc.Writer as Writing
use live_video.Enc.Writer.{Writer, Phase, Tick, Fetch, start_phase, write_turn}
use live_video.Enc.Writer.Stream.{
  AllFit, fetched, IsWriting, WriterResult, writer_runs, writer_drained, writer_failed,
  write_turn_lem, AllFit-append-left,
}
use live_video.Enc.Process.{Settings, encoder_ended, writer_ended, Pipeline, write_step}
use live_video.Enc.Process.Flow.{WriterAt, at_writing, at_drained, IsFlowing}

module _ (q : RaptorQ) (c : Settings q.Oti) where
  open q use {Packet, BlockEncoder}

  -- A turn of the writer.
  pub write_step-IsFlowing :
      (input : List ℕ) (s : Pipeline BlockEncoder Packet) (t : Tick Packet) (w : Writer)
      (ps rest : List Packet)
      → ps ++ rest ≡ s.packets
      → (AllFit q c.pid c.rate c.coding.oti (s.taken ++ ps)
          → WriterAt q c (s.taken ++ ps) (write_turn q c.pid c.rate c.coding.oti t t.fetch w))
      → (writer_ended (write_turn q c.pid c.rate c.coding.oti t t.fetch w) ≡ true
          → (rest ≡ []) × (encoder_ended s.encoder ≡ true))
      → IsFlowing q c input s
      → IsFlowing q c input (write_step q c t w ps rest s)
  unfolding write_step
  write_step-IsFlowing input s t w ps rest front there last v = record {
    reading = v.reading;
    passed = v.passed;
    coding = v.coding;
    handed =
        append_assoc s.taken ps (rest ++ s.pending)
        ∙ ap (λ x. s.taken ++ x)
            (sym (append_assoc ps rest s.pending) ∙ ap (λ x. x ++ s.pending) front)
        ∙ v.handed;
    writing = there;
    few_blocks = v.few_blocks;
    few_packets = omega (arith, v.few_packets, ap length front, length-append ps rest);
    coded_all = v.coded_all;
    written_all = last;
  }

  pub still_writing :
      {A : Type 0} (x : Phase) (w' : Writer) → x ≡ Writing.running w' → writer_ended x ≡ true → A
  unfolding writer_ended
  still_writing x w' on done = absurd (false≢true (sym (ap writer_ended on) ∙ done))

  WriterAt-IsWriting :
      (ps : List Packet) (x : Phase) (w : Writer)
      → x ≡ Writing.running w
      → WriterAt q c ps x
      → IsWriting q c.pid c.rate c.coding.oti ps w
  WriterAt-IsWriting ps x w at (at_writing w' v) =
      let there : w' ≡ w = cc in subst (IsWriting q c.pid c.rate c.coding.oti ps) there v
  WriterAt-IsWriting ps x w at (at_drained w' v) = cc

  -- A turn of the writer whose write succeeds.
  pub writes_on :
      (input : List ℕ) (s : Pipeline BlockEncoder Packet) (t : Tick Packet) (w w' : Writer)
      → c.pid < 8192
      → IsFlowing q c input s
      → s.writer ≡ Writing.running w
      → write_turn q c.pid c.rate c.coding.oti t t.fetch w ≡ Writing.running w'
      → AllFit q c.pid c.rate c.coding.oti (s.taken ++ fetched q c.pid c.rate c.coding.oti t.fetch)
      → WriterAt q c
          (s.taken ++ fetched q c.pid c.rate c.coding.oti t.fetch)
          (write_turn q c.pid c.rate c.coding.oti t t.fetch w)
  writes_on input s t w w' small v at on fit =
      let (old, new) = AllFit-append-left q c.pid c.rate c.coding.oti small s.taken _ fit in
      go (write_turn q c.pid c.rate c.coding.oti t t.fetch w) on (
        write_turn_lem q c.pid c.rate c.coding.oti small t t.fetch s.taken w new
          (WriterAt-IsWriting s.taken s.writer w at (v.writing old)))
    where
      go :
          (x : Phase)
          → x ≡ Writing.running w'
          → WriterResult q c.pid c.rate c.coding.oti
              (s.taken ++ fetched q c.pid c.rate c.coding.oti t.fetch)
              x
          → WriterAt q c (s.taken ++ fetched q c.pid c.rate c.coding.oti t.fetch) x
      go x same (writer_runs w'' v') = at_writing w'' v'
      go x same (writer_drained w'' before after e st) = cc
      go x same (writer_failed w'' before after e st) = cc

  pub drains_off :
      (input : List ℕ) (s : Pipeline BlockEncoder Packet) (t : Tick Packet) (w : Writer)
      → c.pid < 8192
      → IsFlowing q c input s
      → s.writer ≡ Writing.running w
      → t.fetch ≡ Writing.disconnected
      → AllFit q c.pid c.rate c.coding.oti (s.taken ++ [])
      → WriterAt q c (s.taken ++ []) (write_turn q c.pid c.rate c.coding.oti t t.fetch w)
  unfolding write_turn
  drains_off input s t w small v at gone fit =
      let (old, new) = AllFit-append-left q c.pid c.rate c.coding.oti small s.taken _ fit in
      let now = WriterAt-IsWriting s.taken s.writer w at (v.writing old) in
      subst (λ f. WriterAt q c (s.taken ++ []) (write_turn q c.pid c.rate c.coding.oti t f w))
        (sym gone)
        (subst (λ x. WriterAt q c x (Writing.drained w)) (sym (append-nil s.taken))
          (at_drained w now.stream))
