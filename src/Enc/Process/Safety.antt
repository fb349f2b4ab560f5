-- ===== src/Enc/Process/Safety.antt =====
-- What holds in every interleaving of the three threads of raptorq/enc/src/main.rs.
use mathlib.Core.Bool.{false≢true}
use mathlib.Core.List.{append_assoc}
use live_video.Prelude.{
  ℕ, ◌^◌, ◌<◌, ◌≢◌, refl, sym, ◌∙◌, ap, subst, true, List, [], ◌∷◌, ◌++◌, length-append, arith,
}
use live_video.RaptorQ.{RaptorQ}
use live_video.Enc.Reader.{start_reader}
use live_video.Enc.Reader.Blocks.{still_reading, start_reader-IsReading}
use live_video.Enc.Encoder.{start_encoder, slot}
use live_video.Enc.Encoder.Run.{block_of, start_encoder-IsValid}
use live_video.Enc.Writer.{write_turn}
use live_video.Enc.Writer.Stream.{AllFit, fetched, start_phase-IsWriting}
use live_video.Enc.Process.{
  Settings, packet_bound, blocks_sent, packets_sent, encoder_ended, writer_ended, Pipeline,
  start_pipeline, Step, reads, encodes, idles, hangs_up, hands_over, writes, stuffs, drains, Reach,
  here, next,
}
use live_video.Enc.Process.Flow.{
  EncoderAt, at_coding, WriterAt, at_writing, IsFlowing, read_step-IsFlowing,
}
use live_video.Enc.Process.Slots.{
  slot_step-IsFlowing, EncoderAt-IsValid, goes_on, returns, not_ended, nothing_new,
}
use live_video.Enc.Process.Writes.{write_step-IsFlowing, still_writing, writes_on, drains_off}

cons≢nil : {A : Type 0} (x : A) (xs : List A) → x ∷ xs ≢ []
cons≢nil x xs e = cc

module _ (q : RaptorQ) (c : Settings q.Oti) where
  open q use {Packet, BlockEncoder}

  module _ (input : List ℕ) where
    module _ (ceiling : c.coding.max_repair < 2 ^ 32) (small : c.pid < 8192) where
      Step-IsFlowing :
          (s u : Pipeline BlockEncoder Packet)
          → Step q c s u
          → IsFlowing q c input s
          → IsFlowing q c input u
      unfolding packet_bound
      Step-IsFlowing s u (reads e r at room) v = read_step-IsFlowing q c input s e r at room v
      Step-IsFlowing s u (encodes t e e' b rest at none_left front got on) v =
          slot_step-IsFlowing q c input s t e (b ∷ []) rest at none_left (sym front)
            (subst (λ i. EncoderAt q c (s.coded ++ block_of i) (slot q (λ n. true) c.coding t e))
              got
              (goes_on q c s.coded t e e' ceiling
                (EncoderAt-IsValid q c s.coded s.encoder e at v.coding) on))
            (not_ended q c _ e' on) v
      Step-IsFlowing s u (idles t e e' at none_left empty_channel there got on) v =
          slot_step-IsFlowing q c input s t e [] [] at none_left (sym empty_channel)
            (subst (λ i. EncoderAt q c (s.coded ++ block_of i) (slot q (λ n. true) c.coding t e))
              got
              (goes_on q c s.coded t e e' ceiling
                (EncoderAt-IsValid q c s.coded s.encoder e at v.coding) on))
            (not_ended q c _ e' on) v
      Step-IsFlowing s u (hangs_up t e at none_left empty_channel gone got) v =
          slot_step-IsFlowing q c input s t e [] [] at none_left (sym empty_channel)
            (returns q c s.coded t e got (EncoderAt-IsValid q c s.coded s.encoder e at v.coding))
            (λ done. (refl, nothing_new q c t e got, gone)) v
      Step-IsFlowing s u (hands_over p rest front room) v = record {
        reading = v.reading;
        passed = v.passed;
        coding = v.coding;
        handed =
            ap (λ x. s.taken ++ x)
              (append_assoc s.packets (p ∷ []) rest ∙ ap (λ x. s.packets ++ x) (sym front))
            ∙ v.handed;
        writing = v.writing;
        few_blocks = v.few_blocks;
        few_packets = omega (arith, room, length-append s.packets (p ∷ []));
        coded_all = λ done.
            let (blocks_gone, pending_gone, gone) = v.coded_all done in
            absurd (cons≢nil p rest (sym front ∙ pending_gone));
        written_all = λ done.
            let (packets_gone, ended) = v.written_all done in
            let (blocks_gone, pending_gone, gone) = v.coded_all ended in
            absurd (cons≢nil p rest (sym front ∙ pending_gone));
      }
      Step-IsFlowing s u (writes t w w' p rest at front got on) v =
          write_step-IsFlowing q c input s t w (p ∷ []) rest (sym front)
            (λ fit.
              subst
                (λ f.
                  AllFit q c.pid c.rate c.coding.oti
                    (s.taken ++ fetched q c.pid c.rate c.coding.oti f)
                  → WriterAt q c (s.taken ++ fetched q c.pid c.rate c.coding.oti f)
                      (write_turn q c.pid c.rate c.coding.oti t t.fetch w))
                got (writes_on q c input s t w w' small v at on) fit)
            (still_writing q c _ w' on) v
      Step-IsFlowing s u (stuffs t w w' at empty_channel alive got on) v =
          write_step-IsFlowing q c input s t w [] [] (sym empty_channel)
            (λ fit.
              subst
                (λ f.
                  AllFit q c.pid c.rate c.coding.oti
                    (s.taken ++ fetched q c.pid c.rate c.coding.oti f)
                  → WriterAt q c (s.taken ++ fetched q c.pid c.rate c.coding.oti f)
                      (write_turn q c.pid c.rate c.coding.oti t t.fetch w))
                got (writes_on q c input s t w w' small v at on) fit)
            (still_writing q c _ w' on) v
      Step-IsFlowing s u (drains t w at empty_channel gone got) v =
          write_step-IsFlowing q c input s t w [] [] (sym empty_channel)
            (drains_off q c input s t w small v at got) (λ done. (refl, gone)) v

      start_pipeline-IsFlowing :
          0 < c.block_size → 0 < c.rate → IsFlowing q c input (start_pipeline q c input)
      unfolding start_pipeline blocks_sent packets_sent start_reader start_encoder encoder_ended
          writer_ended
      start_pipeline-IsFlowing some_size paced =
          let (w, started, v) = start_phase-IsWriting q c.pid c.rate c.coding.oti small paced in
          record {
            reading = still_reading _ (start_reader-IsReading c.block_size input some_size);
            passed = refl;
            coding = at_coding _ [] (start_encoder-IsValid q (λ n. true) c.coding);
            handed = refl;
            writing = λ fit. subst (WriterAt q c []) (sym started) (at_writing w v);
            few_blocks = omega arith;
            few_packets = omega arith;
            coded_all = λ done. absurd (false≢true done);
            written_all = λ done. absurd (false≢true (sym (ap writer_ended started) ∙ done));
          }

      Reach-keeps :
          (s u : Pipeline BlockEncoder Packet)
          → Reach q c s u
          → IsFlowing q c input s
          → IsFlowing q c input u
      Reach-keeps s u here v = v
      Reach-keeps s u (next x u' r step) v = Step-IsFlowing x u step (Reach-keeps s x r v)

      pub Reach-IsFlowing :
          (s : Pipeline BlockEncoder Packet)
          → 0 < c.block_size
          → 0 < c.rate
          → Reach q c (start_pipeline q c input) s
          → IsFlowing q c input s
      Reach-IsFlowing s some_size paced r =
          Reach-keeps (start_pipeline q c input) s r (start_pipeline-IsFlowing some_size paced)
