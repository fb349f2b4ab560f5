-- ===== src/Enc/Process/Slots.antt =====
-- A turn of the encoder in the flow of raptorq/enc/src/main.rs.
use mathlib.Core.Bool.{false≢true}
use mathlib.Core.List.{append_assoc, append-nil}
use live_video.Prelude.{
  ℕ, ◌^◌, ◌<◌, ◌≡◌, refl, sym, ◌∙◌, ap, subst, true, not, ◌||◌, leb, List, [], ◌++◌, length,
  length-append, drop, drop-append, Bool-cases, inl, inr, arith,
}
use live_video.RaptorQ.{RaptorQ}
use live_video.Enc.Encoder as Coding
use live_video.Enc.Encoder.{
  EncoderArgs, EncoderState, Status, Slot, Incoming, disconnected, start_encoder, slot, plain_slot,
  adaptive_slot,
}
use live_video.Enc.Encoder.Valid.{IsValid}
use live_video.Enc.Encoder.Turns.{EncoderResult, encoder_runs, encoder_ends}
use live_video.Enc.Encoder.Run.{block_of, slot_lem}
use live_video.Enc.Process.{
  Settings, reader_ended, packets_sent, encoder_ended, Pipeline, slot_step,
}
use live_video.Enc.Process.Grows.{EncoderGrows, encoder_grows, encoder_panics, slot-EncoderGrows}
use live_video.Enc.Process.Flow.{EncoderAt, at_coding, at_return, IsFlowing, drop_grown}

running-injective :
    {E P : Type 0} (s s' : EncoderState E P) → Coding.running s ≡ Coding.running s' → s ≡ s'
running-injective s s' e = cc

module _ (q : RaptorQ) (c : Settings q.Oti) where
  open q use {Packet, BlockEncoder}

  -- At the end of its channel the encoder returns.
  slot-disconnected :
      (t : Slot) (e : EncoderState BlockEncoder Packet)
      → t.incoming ≡ disconnected
      → slot q (λ n. true) c.coding t e ≡ Coding.returned e
  unfolding slot plain_slot adaptive_slot
  slot-disconnected t e gone =
      elim (Bool-cases
        (not c.coding.adaptive || leb c.coding.max_repair c.coding.baseline_repair)) [
          | inl plain ↦ rw (plain, gone) refl
          | inr idle ↦ rw (idle, gone) refl
        ]

  -- A turn of the encoder.
  pub slot_step-IsFlowing :
      (input : List ℕ) (s : Pipeline BlockEncoder Packet) (t : Slot)
      (e : EncoderState BlockEncoder Packet) (bs rest : List (List ℕ))
      → s.encoder ≡ Coding.running e
      → s.pending ≡ []
      → bs ++ rest ≡ s.blocks
      → EncoderAt q c (s.coded ++ bs) (slot q (λ n. true) c.coding t e)
      → (encoder_ended (slot q (λ n. true) c.coding t e) ≡ true
          → (rest ≡ [])
            × (drop (length e.out) (packets_sent (slot q (λ n. true) c.coding t e)) ≡ [])
            × (reader_ended s.reader ≡ true))
      → IsFlowing q c input s
      → IsFlowing q c input (slot_step q c t e bs rest s)
  unfolding slot_step packets_sent encoder_ended
  slot_step-IsFlowing input s t e bs rest at none_left front there last w = record {
    reading = w.reading;
    passed = append_assoc s.coded bs rest ∙ ap (λ x. s.coded ++ x) front ∙ w.passed;
    coding = there;
    handed = on (slot-EncoderGrows q c.coding t e) there;
    writing = w.writing;
    few_blocks = omega (arith, w.few_blocks, ap length front, length-append bs rest);
    few_packets = w.few_packets;
    coded_all = last;
    written_all = λ done.
        let (packets_gone, gone) = w.written_all done in
        absurd (false≢true (sym (ap encoder_ended at) ∙ gone));
  }
    where
      no_panic :
          (x : Status (EncoderState BlockEncoder Packet))
          → EncoderAt q c (s.coded ++ bs) x
          → x ≡ Coding.panicked
          → ⊥
      no_panic x (at_coding s' ids v) e = cc
      no_panic x (at_return s' ids v) e = cc

      before : s.taken ++ s.packets ≡ e.out
      before =
          ap (λ x. s.taken ++ x)
            (sym (append-nil s.packets) ∙ ap (λ x. s.packets ++ x) (sym none_left))
          ∙ w.handed
          ∙ ap packets_sent at

      on :
          EncoderGrows q c.coding e.out (slot q (λ n. true) c.coding t e)
          → EncoderAt q c (s.coded ++ bs) (slot q (λ n. true) c.coding t e)
          → s.taken
              ++ (s.packets ++ drop (length e.out) (packets_sent (slot q (λ n. true) c.coding t e)))
            ≡ packets_sent (slot q (λ n. true) c.coding t e)
      on (encoder_panics gone) v = absurd (no_panic _ v gone)
      on (encoder_grows g) v =
          sym (append_assoc s.taken s.packets _)
          ∙ ap (λ x. x ++ drop (length e.out) (packets_sent (slot q (λ n. true) c.coding t e)))
              before
          ∙ drop_grown e.out (packets_sent (slot q (λ n. true) c.coding t e)) g

  pub EncoderAt-IsValid :
      (bs : List (List ℕ)) (x : Status (EncoderState BlockEncoder Packet))
      (e : EncoderState BlockEncoder Packet)
      → x ≡ Coding.running e
      → EncoderAt q c bs x
      → (ids : List ℕ) × IsValid q c.coding bs ids e
  EncoderAt-IsValid bs x e at (at_coding s ids v) =
      (ids, subst (IsValid q c.coding bs ids) (running-injective s e at) v)
  EncoderAt-IsValid bs x e at (at_return s ids v) = cc

  -- A turn of the encoder that goes on.
  pub goes_on :
      (bs : List (List ℕ)) (t : Slot) (e e' : EncoderState BlockEncoder Packet)
      → c.coding.max_repair < 2 ^ 32
      → (ids : List ℕ) × IsValid q c.coding bs ids e
      → slot q (λ n. true) c.coding t e ≡ Coding.running e'
      → EncoderAt q c (bs ++ block_of t.incoming) (slot q (λ n. true) c.coding t e)
  goes_on bs t e e' small (ids, v) on =
      go (slot q (λ n. true) c.coding t e) on (slot_lem q (λ n. true) c.coding bs ids t e small v)
    where
      go :
          (x : Status (EncoderState BlockEncoder Packet))
          → x ≡ Coding.running e'
          → EncoderResult q c.coding (bs ++ block_of t.incoming) x
          → EncoderAt q c (bs ++ block_of t.incoming) x
      go x same (encoder_runs s ids' v') = at_coding s ids' v'
      go x same (encoder_ends s bs' later ids' sent part split tr p out) = cc

  pub returns :
      (bs : List (List ℕ)) (t : Slot) (e : EncoderState BlockEncoder Packet)
      → t.incoming ≡ disconnected
      → (ids : List ℕ) × IsValid q c.coding bs ids e
      → EncoderAt q c (bs ++ []) (slot q (λ n. true) c.coding t e)
  returns bs t e gone (ids, v) =
      subst (EncoderAt q c (bs ++ [])) (sym (slot-disconnected t e gone)) (
        subst (λ x. EncoderAt q c x (Coding.returned e)) (sym (append-nil bs))
          (at_return e ids v.trace))

  -- A turn that goes on does not end the encoder.
  pub not_ended :
      {A : Type 0} (x : Status (EncoderState BlockEncoder Packet))
      (e' : EncoderState BlockEncoder Packet)
      → x ≡ Coding.running e'
      → encoder_ended x ≡ true
      → A
  unfolding encoder_ended
  not_ended x e' on done = absurd (false≢true (sym (ap encoder_ended on) ∙ done))

  pub nothing_new :
      (t : Slot) (e : EncoderState BlockEncoder Packet)
      → t.incoming ≡ disconnected
      → drop (length e.out) (packets_sent (slot q (λ n. true) c.coding t e)) ≡ []
  unfolding packets_sent
  nothing_new t e gone =
      ap (λ x. drop (length e.out) (packets_sent x)) (slot-disconnected t e gone)
      ∙ ap (drop (length e.out)) (sym (append-nil e.out))
      ∙ drop-append (length e.out) e.out [] refl
