-- ===== src/Enc/Encoder/Turns.antt =====
-- Single turns of `encoder_thread` of raptorq/enc/src/main.rs.
use mathlib.Core.List.{append_assoc, append-nil}
use live_video.Prelude.{
  ℕ, suc, ◌+◌, ◌≤◌, ◌<◌, ◌≡◌, inl, inr, refl, sym, ◌∙◌, ap, subst, Bool, true, false, if◌then◌else◌,
  Bool-cases, List, [], ◌∷◌, ◌++◌, Option, none, some, length, get_elem?, u8, arith, length-append,
}
use live_video.RaptorQ.{RaptorQ}
use live_video.Enc.Rng.{IsRngState}
use live_video.Enc.Ring.{BlockGen}
use live_video.Enc.Encoder.{
  EncoderArgs, EncoderState, Status, running, returned, send_all, emit_block, after_block,
  block_packets, pop, send_extra,
}
use live_video.Enc.Encoder.Trace.{
  set, length-set, encoder_of, IsTrace, trace_block, trace_extra, trace_missing, IsPart, no_part,
  part_of_block,
}
use live_video.Enc.Encoder.Valid.{IsRing, IsValid}

module _ {P : Type 0} where
  pub data SendResult (out ps : List P) : Bool × List P → Type 0 where
    sends_all : SendResult out ps (true, out ++ ps)
    sends_part : (part rest : List P) → part ++ rest ≡ ps → SendResult out ps (false, out ++ part)

  pub send_all_lem :
      (accepts : ℕ → Bool) (out ps : List P) → SendResult out ps (send_all accepts out ps)
  unfolding send_all
  send_all_lem accepts out [] = subst (λ o. SendResult out [] (true, o)) (append-nil out) sends_all
  send_all_lem accepts out (p ∷ ps) = elim (Bool-cases (accepts (length out))) [
    | inr refused ↦ rw refused (
        subst (λ o. SendResult out (p ∷ ps) (false, o)) (append-nil out)
          (sends_part [] (p ∷ ps) refl))
    | inl taken ↦ rw taken (extend _ (send_all_lem accepts (out ++ (p ∷ [])) ps))
  ]
    where
      extend : (r : Bool × List P) → SendResult (out ++ (p ∷ [])) ps r → SendResult out (p ∷ ps) r
      extend r sends_all =
          subst (λ o. SendResult out (p ∷ ps) (true, o)) (sym (append_assoc out (p ∷ []) ps))
            sends_all
      extend r (sends_part part rest e) =
          subst (λ o. SendResult out (p ∷ ps) (false, o)) (sym (append_assoc out (p ∷ []) part))
            (sends_part (p ∷ part) rest (ap (◌∷◌ p) e))

module _ (q : RaptorQ) where
  open q use {Oti, Packet, BlockEncoder, new_encoder, repair_packets}

  -- Where the thread may stand after the blocks `received`: in its loop, with all of them sent;
  -- or returned, with some first ones sent and a part of the next.
  pub data EncoderResult (a : EncoderArgs Oti) (received : List (List ℕ))
      : Status (EncoderState BlockEncoder Packet) → Type 0 where
    encoder_runs :
        (s : EncoderState BlockEncoder Packet) (ids : List ℕ)
        → IsValid q a received ids s
        → EncoderResult a received (running s)
    encoder_ends :
        (s : EncoderState BlockEncoder Packet) (bs later : List (List ℕ)) (ids : List ℕ)
        (sent part : List Packet)
        → bs ++ later ≡ received
        → IsTrace q a bs ids sent
        → IsPart q a bs part
        → s.out ≡ sent ++ part
        → EncoderResult a received (returned s)

  module _ (accepts : ℕ → Bool) (a : EncoderArgs Oti) where
    -- The blocks of a turn with a block, for either loop.
    pub after_block_lem :
        (bs : List (List ℕ)) (ids : List ℕ) (b : List ℕ) (s : EncoderState BlockEncoder Packet)
        (grow : BlockEncoder → EncoderState BlockEncoder Packet → EncoderState BlockEncoder Packet)
        → IsValid q a bs ids s
        → IsValid q a (bs ++ (b ∷ [])) (ids ++ (a.baseline_repair ∷ [])) (
            grow
              (encoder_of q a (length bs) b)
              (record s { out = s.out ++ block_packets q a (encoder_of q a (length bs) b) }))
        → EncoderResult a
            (bs ++ (b ∷ []))
            (after_block q grow s (emit_block q accepts a b s.sbn s.out))
    unfolding emit_block after_block
    after_block_lem bs ids b s grow v grown =
        subst
          (λ sbn.
            EncoderResult a (bs ++ (b ∷ []))
              (after_block q grow s (emit_block q accepts a b sbn s.out)))
          (sym v.numbered)
          (go _ (send_all_lem accepts s.out (block_packets q a (encoder_of q a (length bs) b))))
      where
        go :
            (r : Bool × List Packet)
            → SendResult s.out (block_packets q a (encoder_of q a (length bs) b)) r
            → EncoderResult a (bs ++ (b ∷ [])) (
                after_block q grow s
                  (if r.0 then some (encoder_of q a (length bs) b) else none, r.1))
        go r sends_all = encoder_runs _ (ids ++ (a.baseline_repair ∷ [])) grown
        go r (sends_part part rest e) =
            encoder_ends _ bs (b ∷ []) ids s.out part refl v.trace (part_of_block b part rest e)
              refl

    -- The invariant once a block is sent, given the new ring.
    pub grown_lem :
        (bs : List (List ℕ)) (ids : List ℕ) (b : List ℕ) (s : EncoderState BlockEncoder Packet)
        (ring : List (BlockGen BlockEncoder))
        → IsValid q a bs ids s
        → length ring ≤ 64
        → IsRing q a (bs ++ (b ∷ [])) (ids ++ (a.baseline_repair ∷ [])) 0 ring
        → IsValid q a (bs ++ (b ∷ [])) (ids ++ (a.baseline_repair ∷ [])) (record s {
          ring = ring;
          sbn = u8 (s.sbn + 1);
          out = s.out ++ block_packets q a (encoder_of q a (length bs) b);
        })
    grown_lem bs ids b s ring v cap r = record {
      numbered = omega (arith, v.numbered, length-append bs (b ∷ []));
      generator = v.generator;
      capped = cap;
      counted =
          omega (
            arith,
            v.counted,
            length-append bs (b ∷ []),
            length-append ids (a.baseline_repair ∷ []),
          );
      ring = r;
      trace = trace_block bs ids s.out b v.trace;
    }

    pub finish :
        (bs : List (List ℕ)) (ids : List ℕ) (s : EncoderState BlockEncoder Packet)
        → IsValid q a bs ids s
        → EncoderResult a (bs ++ []) (returned s)
    finish bs ids s v =
        encoder_ends s bs [] ids s.out [] refl v.trace no_part (sym (append-nil s.out))

    pub go_on :
        (bs : List (List ℕ)) (ids : List ℕ) (s : EncoderState BlockEncoder Packet)
        → IsValid q a bs ids s
        → EncoderResult a (bs ++ []) (running s)
    go_on bs ids s v = encoder_runs s ids (subst (λ x. IsValid q a x ids s) (sym (append-nil bs)) v)

    -- A send after idle repair.
    pub send_extra_lem :
        (bs : List (List ℕ)) (ids : List ℕ) (e : Option Packet)
        (s : EncoderState BlockEncoder Packet) (n id : ℕ) (b : List ℕ)
        → get_elem? bs n ≡ some b
        → get_elem? ids n ≡ some id
        → length bs ≤ n + 64
        → id < a.max_repair
        → pop (repair_packets (encoder_of q a n b) id 1) ≡ e
        → s.sbn ≡ u8 (length bs)
        → IsRngState s.rng
        → length s.ring ≤ 64
        → length ids ≡ length bs
        → IsRing q a bs (set ids n (suc id)) 0 s.ring
        → IsTrace q a bs ids s.out
        → EncoderResult a (bs ++ []) (send_extra q accepts e s)
    unfolding send_extra
    send_extra_lem bs ids e s n id b there next recent less minted sbn g cap count ring tr =
        go e minted
      where
        now_valid :
            (out : List Packet)
            → IsTrace q a bs (set ids n (suc id)) out
            → IsValid q a bs (set ids n (suc id)) (record s { out = out })
        now_valid out sent = record {
          numbered = sbn;
          generator = g;
          capped = cap;
          counted = length-set ids n (suc id) ∙ count;
          ring = ring;
          trace = sent;
        }

        go :
            (e : Option Packet)
            → pop (repair_packets (encoder_of q a n b) id 1) ≡ e
            → EncoderResult a (bs ++ []) (send_extra q accepts e s)
        go none minted =
            go_on bs (set ids n (suc id)) s
              (now_valid s.out (trace_missing bs ids s.out n id b there next less minted tr))
        go (some p) minted = elim (Bool-cases (accepts (length s.out))) [
          | inl taken ↦ rw taken (
              go_on bs (set ids n (suc id)) _
                (now_valid _ (trace_extra bs ids s.out n id b p there next recent less minted tr)))
          | inr refused ↦
              rw refused
                (encoder_ends s bs [] ids s.out [] refl tr no_part (sym (append-nil s.out)))
        ]
