-- ===== src/Link/EndToEnd.antt =====
-- From the input of raptorq/enc/src/main.rs to the output of raptorq/dec/src/main.rs.
use mathlib.Core.List.{append-nil}
use live_video.Prelude.{
  ℕ, ◌+◌, ◌^◌, ◌≤◌, ◌<◌, ◌≡◌, refl, sym, ◌∙◌, ap, subst, true, List, [], ◌∷◌, ◌++◌, concat,
  replicate, length, ok,
}
use live_video.RaptorQ.{RaptorQ}
use live_video.Enc.Reader as Reading
use live_video.Enc.Reader.{BlockReader}
use live_video.Enc.Writer as Writing
use live_video.Enc.Writer.{Writer}
use live_video.Enc.Writer.Stream.{AllFit}
use live_video.Enc.Process.{Settings, Pipeline, start_pipeline, Reach}
use live_video.Dec.Oti.{oti_is_sane}
use live_video.Dec.State.{Decoder, Options, start_decoder}
use live_video.Dec.Run.{Turn, going, run_from}
use live_video.Link.Segments.{IsCodec}
use live_video.Link.Broadcast.{IsBroadcast, broadcast_end, broadcast_block}
use live_video.Link.Delivery.{
  IsPlayed, played_end, played_nothing, played_packet, IsTimely, timely_last, timely_more,
  run_from-IsBroadcast,
}
use live_video.Link.Pipeline.{AllLength-AllFull, Reach-drained}

-- The turns of a first part of the wire packets, and the others.
record IsParted (o : Options) (base : ℕ) (xs ys : List (List ℕ)) (ts : List Turn) : Type 0 where
  first : List Turn
  rest : List Turn
  whole : first ++ rest ≡ ts
  played_first : IsPlayed o base xs first
  played_rest : IsPlayed o base ys rest

IsPlayed-IsParted :
    (o : Options) (base : ℕ) (xs ys zs : List (List ℕ)) (ts : List Turn)
    → xs ++ ys ≡ zs
    → IsPlayed o base zs ts
    → IsParted o base xs ys ts
IsPlayed-IsParted o base [] ys zs ts e h = record {
  first = [];
  rest = ts;
  whole = refl;
  played_first = played_end;
  played_rest = subst (λ z. IsPlayed o base z ts) (sym e) h;
}
IsPlayed-IsParted o base (x ∷ xs) ys zs ts e played_end = cc
IsPlayed-IsParted o base (x ∷ xs) ys zs ts e (played_nothing zs' t ts' calm got h) =
    let p = IsPlayed-IsParted o base (x ∷ xs) ys zs' ts' e h in
    record {
      first = t ∷ p.first;
      rest = p.rest;
      whole = ap (◌∷◌ t) p.whole;
      played_first = played_nothing (x ∷ xs) t p.first calm got p.played_first;
      played_rest = p.played_rest;
    }
IsPlayed-IsParted o base (x ∷ xs) ys zs ts e (played_packet zs' z t ts' calm got h) =
    let others : xs ++ ys ≡ zs' = cc in
    let same : z ≡ x = cc in
    let p = IsPlayed-IsParted o base xs ys zs' ts' others h in
    record {
      first = t ∷ p.first;
      rest = p.rest;
      whole = ap (◌∷◌ t) p.whole;
      played_first =
          subst (λ y. IsPlayed o base (y ∷ xs) (t ∷ p.first)) same
            (played_packet xs z t p.first calm got p.played_first);
      played_rest = p.played_rest;
    }

module _ (q : RaptorQ) (c : Settings q.Oti) (o : Options) where
  open q use {BlockDecoder, transfer_length}

  -- What is played within one timeout is timely however it falls into segments.
  IsPlayed-IsTimely :
      (base n : ℕ) (bs : List (List ℕ)) (segments : List (List (List ℕ))) (ts : List Turn)
      → IsBroadcast q c.coding c.pid n bs segments
      → IsPlayed o base (concat segments) ts
      → IsTimely o segments ts
  IsPlayed-IsTimely base n bs segments ts (broadcast_end n' tail segment g carried) h =
      timely_last base segment ts (subst (λ z. IsPlayed o base z ts) (append-nil segment) h)
  IsPlayed-IsTimely base n bs segments ts
        (broadcast_block n' b bs' own group segment segs g m carried more) h =
      let p = IsPlayed-IsParted o base segment (concat segs) _ ts refl h in
      subst (IsTimely o (segment ∷ segs)) p.whole (
        timely_more base segment segs p.first p.rest p.played_first
          (IsPlayed-IsTimely base (n + 1) bs' segs p.rest more p.played_rest))

  -- For the laws of the crate's codec, repair numbers up to 2^23, a positive block size that is the
  -- OTI's, an OTI that the decoder takes as sane, a positive rate, a PID of 13 bits that both
  -- programs have, packets of the sizes that the crate promises, a window of at least one block,
  -- and fewer than 2^62 blocks and window together: when the encoder's reader has read all input
  -- and its writer has drained, in whatever order the threads ran, and all that was written comes
  -- in at the decoder, without losses and within one block timeout, stdout taking what is written,
  -- then the decoder has written the encoder's input, followed by less than a block of zeros.
  pub run_from-Reach :
      (input : List ℕ) (s : Pipeline q.BlockEncoder q.Packet) (r : BlockReader) (w : Writer)
      (base now : ℕ) (ts : List Turn)
      → IsCodec q c.coding.oti
      → c.coding.baseline_repair ≤ 2 ^ 23
      → c.coding.max_repair ≤ 2 ^ 23
      → 0 < c.block_size
      → c.block_size ≡ transfer_length c.coding.oti
      → oti_is_sane q c.coding.oti ≡ true
      → 0 < c.rate
      → c.pid < 8192
      → o.pid ≡ c.pid
      → 0 < o.max_in_flight
      → length r.sent + 1 + o.max_in_flight < 2 ^ 62
      → AllFit q c.pid c.rate c.coding.oti s.taken
      → Reach q c (start_pipeline q c input) s
      → s.reader ≡ Reading.closed r
      → s.writer ≡ Writing.drained w
      → IsPlayed o base w.out ts
      → (d : Decoder BlockDecoder) × (run_from q o ts (going (start_decoder now)) ≡ ok (going d))
        × ((padding : ℕ) × (padding < c.block_size) × (concat d.out ≡ input ++ replicate padding 0))
  run_from-Reach input s r w base now ts codec baseline ceiling pos same sane paced small pid room
        few fit reached read drained played =
      let (cut, wire) =
        Reach-drained q c input s r w codec baseline ceiling pos same paced small fit reached read
          drained in
      let timely =
        IsPlayed-IsTimely base 0 r.sent wire.segments ts wire.broadcast
          (subst (λ z. IsPlayed o base z ts) (sym wire.whole) played) in
      let (d, e, out) =
        run_from-IsBroadcast q c.coding o codec baseline r.sent wire.segments ts now room sane few
          (AllLength-AllFull q c r.sent same cut.blocks)
          (subst (λ p. IsBroadcast q c.coding p 0 r.sent wire.segments) (sym pid) wire.broadcast)
          timely in
      (d, e, (cut.padding, cut.short, ap concat out ∙ cut.joined))
