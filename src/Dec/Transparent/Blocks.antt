-- ===== src/Dec/Transparent/Blocks.antt =====
-- Whole runs of `run_decoder` in raptorq/dec/src/main.rs that deliver every block.
use mathlib.Core.Option.{some-injective}
use mathlib.Core.List.{append_assoc, append-nil}
use live_video.Prelude.{
  ℕ, ◌+◌, ◌^◌, ◌≤◌, ◌<◌, ◌≡◌, refl, sym, ◌∙◌, ap, subst, true, List, [], ◌∷◌, ◌++◌, Option, none,
  some, length, arith, ok, ◌>>=◌,
}
use live_video.RaptorQ.{RaptorQ}
use live_video.Dec.Oti.{oti_is_sane}
use live_video.Dec.State.{Decoder, Options, start_decoder}
use live_video.Dec.Run.{Turn, Received, packet, nothing, going, turn, turn_on, run_from}
use live_video.Dec.Transparent.{
  first_result, IsHeard, heard_end, heard_nothing, heard_noop, heard_garbage, heard_old, heard_own,
  IsReception, reception_end, reception_block,
}
use live_video.Dec.Transparent.Stage.{view, View, IsEmpty, IsStage, untouched, partial, complete}
use live_video.Dec.Transparent.Arrivals.{Goes, on_nothing, on_noop, on_garbage}
use live_video.Dec.Transparent.Own.{on_old, on_own}

module _ (q : RaptorQ) (o : Options) (oti : q.Oti) (some_room : 0 < o.max_in_flight)
    (sane : oti_is_sane q oti ≡ true)
    (keeps : (p : q.Packet) → q.new_packet (q.payload_id p) (q.symbol p) ≡ p) where
  open q use {Packet, BlockDecoder, transfer_length, new_decoder}

  -- A run over the turns goes on in a state whose view has a property.
  record RunsTo (P : View BlockDecoder → Type 0) (ts : List Turn) (d : Decoder BlockDecoder)
      : Type 0 where
    pub next : Decoder BlockDecoder
    pub runs :
        (rest : List Turn) → run_from q o (ts ++ rest) (going d) ≡ run_from q o rest (going next)
    pub lands : P (view next)

  module _ (base n : ℕ) (want : Option (List ℕ)) (outs : List (List ℕ))
      (fits : n + 1 + o.max_in_flight < 2 ^ 62) where
    -- One turn, and the others.
    run_from-turn :
        (ps : List Packet) (t : Turn) (ts : List Turn) (d : Decoder BlockDecoder) (r : Received)
        → t.received ≡ r
        → Goes q o oti base n want outs ps (turn_on q o t d r)
        → ((d' : Decoder BlockDecoder)
            → IsStage q oti base n want outs ps (view d')
            → RunsTo (IsStage q oti base n want outs []) ts d')
        → RunsTo (IsStage q oti base n want outs []) (t ∷ ts) d
    unfolding run_from turn
    run_from-turn ps t ts d r e g later =
        let l = later g.next g.stage in
        record {
          next = l.next;
          runs = λ rest.
              ap (λ x. turn_on q o t d x >>= run_from q o (ts ++ rest)) e
              ∙ ap (λ x. x >>= run_from q o (ts ++ rest)) g.went
              ∙ l.runs rest;
          lands = l.lands;
        }

    IsHeard-IsStage :
        (ps : List Packet) (ts : List Turn) (d : Decoder BlockDecoder)
        → IsHeard q o oti base n ps ts
        → IsStage q oti base n want outs ps (view d)
        → RunsTo (IsStage q oti base n want outs []) ts d
    IsHeard-IsStage ps ts d heard_end w = record { next = d; runs = λ rest. refl; lands = w }
    IsHeard-IsStage ps ts d (heard_nothing ps' t ts' calm e h) w =
        run_from-turn ps' t ts' d nothing e
          (on_nothing q o oti base n want outs t some_room fits calm ps' d w)
          (λ d' w'. IsHeard-IsStage ps' ts' d' h w')
    IsHeard-IsStage ps ts d (heard_noop ps' t ts' bytes c calm e p h) w =
        run_from-turn ps' t ts' d (packet bytes) e
          (on_noop q o oti base n want outs t some_room fits calm ps' d bytes c p w)
          (λ d' w'. IsHeard-IsStage ps' ts' d' h w')
    IsHeard-IsStage ps ts d (heard_garbage ps' t ts' bytes x calm e p h) w =
        run_from-turn ps' t ts' d (packet bytes) e
          (on_garbage q o oti base n want outs t some_room fits calm ps' d bytes x p w)
          (λ d' w'. IsHeard-IsStage ps' ts' d' h w')
    IsHeard-IsStage ps ts d (heard_old ps' t ts' bytes c m p calm e parsed sbn old near h) w =
        run_from-turn ps' t ts' d (packet bytes) e
          (on_old q o oti base n want outs t some_room fits calm sane keeps ps' d bytes c m p parsed
            sbn old near w)
          (λ d' w'. IsHeard-IsStage ps' ts' d' h w')
    IsHeard-IsStage ps ts d (heard_own ps' t ts' bytes c p calm e parsed sbn h) w =
        run_from-turn ps' t ts' d (packet bytes) e
          (on_own q o oti base n want outs t some_room fits calm sane keeps ps' d bytes c p parsed
            sbn w)
          (λ d' w'. IsHeard-IsStage ps' ts' d' h w')

  -- When the packets were enough, the block is written once they are in.
  enough-IsEmpty :
      (base n : ℕ) (b : List ℕ) (outs : List (List ℕ)) (v : View BlockDecoder)
      → IsStage q oti base n (some b) outs [] v
      → IsEmpty (n + 1) (outs ++ (b ∷ [])) v
  unfolding first_result
  enough-IsEmpty base n b outs v (untouched w enough) = cc
  enough-IsEmpty base n b outs v (partial s w enough) = cc
  enough-IsEmpty base n b outs v (complete c same w) =
      subst (λ x. IsEmpty (n + 1) (outs ++ (x ∷ [])) v) (sym (some-injective b c same)) w

  -- All blocks up to `n` are written, and no other.
  record IsDelivered (n : ℕ) (outs : List (List ℕ)) (v : View BlockDecoder) : Type 0 where
    pub cursor : v.cursor ≡ n
    pub high : v.highest_seen ≤ n
    pub out : v.out ≡ outs

  -- When they were not enough, nothing is written.
  few-IsDelivered :
      (base n : ℕ) (outs : List (List ℕ)) (v : View BlockDecoder)
      → IsStage q oti base n none outs [] v
      → IsDelivered n outs v
  few-IsDelivered base n outs v (untouched w few) = record {
    cursor = w.cursor;
    high = w.low;
    out = w.out;
  }
  few-IsDelivered base n outs v (partial s w few) = record {
    cursor = w.cursor;
    high = omega (arith, w.highest_seen);
    out = w.out;
  }
  few-IsDelivered base n outs v (complete c same w) = cc

  IsReception-IsDelivered :
      (n : ℕ) (bs : List (List ℕ)) (ts : List Turn) (outs : List (List ℕ))
      (d : Decoder BlockDecoder)
      → n + length bs + 1 + o.max_in_flight < 2 ^ 62
      → IsReception q o oti n bs ts
      → IsEmpty n outs (view d)
      → RunsTo (IsDelivered (n + length bs) (outs ++ bs)) ts d
  IsReception-IsDelivered n bs ts outs d fits (reception_end n' base ps ts' h few) w =
      let l = IsHeard-IsStage base n none outs (omega arith) ps ts d h (untouched w few) in
      let v = few-IsDelivered base n outs (view l.next) l.lands in
      record {
        next = l.next;
        runs = l.runs;
        lands = record {
          cursor = omega (arith, v);
          high = omega (arith, v);
          out = v.out ∙ sym (append-nil outs);
        };
      }
  IsReception-IsDelivered n bs ts outs d fits
        (reception_block n' base b bs' ps ts' rest h enough more) w =
      let first =
        IsHeard-IsStage base n (some b) outs (omega arith) ps ts' d h (untouched w enough) in
      let later =
        IsReception-IsDelivered (n + 1) bs' rest (outs ++ (b ∷ [])) first.next (omega arith) more
          (enough-IsEmpty base n b outs (view first.next) first.lands) in
      let v = later.lands in
      record {
        next = later.next;
        runs = λ tail.
            ap (λ x. run_from q o x (going d)) (append_assoc ts' rest tail)
            ∙ first.runs (rest ++ tail)
            ∙ later.runs tail;
        lands = record {
          cursor = omega (arith, v);
          high = omega (arith, v);
          out = v.out ∙ append_assoc outs (b ∷ []) bs';
        };
      }

  -- For a crate whose packets are made of their payload id and symbol, a sane OTI, a window of at
  -- least one block, and fewer than 2^62 blocks and window together: when the blocks are received
  -- one after the other, enough of the packets of each for the crate's decoder to return it, with
  -- each block's turns closer together than the timeout and stdout taking what is written, then the
  -- loop goes on and has written exactly these blocks, in order. Turns without a packet, stuffing,
  -- packets that cannot be parsed and packets of up to 127 blocks before may come at any place, and
  -- some packets of a next block at the end.
  pub run_from-IsReception :
      (bs : List (List ℕ)) (ts : List Turn) (now : ℕ)
      → length bs + 1 + o.max_in_flight < 2 ^ 62
      → IsReception q o oti 0 bs ts
      → (d : Decoder BlockDecoder) × (run_from q o ts (going (start_decoder now)) ≡ ok (going d))
        × (d.out ≡ bs)
        × (d.cursor ≡ length bs)
        × (d.highest_seen ≤ length bs)
  unfolding start_decoder run_from
  run_from-IsReception bs ts now fits r =
      let l = IsReception-IsDelivered 0 bs ts [] (start_decoder now) (omega arith) r (record {
        pool = refl;
        cursor = refl;
        low = omega arith;
        high = omega arith;
        first = λ fresh. refl;
        out = refl;
      }) in
      (
        l.next,
        ap (λ x. run_from q o x (going (start_decoder now))) (sym (append-nil ts)) ∙ l.runs [],
        l.lands.out,
        omega (arith, l.lands.cursor),
        omega (arith, l.lands.high),
      )
