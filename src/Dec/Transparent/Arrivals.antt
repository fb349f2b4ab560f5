-- ===== src/Dec/Transparent/Arrivals.antt =====
-- One turn of `run_decoder` in raptorq/dec/src/main.rs, for each thing that may come in.
use live_video.Prelude.{
  ℕ, ◌+◌, ◌^◌, ◌≤◌, ◌<◌, ◌≡◌, refl, sym, ◌∙◌, ap, subst, true, List, [], ◌∷◌, ◌++◌, Option, none,
  some, u8, ltb, arith, Outcome, ok, err,
}
use live_video.Maps.{get, insert}
use live_video.RaptorQ.{RaptorQ}
use live_video.Wire.Header.{ParseError}
use live_video.Wire.Frame.Parse.{noop_frame, parse_packet}
use live_video.Dec.Sbn.{unwrap_sbn, unwrap_sbn-mod}
use live_video.Dec.Block.{BlockState, record_symbol, ingest}
use live_video.Dec.State.{
  Decoder, Options, count_gap, count_noop, count_unparseable, count_redundant,
}
use live_video.Dec.Receive.{admit, on_sane, on_frame, on_bytes}
use live_video.Dec.Receive.Ready.{locate_begun}
use live_video.Dec.Emit.{Fault}
use live_video.Dec.Run.{Turn, Next, going, packet, nothing, settle, after_receive, turn_on}
use live_video.Dec.Transparent.{IsCalm, result_or, first_result}
use live_video.Dec.Transparent.Stage.{view, IsStage, untouched, partial, complete}
use live_video.Dec.Transparent.Settle.{settle_empty, settle_open, settle_complete}

module _ {D : Type 0} where
  pub insert_only : (n : ℕ) (b : BlockState D) → insert n b [] ≡ (n, b) ∷ []
  unfolding insert
  insert_only n b = refl

  pub insert-replace : (n : ℕ) (b c : BlockState D) → insert n b ((n, c) ∷ []) ≡ (n, b) ∷ []
  unfolding insert
  insert-replace n b c = ground arith

  pub get_nil : (n : ℕ) → get {V = BlockState D} n [] ≡ none
  unfolding get
  get_nil n = refl

  pub get_same : (n : ℕ) (b : BlockState D) → get n ((n, b) ∷ []) ≡ some b
  unfolding get
  get_same n b = ground arith

module _ (q : RaptorQ) where
  open q use {
    Oti, Packet, PayloadId, BlockDecoder, transfer_length, payload_id, symbol, source_block_number,
    new_packet, new_decoder, decode,
  }

  -- What a packet does to a block that is not complete.
  pub ingest-decode :
      (s : BlockState BlockDecoder) (p : Packet)
      → s.completed ≡ none
      → ((ingest q s p).decoder ≡ (decode s.decoder p).0)
        × ((ingest q s p).completed ≡ (decode s.decoder p).1)
        × ((ingest q s p).first_seen ≡ s.first_seen)
  unfolding ingest record_symbol
  ingest-decode s p unfinished = ground arith

  module _ (o : Options) (oti : Oti) (base n : ℕ) (want : Option (List ℕ))
      (outs : List (List ℕ)) where
    -- The turn goes on, and leaves a stage.
    pub record Goes (ps : List Packet) (r : Outcome Fault (Next (Decoder BlockDecoder)))
        : Type 0 where
      pub next : Decoder BlockDecoder
      pub went : r ≡ ok (going next)
      pub stage : IsStage q oti base n want outs ps (view next)

    module _ (t : Turn) (some_room : 0 < o.max_in_flight) (fits : n + 1 + o.max_in_flight < 2 ^ 62)
        (calm : IsCalm o base t) where
      -- The emission loop leaves a stage as it is.
      pub settle-IsStage :
          (ps : List Packet) (d : Decoder BlockDecoder)
          → IsStage q oti base n want outs ps (view d)
          → Goes ps (settle o t d)
      settle-IsStage ps d (untouched w enough) =
          let (d', e, same) = settle_empty o t n outs d some_room (omega arith) calm.flushes w in
          record {
            next = d';
            went = e;
            stage = subst (IsStage q oti base n want outs ps) (sym same) (untouched w enough);
          }
      settle-IsStage ps d (partial s w enough) =
          let (d', e, same) = settle_open o t base n outs s d some_room (omega arith) calm w in
          record {
            next = d';
            went = e;
            stage = subst (IsStage q oti base n want outs ps) (sym same) (partial s w enough);
          }
      settle-IsStage ps d (complete b made w) =
          let (d', e, same) =
            settle_empty o t (n + 1) (outs ++ (b ∷ [])) d some_room (omega arith) calm.flushes w in
          record {
            next = d';
            went = e;
            stage = subst (IsStage q oti base n want outs ps) (sym same) (complete b made w);
          }

      pub on_nothing :
          (ps : List Packet) (d : Decoder BlockDecoder)
          → IsStage q oti base n want outs ps (view d)
          → Goes ps (turn_on q o t d nothing)
      unfolding turn_on
      on_nothing ps d w = settle-IsStage ps d w

      pub on_noop :
          (ps : List Packet) (d : Decoder BlockDecoder) (bytes : List ℕ) (c : ℕ)
          → parse_packet q bytes o.pid ≡ ok (noop_frame c)
          → IsStage q oti base n want outs ps (view d)
          → Goes ps (turn_on q o t d (packet bytes))
      unfolding turn_on on_bytes on_frame after_receive count_noop count_gap
      on_noop ps d bytes c e w = rw e (settle-IsStage ps (count_noop (count_gap d c)) w)

      pub on_garbage :
          (ps : List Packet) (d : Decoder BlockDecoder) (bytes : List ℕ) (e : ParseError)
          → parse_packet q bytes o.pid ≡ err e
          → IsStage q oti base n want outs ps (view d)
          → Goes ps (turn_on q o t d (packet bytes))
      unfolding turn_on on_bytes on_frame after_receive count_unparseable
      on_garbage ps d bytes e h w = rw h (settle-IsStage ps (count_unparseable d) w)

      -- A packet that is behind the cursor.
      pub behind :
          (ps : List Packet) (d : Decoder BlockDecoder) (now m : ℕ) (i : PayloadId) (x : List ℕ)
          → source_block_number i ≡ u8 m
          → d.started ≡ true
          → m < d.cursor
          → d.cursor ≤ m + 128
          → d.cursor < 2 ^ 62
          → IsStage q oti base n want outs ps (view d)
          → Goes ps (after_receive o t (on_sane q now d oti i x))
      unfolding on_sane admit after_receive count_redundant
      behind ps d now m i x sbn begun old near small w =
          let back : unwrap_sbn d.cursor (source_block_number i) ≡ m =
            ap (unwrap_sbn d.cursor) sbn ∙ unwrap_sbn-mod d.cursor m small near (omega arith) in
          let low : ltb m d.cursor ≡ true = ground arith in
          rw (locate_begun d (source_block_number i) begun, back, low)
            (record { next = count_redundant d; went = refl; stage = w })

      -- The crate's decoder has answered: the block is complete, or waits for more.
      pub answered :
          (ps : List Packet) (d : Decoder BlockDecoder) (s : BlockState BlockDecoder)
          (r : BlockDecoder × Option (List ℕ))
          → d.pool ≡ (n, s) ∷ []
          → d.cursor ≡ n
          → d.highest_seen ≡ n
          → d.started ≡ true
          → d.out ≡ outs
          → s.decoder ≡ r.0
          → s.completed ≡ r.1
          → base ≤ s.first_seen
          → result_or q r (λ d'. first_result q d' ps) ≡ want
          → Goes ps (settle o t d)
      answered ps d s (d', some bytes) pool cursor high begun out same done stamped enough =
          let (d'', e, w) =
            settle_complete o t n outs s bytes d some_room (omega arith) (calm.writes 0)
              calm.flushes pool cursor high begun out done in
          record { next = d''; went = e; stage = complete bytes (sym enough) w }
      answered ps d s (d', none) pool cursor high begun out same open_block stamped enough =
          settle-IsStage ps d (
            partial s
              (record {
                pool = pool;
                cursor = cursor;
                highest_seen = high;
                started = begun;
                out = out;
                unfinished = open_block;
                stamped = stamped;
              })
              (ap (λ x. first_result q x ps) same ∙ enough))
