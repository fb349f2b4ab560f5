-- ===== src/Dec/Transparent/Own.antt =====
-- A data packet in one turn of `run_decoder` in raptorq/dec/src/main.rs.
use live_video.Prelude.{
  ℕ, ◌+◌, ◌^◌, ◌≤◌, ◌<◌, ◌≡◌, refl, ◌∙◌, ap, ap₂, true, false, List, [], ◌∷◌, Option, none, some,
  u8, ltb, arith, Outcome, ok, Bool-cases, inl, inr,
}
use live_video.Maps.{get, insert}
use live_video.RaptorQ.{RaptorQ}
use live_video.Wire.Frame.Parse.{data_frame, parse_packet}
use live_video.Dec.Oti.{oti_is_sane, oti_is_sane_iff}
use live_video.Dec.Sbn.{unwrap_sbn, unwrap_sbn-mod}
use live_video.Dec.Block.{BlockState, fresh_block, new_block, ingest}
use live_video.Dec.State.{Decoder, Options, count_gap, count_ok}
use live_video.Dec.Receive.{raise, entry, accept, admit, on_sane, on_data, on_frame, on_bytes}
use live_video.Dec.Receive.Ready.{begin, locate_begun, locate_fresh}
use live_video.Dec.Emit.{Fault}
use live_video.Dec.Run.{Turn, Next, packet, after_receive, turn_on}
use live_video.Dec.Transparent.{IsCalm, first_result}
use live_video.Dec.Transparent.Stage.{
  View, view, IsEmpty, IsOpen, IsStage, untouched, partial, complete,
}
use live_video.Dec.Transparent.Arrivals.{
  Goes, insert_only, insert-replace, get_nil, get_same, ingest-decode, answered, behind,
}

module _ (q : RaptorQ) (o : Options) (oti : q.Oti) (base n : ℕ) (want : Option (List ℕ))
    (outs : List (List ℕ)) (t : Turn) (some_room : 0 < o.max_in_flight)
    (fits : n + 1 + o.max_in_flight < 2 ^ 62) (calm : IsCalm o base t) where
  open q use {
    Oti, Packet, PayloadId, BlockDecoder, transfer_length, payload_id, symbol, source_block_number,
    new_packet, new_decoder, decode,
  }

  -- The turn goes on, and leaves a stage.
  abbrev pub GoesOn : List Packet → Outcome Fault (Next (Decoder BlockDecoder)) → Type 0
  GoesOn ps r = Goes q o oti base n want outs ps r

  module _ (sane : oti_is_sane q oti ≡ true)
      (keeps : (p : Packet) → new_packet (payload_id p) (symbol p) ≡ p) where
    -- A packet is given to the block `s` at the cursor.
    accept_own :
        (ps : List Packet) (d : Decoder BlockDecoder) (p : Packet) (s : BlockState BlockDecoder)
        → entry q d n (source_block_number (payload_id p)) oti t.arrival ≡ some s
        → insert n (ingest q s p) d.pool ≡ (n, ingest q s p) ∷ []
        → d.cursor ≡ n
        → d.highest_seen ≡ n
        → d.started ≡ true
        → d.out ≡ outs
        → s.completed ≡ none
        → base ≤ s.first_seen
        → first_result q s.decoder (p ∷ ps) ≡ want
        → GoesOn ps (after_receive o t (accept q t.arrival d n oti (payload_id p) (symbol p)))
    unfolding accept after_receive first_result
    accept_own ps d p s found pool cursor high begun out open_block stamped enough =
        let (same, done, first) = ingest-decode q s p open_block in
        rw (found, accept, keeps p)
          (answered q o oti base n want outs t some_room fits calm ps
            (record d { pool = insert n (ingest q s p) d.pool }) (ingest q s p) (decode s.decoder p)
            pool cursor high begun out same done (omega (arith, first)) enough)

    new_block-fresh : (sbn now : ℕ) → new_block q sbn oti now ≡ some (fresh_block q sbn oti now)
    unfolding new_block
    new_block-fresh sbn now =
        let (size, rest) = (oti_is_sane_iff q oti).0 sane in ground (arith, size)

    -- The first packet of the block.
    admit_first :
        (ps : List Packet) (d : Decoder BlockDecoder) (p : Packet)
        → source_block_number (payload_id p) ≡ u8 n
        → d.started ≡ true
        → IsEmpty n outs (view d)
        → first_result q (new_decoder (u8 n) oti (transfer_length oti)) (p ∷ ps) ≡ want
        → GoesOn ps (after_receive o t (admit q t.arrival d n oti (payload_id p) (symbol p)))
    unfolding admit raise count_ok entry fresh_block
    admit_first ps d p sbn begun w enough =
        let r : Decoder BlockDecoder = count_ok (raise d n) in
        let sbn_u8 : ℕ = source_block_number (payload_id p) in
        let s = fresh_block q sbn_u8 oti t.arrival in
        let current : ltb n d.cursor ≡ false = ground (arith, w.cursor) in
        let pool : r.pool ≡ [] = ground (arith, w.pool) in
        let top : r.highest_seen ≡ n = ground (arith, w.low) in
        let missing : get n r.pool ≡ none = ap (get n) pool ∙ get_nil n in
        let found : entry q r n sbn_u8 oti t.arrival ≡ some s =
          rw (missing, entry) (new_block-fresh sbn_u8 t.arrival) in
        rw current (
          accept_own ps r p s found (ap (insert n (ingest q s p)) pool ∙ insert_only n _)
            (ground (arith, w.cursor)) top (ground (arith, begun)) (ground (arith, w.out)) refl
            calm.stamped
            (ap (λ x. first_result q (new_decoder x oti (transfer_length oti)) (p ∷ ps)) sbn
              ∙ enough))

    -- A further packet of the block.
    admit_more :
        (ps : List Packet) (d : Decoder BlockDecoder) (p : Packet) (s : BlockState BlockDecoder)
        → IsOpen base n outs s (view d)
        → first_result q s.decoder (p ∷ ps) ≡ want
        → GoesOn ps (after_receive o t (admit q t.arrival d n oti (payload_id p) (symbol p)))
    unfolding admit raise count_ok entry
    admit_more ps d p s w enough =
        let r : Decoder BlockDecoder = count_ok (raise d n) in
        let sbn_u8 : ℕ = source_block_number (payload_id p) in
        let current : ltb n d.cursor ≡ false = ground (arith, w.cursor) in
        let pool : r.pool ≡ (n, s) ∷ [] = ground (arith, w.pool) in
        let top : r.highest_seen ≡ n = ground (arith, w.highest_seen) in
        let there : get n r.pool ≡ some s = ap (get n) pool ∙ get_same n s in
        let found : entry q r n sbn_u8 oti t.arrival ≡ some s = rw (there, entry) refl in
        rw current (
          accept_own ps r p s found (ap (insert n (ingest q s p)) pool ∙ insert-replace n _ s)
            (ground (arith, w.cursor)) top (ground (arith, w.started)) (ground (arith, w.out))
            w.unfinished w.stamped enough)

    -- A packet of the block itself, once the stream has begun.
    own_begun :
        (ps : List Packet) (d : Decoder BlockDecoder) (p : Packet)
        → source_block_number (payload_id p) ≡ u8 n
        → d.started ≡ true
        → IsStage q oti base n want outs (p ∷ ps) (view d)
        → GoesOn ps (after_receive o t (on_sane q t.arrival d oti (payload_id p) (symbol p)))
    unfolding on_sane
    own_begun ps d p sbn begun (untouched w enough) =
        let here : unwrap_sbn d.cursor (source_block_number (payload_id p)) ≡ n =
          ap₂ unwrap_sbn w.cursor sbn
          ∙ unwrap_sbn-mod n n (omega arith) (omega arith) (omega arith) in
        rw (locate_begun d (source_block_number (payload_id p)) begun, here)
          (admit_first ps d p sbn begun w enough)
    own_begun ps d p sbn begun (partial s w enough) =
        let here : unwrap_sbn d.cursor (source_block_number (payload_id p)) ≡ n =
          ap₂ unwrap_sbn w.cursor sbn
          ∙ unwrap_sbn-mod n n (omega arith) (omega arith) (omega arith) in
        rw (locate_begun d (source_block_number (payload_id p)) begun, here)
          (admit_more ps d p s w enough)
    own_begun ps d p sbn begun (complete b made w) =
        behind q o oti base n want outs t some_room fits calm ps d t.arrival n (payload_id p)
          (symbol p) sbn begun (omega (arith, w.cursor)) (omega (arith, w.cursor))
          (omega (arith, w.cursor)) (complete b made w)

    -- The packet that begins the stream.
    own_first :
        (ps : List Packet) (d : Decoder BlockDecoder) (p : Packet)
        → source_block_number (payload_id p) ≡ u8 n
        → d.started ≡ false
        → IsStage q oti base n want outs (p ∷ ps) (view d)
        → GoesOn ps (after_receive o t (on_sane q t.arrival d oti (payload_id p) (symbol p)))
    unfolding on_sane begin
    own_first ps d p sbn fresh (untouched w enough) =
        let here : source_block_number (payload_id p) ≡ n = omega (arith, sbn, w.first fresh) in
        rw (locate_fresh d (source_block_number (payload_id p)) fresh, here)
          (admit_first ps (begin d n) p sbn refl
            (record {
              pool = w.pool;
              cursor = refl;
              low = omega arith;
              high = omega arith;
              first = λ x. cc;
              out = w.out;
            })
            enough)
    own_first ps d p sbn fresh (partial s w enough) = cc (fresh, w.started)
    own_first ps d p sbn fresh (complete b made w) = absurd (omega (arith, w.first fresh))

    -- A data frame behind the count of its gap and the check of its OTI.
    on_data_sane :
        (ps : List Packet) (d : Decoder BlockDecoder) (c : ℕ) (i : PayloadId) (x : List ℕ)
        (bytes : List ℕ)
        → parse_packet q bytes o.pid ≡ ok (data_frame c oti i x)
        → GoesOn ps (after_receive o t (on_sane q t.arrival (count_gap d c) oti i x))
        → GoesOn ps (turn_on q o t d (packet bytes))
    unfolding turn_on on_bytes on_frame on_data
    on_data_sane ps d c i x bytes e w = rw (e, sane) w

    pub on_own :
        (ps : List Packet) (d : Decoder BlockDecoder) (bytes : List ℕ) (c : ℕ) (p : Packet)
        → parse_packet q bytes o.pid ≡ ok (data_frame c oti (payload_id p) (symbol p))
        → source_block_number (payload_id p) ≡ u8 n
        → IsStage q oti base n want outs (p ∷ ps) (view d)
        → GoesOn ps (turn_on q o t d (packet bytes))
    unfolding count_gap
    on_own ps d bytes c p e sbn w =
        on_data_sane ps d c (payload_id p) (symbol p) bytes e (elim (Bool-cases d.started) [
          | inl begun ↦ own_begun ps (count_gap d c) p sbn begun w
          | inr fresh ↦ own_first ps (count_gap d c) p sbn fresh w
        ])

    -- The cursor is at the block or behind it, and the stream has begun unless it is the first.
    IsStage-cursor :
        (ps : List Packet) (v : View BlockDecoder)
        → IsStage q oti base n want outs ps v
        → (n ≤ v.cursor) × (v.cursor ≤ n + 1) × (v.started ≡ false → n ≡ 0)
    IsStage-cursor ps v (untouched w enough) =
        (omega (arith, w.cursor), omega (arith, w.cursor), w.first)
    IsStage-cursor ps v (partial s w enough) =
        (omega (arith, w.cursor), omega (arith, w.cursor), λ fresh. cc (fresh, w.started))
    IsStage-cursor ps v (complete b made w) =
        (omega (arith, w.cursor), omega (arith, w.cursor), λ fresh. omega (arith, w.first fresh))

    pub on_old :
        (ps : List Packet) (d : Decoder BlockDecoder) (bytes : List ℕ) (c m : ℕ) (p : Packet)
        → parse_packet q bytes o.pid ≡ ok (data_frame c oti (payload_id p) (symbol p))
        → source_block_number (payload_id p) ≡ u8 m
        → m < n
        → n < m + 128
        → IsStage q oti base n want outs ps (view d)
        → GoesOn ps (turn_on q o t d (packet bytes))
    unfolding count_gap
    on_old ps d bytes c m p e sbn old near w =
        let (lo, hi, first) = IsStage-cursor ps (view d) w in
        on_data_sane ps d c (payload_id p) (symbol p) bytes e (elim (Bool-cases d.started) [
          | inl begun ↦
              behind q o oti base n want outs t some_room fits calm ps (count_gap d c) t.arrival m
                (payload_id p) (symbol p) sbn begun (omega arith) (omega arith) (omega arith) w
          | inr fresh ↦ absurd (omega (arith, first fresh))
        ])
