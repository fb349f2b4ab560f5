-- ===== src/Link/Delivery.antt =====
-- What the decoder of raptorq/dec/src/main.rs writes of what the encoder of
-- raptorq/enc/src/main.rs has put on the wire.
use live_video.Prelude.{
  ℕ, ◌+◌, ◌^◌, ◌≤◌, ◌<◌, ◌≡◌, refl, ◌∙◌, ap₂, true, List, [], ◌∷◌, ◌++◌, none, length, u8, arith,
  ok,
}
use live_video.RaptorQ.{RaptorQ}
use live_video.Wire.Frame.Parse.{data_frame, parse_packet}
use live_video.Enc.Encoder.{EncoderArgs}
use live_video.Dec.Oti.{oti_is_sane}
use live_video.Dec.State.{Decoder, Options, start_decoder}
use live_video.Dec.Run.{Turn, packet, nothing, going, run_from}
use live_video.Dec.Transparent.{
  first_result, IsCalm, IsHeard, heard_end, heard_nothing, heard_noop, heard_old, heard_own,
  IsReception, reception_end, reception_block,
}
use live_video.Dec.Transparent.Blocks.{run_from-IsReception}
use live_video.Link.Segments.{
  IsNumbered, IsCodec, IsGroup, group_end, group_own, group_old, Carries, carries_end, carries_noop,
  carries_data,
}
use live_video.Link.Broadcast.{AllFull, IsBroadcast, broadcast_end, broadcast_block}

-- The turns in which the wire packets come in, with turns without a packet in between, all
-- between `base` and `base + timeout`.
pub data IsPlayed (o : Options) (base : ℕ) : List (List ℕ) → List Turn → Type 0 where
  played_end : IsPlayed o base [] []
  played_nothing :
      (wire : List (List ℕ)) (t : Turn) (ts : List Turn)
      → IsCalm o base t
      → t.received ≡ nothing
      → IsPlayed o base wire ts
      → IsPlayed o base wire (t ∷ ts)
  played_packet :
      (wire : List (List ℕ)) (bytes : List ℕ) (t : Turn) (ts : List Turn)
      → IsCalm o base t
      → t.received ≡ packet bytes
      → IsPlayed o base wire ts
      → IsPlayed o base (bytes ∷ wire) (t ∷ ts)

-- The segments come in one after the other, each within the timeout.
pub data IsTimely (o : Options) : List (List (List ℕ)) → List Turn → Type 0 where
  timely_last :
      (base : ℕ) (segment : List (List ℕ)) (ts : List Turn)
      → IsPlayed o base segment ts
      → IsTimely o (segment ∷ []) ts
  timely_more :
      (base : ℕ) (segment : List (List ℕ)) (segments : List (List (List ℕ))) (ts rest : List Turn)
      → IsPlayed o base segment ts
      → IsTimely o segments rest
      → IsTimely o (segment ∷ segments) (ts ++ rest)

module _ (q : RaptorQ) (a : EncoderArgs q.Oti) (o : Options) (codec : IsCodec q a.oti) where
  open q use {
    Oti, PayloadId, Packet, BlockDecoder, deserialize_oti, serialize_oti, deserialize_id,
    serialize_id, payload_id, symbol, transfer_length,
  }

  -- A data packet as the decoder reads it.
  read_back :
      (bytes : List ℕ) (c k : ℕ) (p : Packet)
      → IsNumbered q k p
      → parse_packet q bytes o.pid
        ≡ ok (
            data_frame c
              (deserialize_oti (serialize_oti a.oti))
              (deserialize_id (serialize_id (payload_id p)))
              (symbol p))
      → parse_packet q bytes o.pid ≡ ok (data_frame c a.oti (payload_id p) (symbol p))
  read_back bytes c k p w e =
      e ∙ ap₂ (λ x i. ok (data_frame c x i (symbol p))) codec.reads_oti w.read_back

  IsGroup-IsHeard :
      (base n : ℕ) (own all : List Packet) (segment : List (List ℕ)) (ts : List Turn)
      → IsPlayed o base segment ts
      → Carries q o.pid a.oti all segment
      → IsGroup q n own all
      → IsHeard q o a.oti base n own ts
  IsGroup-IsHeard base n own all segment ts (played_nothing wire t ts' calm e h) c g =
      heard_nothing own t ts' calm e (IsGroup-IsHeard base n own all segment ts' h c g)
  IsGroup-IsHeard base n own all segment ts played_end carries_end group_end = heard_end
  IsGroup-IsHeard base n own all segment ts (played_packet wire bytes t ts' calm e h)
        (carries_noop ps bytes' wire' c p cs) g =
      heard_noop own t ts' bytes c calm e p (IsGroup-IsHeard base n own all wire ts' h cs g)
  IsGroup-IsHeard base n own all segment ts (played_packet wire bytes t ts' calm e h)
        (carries_data ps p bytes' wire' c parsed cs) (group_own p' own' all' w g) =
      heard_own own' t ts' bytes c p calm e (read_back bytes c (u8 n) p w parsed) w.numbered
        (IsGroup-IsHeard base n own' ps wire ts' h cs g)
  IsGroup-IsHeard base n own all segment ts (played_packet wire bytes t ts' calm e h)
        (carries_data ps p bytes' wire' c parsed cs) (group_old p' m own' all' w old near g) =
      heard_old own t ts' bytes c m p calm e (read_back bytes c (u8 m) p w parsed) w.numbered old
        near (IsGroup-IsHeard base n own ps wire ts' h cs g)

  module _ (baseline : a.baseline_repair ≤ 2 ^ 23) where
    nothing_before :
        (n : ℕ) → first_result q (q.new_decoder (u8 n) a.oti (transfer_length a.oti)) [] ≡ none
    unfolding first_result
    nothing_before n = refl

    IsBroadcast-IsReception :
        (n : ℕ) (bs : List (List ℕ)) (segments : List (List (List ℕ))) (ts : List Turn)
        → AllFull q a bs
        → IsBroadcast q a o.pid n bs segments
        → IsTimely o segments ts
        → IsReception q o a.oti n bs ts
    IsBroadcast-IsReception n bs segments ts full (broadcast_end n' tail seg g c)
          (timely_last base seg' ts' h) =
        reception_end n base [] ts (IsGroup-IsHeard base n [] tail seg ts h c g) (nothing_before n)
    IsBroadcast-IsReception n bs segments ts full (broadcast_end n' tail seg g c)
          (timely_more base seg' segs' ts' rest h later) =
        elim later [ ]
    IsBroadcast-IsReception n bs segments ts full
          (broadcast_block n' b bs' own group seg segs g m c more) (timely_last base seg' ts' h) =
        elim more [ ]
    IsBroadcast-IsReception n bs segments ts full
          (broadcast_block n' b bs' own group seg segs g m c more)
          (timely_more base seg' segs' ts' rest h later) =
        reception_block n base b bs' own ts' rest (IsGroup-IsHeard base n own group seg ts' h c g)
          (codec.decodes (u8 n) a.baseline_repair b own (omega arith) full.0 baseline m)
          (IsBroadcast-IsReception (n + 1) bs' segs rest full.1 more later)

    -- For the laws of the crate's codec, at most 2^23 repair packets a block, a sane OTI, a window
    -- of at least one block, blocks that fill the OTI, and fewer than 2^62 blocks and window
    -- together: when the segments that the encoder has put on the wire for these blocks come in one
    -- after the other, each within the timeout, and stdout takes what is written, the decoder's
    -- loop goes on and has written exactly the blocks that the encoder was given, in order.
    pub run_from-IsBroadcast :
        (bs : List (List ℕ)) (segments : List (List (List ℕ))) (ts : List Turn) (now : ℕ)
        → 0 < o.max_in_flight
        → oti_is_sane q a.oti ≡ true
        → length bs + 1 + o.max_in_flight < 2 ^ 62
        → AllFull q a bs
        → IsBroadcast q a o.pid 0 bs segments
        → IsTimely o segments ts
        → (d : Decoder BlockDecoder) × (run_from q o ts (going (start_decoder now)) ≡ ok (going d))
          × (d.out ≡ bs)
    run_from-IsBroadcast bs segments ts now some_room sane fits full sent timely =
        let (d, e, out, at, high) =
          run_from-IsReception q o a.oti some_room sane codec.keeps bs ts now fits
            (IsBroadcast-IsReception 0 bs segments ts full sent timely) in
        (d, e, out)
