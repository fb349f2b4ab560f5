-- ===== src/Link/Segments.antt =====
-- The packets of raptorq/enc/src/main.rs block by block, on the channel and on the wire.
use mathlib.Core.List.{append-nil}
use live_video.Prelude.{
  ℕ, ◌+◌, ◌^◌, ◌≤◌, ◌<◌, ◌≡◌, refl, sym, ap, subst, List, [], ◌∷◌, ◌++◌, some, length, u8, ok,
}
use live_video.RaptorQ.{RaptorQ}
use live_video.Wire.Frame.Parse.{data_frame, noop_frame, parse_packet}
use live_video.Enc.Interleave.Merge.{IsMerge, both_empty, from_source, from_repair}
use live_video.Enc.Writer.Stream.{IsStream, stream_start, stream_data, stream_noop}
use live_video.Dec.Transparent.{first_result}

module _ (q : RaptorQ) where
  open q use {
    Oti, PayloadId, Packet, BlockEncoder, serialize_oti, deserialize_oti, serialize_id,
    deserialize_id, payload_id, symbol, source_block_number, new_packet, new_encoder,
    source_packets, repair_packets, new_decoder, transfer_length,
  }

  -- The payload id of a packet names the block, and survives the wire.
  pub record IsNumbered (sbn : ℕ) (p : Packet) : Type 0 where
    pub numbered : source_block_number (payload_id p) ≡ sbn
    pub read_back : deserialize_id (serialize_id (payload_id p)) ≡ payload_id p

  abbrev pub AllNumbered : ℕ → List Packet → Type 0
  AllNumbered sbn [] = Unit {0}
  AllNumbered sbn (p ∷ ps) = IsNumbered sbn p × AllNumbered sbn ps

  -- What the crate documents of its codec, for the OTI of the stream: what it writes of an OTI
  -- and of its packets' payload ids it reads back, a packet is its payload id and its symbol, the
  -- packets of an encoder have its block number, and a decoder that is given all source packets
  -- in order, with repair packets in between, returns the block.
  pub record IsCodec (oti : Oti) : Type 0 where
    pub reads_oti : deserialize_oti (serialize_oti oti) ≡ oti
    pub keeps : (p : Packet) → new_packet (payload_id p) (symbol p) ≡ p
    pub sources :
        (sbn : ℕ) (b : List ℕ)
        → sbn < 256
        → length b ≡ transfer_length oti
        → AllNumbered sbn (source_packets (new_encoder sbn oti b))
    pub repairs :
        (sbn start n : ℕ) (b : List ℕ)
        → sbn < 256
        → length b ≡ transfer_length oti
        → start + n ≤ 2 ^ 23
        → AllNumbered sbn (repair_packets (new_encoder sbn oti b) start n)
    pub decodes :
        (sbn n : ℕ) (b : List ℕ) (ps : List Packet)
        → sbn < 256
        → length b ≡ transfer_length oti
        → n ≤ 2 ^ 23
        → IsMerge
            (source_packets (new_encoder sbn oti b))
            (repair_packets (new_encoder sbn oti b) 0 n)
            ps
        → first_result q (new_decoder sbn oti (transfer_length oti)) ps ≡ some b

  -- The packets `own` of block `n` among `all` packets, where the others are of blocks up to 127
  -- before this one.
  pub data IsGroup (n : ℕ) : List Packet → List Packet → Type 0 where
    group_end : IsGroup n [] []
    group_own :
        (p : Packet) (own all : List Packet)
        → IsNumbered (u8 n) p
        → IsGroup n own all
        → IsGroup n (p ∷ own) (p ∷ all)
    group_old :
        (p : Packet) (m : ℕ) (own all : List Packet)
        → IsNumbered (u8 m) p
        → m < n
        → n < m + 128
        → IsGroup n own all
        → IsGroup n own (p ∷ all)

  pub IsGroup-append :
      (n : ℕ) (own all own' all' : List Packet)
      → IsGroup n own all
      → IsGroup n own' all'
      → IsGroup n (own ++ own') (all ++ all')
  IsGroup-append n own all own' all' group_end h = h
  IsGroup-append n own all own' all' (group_own p xs ys w g) h =
      group_own p (xs ++ own') (ys ++ all') w (IsGroup-append n xs ys own' all' g h)
  IsGroup-append n own all own' all' (group_old p m xs ys w old near g) h =
      group_old p m (xs ++ own') (ys ++ all') w old near (IsGroup-append n xs ys own' all' g h)

  pub AllNumbered-IsGroup : (n : ℕ) (ps : List Packet) → AllNumbered (u8 n) ps → IsGroup n ps ps
  AllNumbered-IsGroup n [] h = group_end
  AllNumbered-IsGroup n (p ∷ ps) h = group_own p ps ps h.0 (AllNumbered-IsGroup n ps h.1)

  pub AllNumbered-merge :
      (sbn : ℕ) (xs ys zs : List Packet)
      → IsMerge xs ys zs
      → AllNumbered sbn xs
      → AllNumbered sbn ys
      → AllNumbered sbn zs
  AllNumbered-merge sbn xs ys zs both_empty h g = tt
  AllNumbered-merge sbn xs ys zs (from_source x xs' ys' zs' m) h g =
      (h.0, AllNumbered-merge sbn xs' ys' zs' m h.1 g)
  AllNumbered-merge sbn xs ys zs (from_repair y xs' ys' zs' m) h g =
      (g.0, AllNumbered-merge sbn xs' ys' zs' m h g.1)

  module _ (pid : ℕ) (oti : Oti) where
    -- The wire packets that carry the packets `ps`, in order, with stuffing in between.
    pub data Carries : List Packet → List (List ℕ) → Type 0 where
      carries_end : Carries [] []
      carries_noop :
          (ps : List Packet) (bytes : List ℕ) (wire : List (List ℕ)) (c : ℕ)
          → parse_packet q bytes pid ≡ ok (noop_frame c)
          → Carries ps wire
          → Carries ps (bytes ∷ wire)
      carries_data :
          (ps : List Packet) (p : Packet) (bytes : List ℕ) (wire : List (List ℕ)) (c : ℕ)
          → parse_packet q bytes pid
            ≡ ok (
                data_frame c
                  (deserialize_oti (serialize_oti oti))
                  (deserialize_id (serialize_id (payload_id p)))
                  (symbol p))
          → Carries ps wire
          → Carries (p ∷ ps) (bytes ∷ wire)

    Carries-append :
        (ps qs : List Packet) (v w : List (List ℕ))
        → Carries ps v
        → Carries qs w
        → Carries (ps ++ qs) (v ++ w)
    Carries-append ps qs v w carries_end h = h
    Carries-append ps qs v w (carries_noop ps' bytes v' c e g) h =
        carries_noop (ps' ++ qs) bytes (v' ++ w) c e (Carries-append ps' qs v' w g h)
    Carries-append ps qs v w (carries_data ps' p bytes v' c e g) h =
        carries_data (ps' ++ qs) p bytes (v' ++ w) c e (Carries-append ps' qs v' w g h)

    pub IsStream-Carries :
        (rate_bps : ℕ) (ps : List Packet) (wire : List (List ℕ))
        → IsStream q pid rate_bps oti ps wire
        → Carries ps wire
    IsStream-Carries rate_bps ps wire stream_start = carries_end
    IsStream-Carries rate_bps ps wire (stream_data ps' sent p bytes size e s) =
        Carries-append ps' (p ∷ []) sent (bytes ∷ []) (IsStream-Carries rate_bps ps' sent s)
          (carries_data [] p bytes [] _ e carries_end)
    IsStream-Carries rate_bps ps wire (stream_noop ps' sent bytes size e s) =
        subst (λ x. Carries x (sent ++ (bytes ∷ []))) (append-nil ps')
          (Carries-append ps' [] sent (bytes ∷ []) (IsStream-Carries rate_bps ps' sent s)
            (carries_noop [] bytes [] _ e carries_end))

    -- The wire packets of a first part of the packets, and the others.
    pub record IsSplit (xs ys : List Packet) (wire : List (List ℕ)) : Type 0 where
      pub front : List (List ℕ)
      pub back : List (List ℕ)
      pub whole : front ++ back ≡ wire
      pub carries_front : Carries xs front
      pub carries_back : Carries ys back

    pub Carries-IsSplit :
        (xs ys zs : List Packet) (wire : List (List ℕ))
        → xs ++ ys ≡ zs
        → Carries zs wire
        → IsSplit xs ys wire
    Carries-IsSplit [] ys zs wire e h = record {
      front = [];
      back = wire;
      whole = refl;
      carries_front = carries_end;
      carries_back = subst (λ x. Carries x wire) (sym e) h;
    }
    Carries-IsSplit (x ∷ xs) ys zs wire e carries_end = cc
    Carries-IsSplit (x ∷ xs) ys zs wire e (carries_noop zs' bytes wire' c p h) =
        let s = Carries-IsSplit (x ∷ xs) ys zs' wire' e h in
        record {
          front = bytes ∷ s.front;
          back = s.back;
          whole = ap (◌∷◌ bytes) s.whole;
          carries_front = carries_noop (x ∷ xs) bytes s.front c p s.carries_front;
          carries_back = s.carries_back;
        }
    Carries-IsSplit (x ∷ xs) ys zs wire e (carries_data zs' z bytes wire' c p h) =
        let rest : xs ++ ys ≡ zs' = cc in
        let same : z ≡ x = cc in
        let s = Carries-IsSplit xs ys zs' wire' rest h in
        record {
          front = bytes ∷ s.front;
          back = s.back;
          whole = ap (◌∷◌ bytes) s.whole;
          carries_front =
              subst (λ y. Carries (y ∷ xs) (bytes ∷ s.front)) same
                (carries_data xs z bytes s.front c p s.carries_front);
          carries_back = s.carries_back;
        }
