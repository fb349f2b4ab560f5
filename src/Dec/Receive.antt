-- ===== src/Dec/Receive.antt =====
-- The match on a received packet in `run_decoder` of raptorq/dec/src/main.rs.
pub mod Ready
pub mod Validity
pub mod Counters
use live_video.Prelude.{
  ℕ, true, List, Option, none, some, not, ltb, if◌then◌else◌, Outcome, ok, err, panic,
}
use live_video.Maps.{get, insert}
use live_video.RaptorQ.{RaptorQ}
use live_video.Wire.Header.{ParseError}
use live_video.Wire.Frame.Parse.{ParsedFrame, data_frame, noop_frame, parse_packet}
use live_video.Dec.Oti.{oti_is_sane}
use live_video.Dec.Sbn.{unwrap_sbn}
use live_video.Dec.Block.{BlockState, new_block, ingest}
use live_video.Dec.State.{
  Decoder, Options, count_gap, count_noop, count_unparseable, count_redundant, count_ok,
}

-- How the match ends: control falls through to the emission, `continue`, or a panic.
pub data Flow (S : Type 0) : Type 0 where
  fall : S → Flow S
  again : S → Flow S
  abort : Flow S

-- The first data frame sets the cursor to its block; later ones are unwrapped around it.
unfoldable pub locate : {D : Type 0} → Decoder D → ℕ → ℕ × Decoder D
locate d sbn_u8 =
    if d.started
    then (unwrap_sbn d.cursor sbn_u8, d)
    else (sbn_u8, record d { cursor = sbn_u8; highest_seen = sbn_u8; started = true })

-- `if logical > highest_seen { highest_seen = logical; }`
unfoldable pub raise : {D : Type 0} → Decoder D → ℕ → Decoder D
raise d logical = if ltb d.highest_seen logical then record d { highest_seen = logical } else d

module _ (q : RaptorQ) where
  open q use {Oti, PayloadId, BlockDecoder, source_block_number, new_packet}

  -- `pool.entry(logical).or_insert_with(..)`, with the panic of `BlockState::new`.
  unfoldable pub entry : Decoder BlockDecoder → ℕ → ℕ → Oti → ℕ → Option (BlockState BlockDecoder)
  entry d logical sbn_u8 oti now = elim (get logical d.pool) [
    | some b ↦ some b
    | none ↦ new_block q sbn_u8 oti now
  ]

  -- The frame of a block that is still open.
  unfoldable pub accept :
      ℕ → Decoder BlockDecoder → ℕ → Oti → PayloadId → List ℕ → Flow (Decoder BlockDecoder)
  accept now d logical oti payload_id symbol =
      elim (entry d logical (source_block_number payload_id) oti now) [
        | none ↦ abort
        | some b ↦
            fall (record d {
              pool = insert logical (ingest q b (new_packet payload_id symbol)) d.pool;
            })
      ]

  -- From the logical block number on.
  unfoldable pub admit :
      ℕ → Decoder BlockDecoder → ℕ → Oti → PayloadId → List ℕ → Flow (Decoder BlockDecoder)
  unfolding raise
  admit now d logical oti payload_id symbol =
      if ltb logical d.cursor
      then again (count_redundant d)
      else accept now (count_ok (raise d logical)) logical oti payload_id symbol

  -- A data frame whose gap is counted.
  unfoldable pub on_sane :
      ℕ → Decoder BlockDecoder → Oti → PayloadId → List ℕ → Flow (Decoder BlockDecoder)
  on_sane now d oti payload_id symbol =
      let (logical, d') = locate d (source_block_number payload_id) in
      admit now d' logical oti payload_id symbol

  unfoldable pub on_data :
      ℕ → Decoder BlockDecoder → ℕ → Oti → PayloadId → List ℕ → Flow (Decoder BlockDecoder)
  on_data now d cc oti payload_id symbol =
      let d' = count_gap d cc in
      if not (oti_is_sane q oti)
      then again (count_unparseable d')
      else on_sane now d' oti payload_id symbol

  unfoldable pub on_frame :
      ℕ
      → Decoder BlockDecoder
      → Outcome ParseError (ParsedFrame Oti PayloadId)
      → Flow (Decoder BlockDecoder)
  on_frame now d (ok (data_frame cc oti payload_id symbol)) = on_data now d cc oti payload_id symbol
  on_frame now d (ok (noop_frame cc)) = fall (count_noop (count_gap d cc))
  on_frame now d (err e) = fall (count_unparseable d)
  on_frame now d panic = abort

  -- The arm `Ok(bytes)`, with the clock at `now`.
  unfoldable pub on_bytes :
      Options → ℕ → Decoder BlockDecoder → List ℕ → Flow (Decoder BlockDecoder)
  on_bytes o now d bytes = on_frame now d (parse_packet q bytes o.pid)
