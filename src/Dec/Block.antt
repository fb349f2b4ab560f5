-- ===== src/Dec/Block.antt =====
-- `BlockState` of raptorq/dec/src/main.rs.
pub mod BestEffort
pub mod Invariant
use live_video.Prelude.{
  ℕ, ◌+◌, ◌*◌, ◌/◌, List, [], ◌∷◌, Option, none, some, is_some, u32, ltb, leb, ◌==◌, if◌then◌else◌,
  replicate,
}
use live_video.Prelude.Slices.{◌>>=◌, write_at}
use live_video.Maps.{or_insert}
use live_video.RaptorQ.{RaptorQ}
use live_video.Wire.Constants.{symbol_size}

-- `D` is the crate's `SourceBlockDecoder`.
pub record BlockState (D : Type 0) : Type 0 where
  pub k : ℕ
  pub block_size : ℕ
  pub decoder : D
  pub source_symbols : List (ℕ × List ℕ)
  pub repair_count : ℕ
  pub completed : Option (List ℕ)
  pub first_seen : ℕ

-- One round of the loop of `best_effort`; `none` is the panic of `copy_from_slice` on a symbol of
-- another length.
unfoldable pub place_symbol : ℕ → ℕ → List ℕ → List ℕ → Option (List ℕ)
place_symbol block_size esi sym out =
    let off = esi * symbol_size in
    if leb (off + symbol_size) block_size then write_at off symbol_size out sym else some out

-- The loop over the stored symbols.
unfoldable pub place_symbols : ℕ → List (ℕ × List ℕ) → List ℕ → Option (List ℕ)
place_symbols block_size [] out = some out
place_symbols block_size ((esi, sym) ∷ rest) out =
    place_symbol block_size esi sym out >>= place_symbols block_size rest

unfoldable pub best_effort : {D : Type 0} → BlockState D → Option (List ℕ)
best_effort b = place_symbols b.block_size b.source_symbols (replicate b.block_size 0)

module _ (q : RaptorQ) where
  open q use {
    Oti, Packet, BlockDecoder, transfer_length, payload_id, encoding_symbol_id, symbol, new_decoder,
    decode,
  }

  -- The fields of a new block.
  unfoldable pub fresh_block : ℕ → Oti → ℕ → BlockState BlockDecoder
  fresh_block sbn_u8 oti now = record {
    k = u32 (transfer_length oti / q.symbol_size oti);
    block_size = transfer_length oti;
    decoder = new_decoder sbn_u8 oti (transfer_length oti);
    source_symbols = [];
    repair_count = 0;
    completed = none;
    first_seen = now;
  }

  -- `BlockState::new` at the time `now`; `none` is the panic of a division by zero.
  unfoldable pub new_block : ℕ → Oti → ℕ → Option (BlockState BlockDecoder)
  new_block sbn_u8 oti now =
      if q.symbol_size oti == 0 then none else some (fresh_block sbn_u8 oti now)

  -- The symbol is stored, if it is a source symbol, or counted.
  unfoldable pub record_symbol : BlockState BlockDecoder → Packet → BlockState BlockDecoder
  record_symbol b packet =
      let esi = encoding_symbol_id (payload_id packet) in
      if ltb esi b.k
      then record b { source_symbols = or_insert esi (symbol packet) b.source_symbols }
      else record b { repair_count = u32 (b.repair_count + 1) }

  unfoldable pub ingest : BlockState BlockDecoder → Packet → BlockState BlockDecoder
  unfolding record_symbol
  ingest b packet =
      if is_some b.completed
      then b
      else (let (decoder', result) = decode b.decoder packet in
          record (record_symbol b packet) { decoder = decoder'; completed = result })
