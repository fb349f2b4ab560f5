-- ===== src/RaptorQ.antt =====
-- The interface of the `raptorq` crate, a dependency that is not part of the repository: the
-- operations which the encoder, the decoder and the wire format call, with no law built in.
-- What a theorem relies on is a hypothesis about these operations.
use live_video.Prelude.{ℕ, List, Option}

pub record RaptorQ : Type 1 where
  -- `ObjectTransmissionInformation`
  pub Oti : Type 0
  pub new_oti : ℕ → ℕ → ℕ → ℕ → ℕ → Oti
  pub serialize_oti : Oti → List ℕ
  pub deserialize_oti : List ℕ → Oti
  pub transfer_length : Oti → ℕ
  pub symbol_size : Oti → ℕ
  -- `PayloadId`
  pub PayloadId : Type 0
  pub serialize_id : PayloadId → List ℕ
  pub deserialize_id : List ℕ → PayloadId
  pub source_block_number : PayloadId → ℕ
  pub encoding_symbol_id : PayloadId → ℕ
  -- `EncodingPacket`
  pub Packet : Type 0
  pub new_packet : PayloadId → List ℕ → Packet
  pub payload_id : Packet → PayloadId
  pub symbol : Packet → List ℕ
  -- `SourceBlockEncoder`
  pub BlockEncoder : Type 0
  pub new_encoder : ℕ → Oti → List ℕ → BlockEncoder
  pub source_packets : BlockEncoder → List Packet
  pub repair_packets : BlockEncoder → ℕ → ℕ → List Packet
  -- `SourceBlockDecoder`; `decode` is given one packet at a time.
  pub BlockDecoder : Type 0
  pub new_decoder : ℕ → Oti → ℕ → BlockDecoder
  pub decode : BlockDecoder → Packet → BlockDecoder × Option (List ℕ)
