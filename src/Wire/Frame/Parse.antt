-- ===== src/Wire/Frame/Parse.antt =====
-- `ParsedFrame` and `parse_packet` of raptorq/common/src/lib.rs.
use live_video.Prelude.{
  ℕ, List, [], ◌∷◌, Option, none, some, not, ◌==◌, if◌then◌else◌, length, drop, get_elem?, Outcome,
  ok, err, unwrap, ◌>>=◌,
}
use live_video.Prelude.Slices.{slice?}
use live_video.RaptorQ.{RaptorQ}
use live_video.Wire.Constants.{
  ts_packet_size, ts_header_size, frame_type_offset, frame_oti_offset, frame_payload_id_offset,
  frame_symbol_offset, symbol_size, frame_type_data, frame_type_noop,
}
use live_video.Wire.Header.{
  ParseError, wrong_length, transport_error, wrong_pid, unknown_frame_type, HeaderBytes, TsHeader,
  parse,
}

pub data ParsedFrame (Oti PayloadId : Type 0) : Type 0 where
  data_frame : ℕ → Oti → PayloadId → List ℕ → ParsedFrame Oti PayloadId
  noop_frame : ℕ → ParsedFrame Oti PayloadId

-- `try_into` of a slice into `[u8; TS_HEADER_SIZE]`.
unfoldable pub to_header : List ℕ → Option HeaderBytes
to_header (b0 ∷ b1 ∷ b2 ∷ b3 ∷ []) = some (record { b0 = b0; b1 = b1; b2 = b2; b3 = b3 })
to_header _ = none

module _ (q : RaptorQ) where
  open q use {Oti, PayloadId, deserialize_oti, deserialize_id}

  unfoldable pub parse_data : ℕ → List ℕ → Outcome ParseError (ParsedFrame Oti PayloadId)
  parse_data cc payload = do
    oti_bytes ← unwrap (slice? frame_oti_offset 12 payload)
    pid_bytes ← unwrap (slice? frame_payload_id_offset 4 payload)
    symbol ← unwrap (slice? frame_symbol_offset symbol_size payload)
    ok (data_frame cc (deserialize_oti oti_bytes) (deserialize_id pid_bytes) symbol)

  -- The match on the frame type.
  unfoldable pub parse_payload : ℕ → List ℕ → ℕ → Outcome ParseError (ParsedFrame Oti PayloadId)
  parse_payload cc payload frame_type =
      if frame_type == frame_type_noop
      then ok (noop_frame cc)
      else if frame_type == frame_type_data
      then parse_data cc payload
      else err (unknown_frame_type frame_type)

  -- From the parsed header on.
  unfoldable pub parse_body : List ℕ → ℕ → TsHeader → Outcome ParseError (ParsedFrame Oti PayloadId)
  parse_body bytes expected_pid hdr =
      if hdr.tei
      then err transport_error
      else if not (hdr.pid == expected_pid)
      then err (wrong_pid hdr.pid expected_pid)
      else do
        frame_type ← unwrap (get_elem? (drop ts_header_size bytes) frame_type_offset)
        parse_payload hdr.continuity_counter (drop ts_header_size bytes) frame_type

  unfoldable pub parse_packet : List ℕ → ℕ → Outcome ParseError (ParsedFrame Oti PayloadId)
  parse_packet bytes expected_pid =
      if not (length bytes == ts_packet_size) then err (wrong_length (length bytes)) else do
        hdr_slice ← unwrap (slice? 0 ts_header_size bytes)
        hdr_bytes ← unwrap (to_header hdr_slice)
        hdr ← parse hdr_bytes
        parse_body bytes expected_pid hdr
