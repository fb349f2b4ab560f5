-- ===== src/Wire/Frame/Build.antt =====
-- `build_data_packet`, `build_noop_packet` and `make_block_oti` of raptorq/common/src/lib.rs.
-- `none` is the panic of a slice check.
use live_video.Prelude.{ℕ, ◌+◌, ◌-◌, List, ◌++◌, Option, some, false, length, take, replicate}
use live_video.Prelude.Slices.{◌>>=◌, write_at, write_byte}
use live_video.RaptorQ.{RaptorQ}
use live_video.Wire.Constants.{
  ts_header_size, frame_type_offset, frame_oti_offset, frame_payload_id_offset, frame_symbol_offset,
  symbol_size, frame_type_data, frame_type_noop,
}
use live_video.Wire.Header.{TsHeader, write, to_list}

-- The header of every packet that the encoder builds.
unfoldable pub packet_header : ℕ → ℕ → TsHeader
packet_header pid cc = record {
  tei = false;
  payload_unit_start = false;
  priority = false;
  pid = pid;
  scrambling = 0;
  adaptation = 1;
  continuity_counter = cc;
}

-- `for b in &mut out[off..] { *b = v; }`
unfoldable pub fill_from : ℕ → List ℕ → ℕ → List ℕ
fill_from off out v = take off out ++ replicate (length out - off) v

unfoldable pub build_noop_packet : ℕ → ℕ → List ℕ → Option (List ℕ)
unfolding packet_header fill_from
build_noop_packet pid cc out = do
  out ← write_at 0 ts_header_size out (to_list (write (packet_header pid cc)))
  out ← write_byte ts_header_size out frame_type_noop
  some (fill_from (ts_header_size + 1) out 0xff)

module _ (q : RaptorQ) where
  open q use {Oti, Packet, new_oti, serialize_oti, serialize_id, payload_id, symbol}

  unfoldable pub build_data_packet : ℕ → ℕ → Oti → Packet → List ℕ → Option (List ℕ)
  unfolding packet_header
  build_data_packet pid cc oti pkt out = do
    out ← write_at 0 ts_header_size out (to_list (write (packet_header pid cc)))
    out ← write_byte (ts_header_size + frame_type_offset) out frame_type_data
    out ← write_at (ts_header_size + frame_oti_offset) 12 out (serialize_oti oti)
    out ← write_at (ts_header_size + frame_payload_id_offset) 4 out (serialize_id (payload_id pkt))
    write_at (ts_header_size + frame_symbol_offset) symbol_size out (symbol pkt)

  unfoldable pub make_block_oti : ℕ → ℕ → Oti
  make_block_oti block_size symbol_size = new_oti block_size symbol_size 1 1 1
