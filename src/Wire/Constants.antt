-- ===== src/Wire/Constants.antt =====
-- The constants of raptorq/common/src/lib.rs.
use live_video.Prelude.{ℕ, ◌-◌, ◌*◌}

abbrev pub ts_packet_size : ℕ
ts_packet_size = 188

abbrev pub ts_sync_byte : ℕ
ts_sync_byte = 0x47

abbrev pub ts_header_size : ℕ
ts_header_size = 4

abbrev pub ts_payload_size : ℕ
ts_payload_size = ts_packet_size - ts_header_size

abbrev pub frame_type_offset : ℕ
frame_type_offset = 0

abbrev pub frame_oti_offset : ℕ
frame_oti_offset = 1

abbrev pub frame_payload_id_offset : ℕ
frame_payload_id_offset = 13

abbrev pub frame_symbol_offset : ℕ
frame_symbol_offset = 17

abbrev pub frame_overhead : ℕ
frame_overhead = frame_symbol_offset

abbrev pub symbol_size : ℕ
symbol_size = ts_payload_size - frame_overhead

abbrev pub frame_type_data : ℕ
frame_type_data = 0x01

abbrev pub frame_type_noop : ℕ
frame_type_noop = 0x02

abbrev pub default_block_symbols : ℕ
default_block_symbols = 392

abbrev pub default_block_size : ℕ
default_block_size = default_block_symbols * symbol_size
