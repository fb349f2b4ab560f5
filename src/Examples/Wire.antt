-- ===== src/Examples/Wire.antt =====
-- Examples for raptorq/common/src/lib.rs and the arguments of the programs.
use live_video.Prelude.{
  ℕ, ◌%◌, ◌≡◌, refl, true, false, List, [], ◌∷◌, map, some, ok, length, replicate, arith,
}
use live_video.Wire.Header.{TsHeader, HeaderBytes, IsBytes, IsWire, parse, write, read_fields}
use live_video.Wire.Header.RoundTrip.{wire_part, parse-write, write-parse}
use live_video.Wire.Continuity.{advance}
use live_video.Wire.Frame.Build.{build_noop_packet, build_data_packet}
use live_video.Wire.Frame.Parse.{data_frame, noop_frame, parse_packet}
use live_video.Wire.Frame.Layout.{Fits}
use live_video.Wire.Frame.RoundTrip.{
  on_pid, parse_packet-build_noop_packet, parse_packet-build_data_packet,
}
use live_video.Wire.Frame.Soundness.{packet_reference, parse_packet-reference}
use live_video.Dec.Gap.{cc_gap, advance_by, cc_gap-advance_by}
use live_video.Dec.Sbn.{unwrap_sbn, unwrap_sbn_clamped, unwrap_sbn-mod}
use live_video.Pid.{parse_pid}
use live_video.Pid.Digits.{hex_char, in_u16, value_from, parse_pid-hex}
use live_video.Examples.Toy.{toy, all_bytes_sound, small_oti, small_packet}

abbrev wide_header : TsHeader
wide_header = record {
  tei = false;
  payload_unit_start = true;
  priority = false;
  pid = 0x2100;
  scrambling = 1;
  adaptation = 1;
  continuity_counter = 21;
}

parse-write_example : parse (write wide_header) ≡ ok (wire_part wide_header)
parse-write_example = parse-write wide_header

abbrev some_bytes : HeaderBytes
some_bytes = record { b0 = 0x47; b1 = 0x41; b2 = 0x00; b3 = 0x1a }

abbrev some_header : TsHeader
some_header = record {
  tei = false;
  payload_unit_start = true;
  priority = false;
  pid = 0x100;
  scrambling = 0;
  adaptation = 1;
  continuity_counter = 10;
}

parse-some_bytes : parse some_bytes ≡ ok some_header
unfolding parse read_fields
parse-some_bytes = refl

some_bytes-IsBytes : IsBytes some_bytes
some_bytes-IsBytes = record {
  b0_fits = omega arith;
  b1_fits = omega arith;
  b2_fits = omega arith;
  b3_fits = omega arith;
}

write-parse_example : (write some_header ≡ some_bytes) × IsWire some_header
write-parse_example = write-parse some_bytes some_header some_bytes-IsBytes parse-some_bytes

parse_packet-build_noop_packet_example :
    (bytes : List ℕ) × (build_noop_packet 0x100 5 (replicate 188 0) ≡ some bytes)
    × (length bytes ≡ 188)
    × (parse_packet toy bytes 0x100 ≡ on_pid toy 0x100 0x100 (noop_frame (5 % 16)))
parse_packet-build_noop_packet_example =
    parse_packet-build_noop_packet toy 0x100 5 0x100 (replicate 188 0) refl

small_packet-Fits : Fits toy small_oti (small_packet 3)
small_packet-Fits = record { oti_length = refl; id_length = refl; symbol_length = refl }

parse_packet-build_data_packet_example :
    (bytes : List ℕ) × (build_data_packet toy 0x100 9 small_oti (small_packet 3) (replicate 188 0)
      ≡ some bytes)
    × (length bytes ≡ 188)
    × (parse_packet toy bytes 0x100
        ≡ on_pid toy 0x100 0x100 (data_frame (9 % 16) small_oti (3, 0) (replicate 167 7)))
parse_packet-build_data_packet_example =
    parse_packet-build_data_packet toy 0x100 9 0x100 small_oti (small_packet 3) (replicate 188 0)
      small_packet-Fits refl

-- A stuffing packet with counter 5 on the PID 0x100.
abbrev noop_packet : List ℕ
noop_packet = 0x47 ∷ 0x01 ∷ 0x00 ∷ 0x15 ∷ 0x02 ∷ replicate 183 0xff

parse_packet-reference_example :
    parse_packet toy noop_packet 0x100 ≡ packet_reference toy noop_packet 0x100
parse_packet-reference_example =
    parse_packet-reference toy noop_packet 0x100 (all_bytes_sound noop_packet refl)

cc_gap-advance_by_example :
    cc_gap (some (advance 14).0) (advance_by 3 (advance 14).1)
    ≡ (3 % 16, some (advance_by 3 (advance 14).1))
cc_gap-advance_by_example = cc_gap-advance_by 3 14 (omega arith)

unwrap_sbn_clamped_example : unwrap_sbn 0 200 ≡ 0
unwrap_sbn_clamped_example = unwrap_sbn_clamped 0 200 (omega arith) (omega arith) (omega arith)

unwrap_sbn-mod_example : unwrap_sbn 500 (600 % 256) ≡ 600
unwrap_sbn-mod_example = unwrap_sbn-mod 500 600 (omega arith) (omega arith) (omega arith)

parse_pid-hex_example :
    parse_pid (0x30 ∷ 0x78 ∷ map hex_char (1 ∷ 15 ∷ 0 ∷ []))
    ≡ in_u16 (value_from 0 (1 ∷ 15 ∷ 0 ∷ []))
parse_pid-hex_example =
    parse_pid-hex 1 (15 ∷ 0 ∷ []) (omega arith, (omega arith, (omega arith, tt)))
