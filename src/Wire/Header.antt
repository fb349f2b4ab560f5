-- ===== src/Wire/Header.antt =====
-- `ParseError` and `TsHeader` of raptorq/common/src/lib.rs.
pub mod Fields
pub mod RoundTrip
use live_video.Prelude.{
  ℕ, ◌+◌, ◌≡◌, ◌<◌, Bool, true, not, ◌==◌, if◌then◌else◌, bit_and, bit_or, u8, u16, ◌<<<◌, ◌>>>◌,
  bit, Outcome, ok, err, List, [], ◌∷◌,
}
use live_video.Wire.Constants.{ts_sync_byte}

pub data ParseError : Type 0 where
  wrong_length : ℕ → ParseError
  bad_sync : ParseError
  transport_error : ParseError
  wrong_pid : ℕ → ℕ → ParseError
  unknown_frame_type : ℕ → ParseError

-- `[u8; TS_HEADER_SIZE]`.
pub record HeaderBytes : Type 0 where
  pub b0 : ℕ
  pub b1 : ℕ
  pub b2 : ℕ
  pub b3 : ℕ

abbrev pub to_list : HeaderBytes → List ℕ
to_list h = h.b0 ∷ h.b1 ∷ h.b2 ∷ h.b3 ∷ []

pub record TsHeader : Type 0 where
  pub tei : Bool
  pub payload_unit_start : Bool
  pub priority : Bool
  pub pid : ℕ
  pub scrambling : ℕ
  pub adaptation : ℕ
  pub continuity_counter : ℕ

-- The test `byte & mask != 0`.
abbrev pub has_flag : ℕ → ℕ → Bool
has_flag byte mask = not (bit_and byte mask == 0)

-- The fields of a header whose sync byte is right.
unfoldable pub read_fields : HeaderBytes → TsHeader
read_fields bytes = record {
  tei = has_flag bytes.b1 0x80;
  payload_unit_start = has_flag bytes.b1 0x40;
  priority = has_flag bytes.b1 0x20;
  pid = bit_or (u16 (bit_and bytes.b1 0x1f <<< 8)) bytes.b2;
  scrambling = bit_and (bytes.b3 >>> 6) 0x03;
  adaptation = bit_and (bytes.b3 >>> 4) 0x03;
  continuity_counter = bit_and bytes.b3 0x0f;
}

unfoldable pub parse : HeaderBytes → Outcome ParseError TsHeader
parse bytes = if not (bytes.b0 == ts_sync_byte) then err bad_sync else ok (read_fields bytes)

unfoldable pub write : TsHeader → HeaderBytes
write h = record {
  b0 = ts_sync_byte;
  b1 =
      bit_or
        (bit_or (bit_or (u8 (bit h.tei <<< 7)) (u8 (bit h.payload_unit_start <<< 6)))
          (u8 (bit h.priority <<< 5)))
        (bit_and (u8 (h.pid >>> 8)) 0x1f);
  b2 = u8 (bit_and h.pid 0xff);
  b3 =
      bit_or (bit_or (u8 (bit_and h.scrambling 0x03 <<< 6)) (u8 (bit_and h.adaptation 0x03 <<< 4)))
        (bit_and h.continuity_counter 0x0f);
}

-- The widths of the fields on the wire: 13 bits of PID, 2, 2 and 4 bits.
pub record IsWire (h : TsHeader) : Type 0 where
  pub pid_fits : h.pid < 8192
  pub scrambling_fits : h.scrambling < 4
  pub adaptation_fits : h.adaptation < 4
  pub counter_fits : h.continuity_counter < 16

-- Four bytes.
pub record IsBytes (b : HeaderBytes) : Type 0 where
  pub b0_fits : b.b0 < 256
  pub b1_fits : b.b1 < 256
  pub b2_fits : b.b2 < 256
  pub b3_fits : b.b3 < 256
