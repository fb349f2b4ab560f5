-- ===== src/Wire/Header/RoundTrip.antt =====
-- Printing and parsing the transport header of raptorq/common/src/lib.rs.
use live_video.Prelude.{◌+◌, ◌*◌, ◌/◌, ◌%◌, ◌≤◌, ◌≡◌, sym, ap, subst, Bool, bit, arith, ok}
use live_video.Prelude.Bits.{bit_and_mask}
use live_video.Wire.Header.{HeaderBytes, TsHeader, IsBytes, IsWire, parse, read_fields, write}
use live_video.Wire.Header.Fields.{
  has_flag_80, has_flag_40, has_flag_20, write-b1, write-b2, write-b3, pid_value,
}

bit_injective : (a b : Bool) → bit a ≡ bit b → a ≡ b
bit_injective a b h = ground arith

bit_bounded : (a : Bool) → bit a ≤ 1
bit_bounded a = ground arith

-- A header as the wire carries it: each field cut to its width.
unfoldable pub wire_part : TsHeader → TsHeader
wire_part h = record h {
  pid = h.pid % 8192;
  scrambling = h.scrambling % 4;
  adaptation = h.adaptation % 4;
  continuity_counter = h.continuity_counter % 16;
}

-- Equal bits and equal numbers make equal headers.
TsHeader_ext :
    (g h : TsHeader)
    → bit g.tei ≡ bit h.tei
    → bit g.payload_unit_start ≡ bit h.payload_unit_start
    → bit g.priority ≡ bit h.priority
    → g.pid ≡ h.pid
    → g.scrambling ≡ h.scrambling
    → g.adaptation ≡ h.adaptation
    → g.continuity_counter ≡ h.continuity_counter
    → g ≡ h
TsHeader_ext g h t p q i s a c = ground (
  arith,
  bit_injective g.tei h.tei t,
  bit_injective g.payload_unit_start h.payload_unit_start p,
  bit_injective g.priority h.priority q,
)

-- The fields of four bytes, as arithmetic.
pub record Reads (b : HeaderBytes) (h : TsHeader) : Type 0 where
  pub tei_bit : bit h.tei ≡ b.b1 / 128
  pub start_bit : bit h.payload_unit_start ≡ b.b1 / 64 % 2
  pub priority_bit : bit h.priority ≡ b.b1 / 32 % 2
  pub pid_bits : h.pid ≡ b.b1 % 32 * 256 + b.b2
  pub scrambling_bits : h.scrambling ≡ b.b3 / 64 % 4
  pub adaptation_bits : h.adaptation ≡ b.b3 / 16 % 4
  pub counter_bits : h.continuity_counter ≡ b.b3 % 16

pub read_fields-Reads : (b : HeaderBytes) → IsBytes b → Reads b (read_fields b)
unfolding read_fields
read_fields-Reads b bytes = record {
  tei_bit = has_flag_80 b.b1 bytes.b1_fits;
  start_bit = has_flag_40 b.b1 bytes.b1_fits;
  priority_bit = has_flag_20 b.b1 bytes.b1_fits;
  pid_bits = pid_value b.b1 b.b2 bytes.b2_fits;
  scrambling_bits = bit_and_mask 2 (b.b3 / 64);
  adaptation_bits = bit_and_mask 2 (b.b3 / 16);
  counter_bits = bit_and_mask 4 b.b3;
}

write-IsBytes : (h : TsHeader) → IsBytes (write h)
write-IsBytes h = record {
  b0_fits = unfold write in omega arith;
  b1_fits = omega (
    arith,
    write-b1 h,
    bit_bounded h.tei,
    bit_bounded h.payload_unit_start,
    bit_bounded h.priority,
  );
  b2_fits = omega (arith, write-b2 h);
  b3_fits = omega (arith, write-b3 h);
}

read_fields-write : (h : TsHeader) → read_fields (write h) ≡ wire_part h
unfolding wire_part
read_fields-write h =
    let r = read_fields-Reads (write h) (write-IsBytes h) in
    let t = bit_bounded h.tei in
    let p = bit_bounded h.payload_unit_start in
    let q = bit_bounded h.priority in
    TsHeader_ext (read_fields (write h)) (wire_part h) (omega (arith, r.tei_bit, write-b1 h))
      (omega (arith, r.start_bit, write-b1 h)) (omega (arith, r.priority_bit, write-b1 h))
      (omega (arith, r.pid_bits, write-b1 h, write-b2 h))
      (omega (arith, r.scrambling_bits, write-b3 h)) (omega (arith, r.adaptation_bits, write-b3 h))
      (omega (arith, r.counter_bits, write-b3 h))

-- Every written header is accepted, and comes back with its fields cut to their widths.
pub parse-write : (h : TsHeader) → parse (write h) ≡ ok (wire_part h)
unfolding parse write
parse-write h = ap ok (read_fields-write h)

HeaderBytes_ext :
    (a b : HeaderBytes) → a.b0 ≡ b.b0 → a.b1 ≡ b.b1 → a.b2 ≡ b.b2 → a.b3 ≡ b.b3 → a ≡ b
HeaderBytes_ext a b p q r s = ground arith

Reads-write : (b : HeaderBytes) (h : TsHeader) → IsBytes b → b.b0 ≡ 0x47 → Reads b h → write h ≡ b
Reads-write b h bytes sync r =
    HeaderBytes_ext (write h) b (unfold write in sym sync) (omega (arith, write-b1 h, r, bytes))
      (omega (arith, write-b2 h, r, bytes)) (omega (arith, write-b3 h, r, bytes))

parse-eq-ok :
    (b : HeaderBytes) (h : TsHeader) → parse b ≡ ok h → (b.b0 ≡ 0x47) × (read_fields b ≡ h)
unfolding parse
parse-eq-ok b h e = ground arith

Reads-IsWire : (b : HeaderBytes) (h : TsHeader) → IsBytes b → Reads b h → IsWire h
Reads-IsWire b h bytes r = omega arith

-- An accepted header of four bytes has fields that fit, and is written back as the very bytes it
-- came from.
pub write-parse :
    (b : HeaderBytes) (h : TsHeader) → IsBytes b → parse b ≡ ok h → (write h ≡ b) × IsWire h
write-parse b h bytes e =
    let (sync, same) = parse-eq-ok b h e in
    let r : Reads b h = subst (Reads b) same (read_fields-Reads b bytes) in
    (Reads-write b h bytes sync r, Reads-IsWire b h bytes r)
