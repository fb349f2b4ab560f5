-- ===== src/Wire/Header/Fields.antt =====
-- The bit fields of the transport header as arithmetic, for raptorq/common/src/lib.rs.
use live_video.Prelude.{
  ℕ, ◌+◌, ◌*◌, ◌/◌, ◌%◌, ◌^◌, ◌<◌, ◌≡◌, refl, Bool, true, false, ◌==◌, ==_iff, bit_and, bit_or, bit,
  arith, u8, u16, ◌<<<◌, ◌>>>◌,
}
use live_video.Prelude.Bits.{bit_or_fields, bit_and_mask, holds_below, holds_below_lem}
use live_video.Wire.Header.{TsHeader, write, has_flag}

flag_table : ℕ → ℕ → ℕ → Bool
flag_table mask k b = bit (has_flag b mask) == b / 2 ^ k % 2

table_80 : holds_below (flag_table 0x80 7) 256 ≡ true
unfolding holds_below flag_table
table_80 = refl

table_40 : holds_below (flag_table 0x40 6) 256 ≡ true
unfolding holds_below flag_table
table_40 = refl

table_20 : holds_below (flag_table 0x20 5) 256 ≡ true
unfolding holds_below flag_table
table_20 = refl

pub has_flag_80 : (b : ℕ) → b < 256 → bit (has_flag b 0x80) ≡ b / 128
unfolding flag_table
has_flag_80 b h =
    omega (arith, (==_iff _ (b / 128 % 2)).0 (holds_below_lem (flag_table 0x80 7) 256 b h table_80))

pub has_flag_40 : (b : ℕ) → b < 256 → bit (has_flag b 0x40) ≡ b / 64 % 2
unfolding flag_table
has_flag_40 b h = (==_iff _ (b / 64 % 2)).0 (holds_below_lem (flag_table 0x40 6) 256 b h table_40)

pub has_flag_20 : (b : ℕ) → b < 256 → bit (has_flag b 0x20) ≡ b / 32 % 2
unfolding flag_table
has_flag_20 b h = (==_iff _ (b / 32 % 2)).0 (holds_below_lem (flag_table 0x20 5) 256 b h table_20)

-- The three flags and the five bits below them.
three_flags :
    (t p q : Bool) (r : ℕ)
    → r < 32
    → bit_or (bit_or (bit_or (u8 (bit t <<< 7)) (u8 (bit p <<< 6))) (u8 (bit q <<< 5))) r
      ≡ bit t * 128 + bit p * 64 + bit q * 32 + r
three_flags false false false r h = bit_or_fields 5 0 r h
three_flags false false true r h = bit_or_fields 5 1 r h
three_flags false true false r h = bit_or_fields 5 2 r h
three_flags false true true r h = bit_or_fields 5 3 r h
three_flags true false false r h = bit_or_fields 5 4 r h
three_flags true false true r h = bit_or_fields 5 5 r h
three_flags true true false r h = bit_or_fields 5 6 r h
three_flags true true true r h = bit_or_fields 5 7 r h

pub write-b1 :
    (h : TsHeader)
    → (write h).b1
      ≡ bit h.tei * 128 + bit h.payload_unit_start * 64 + bit h.priority * 32 + h.pid / 256 % 32
unfolding write
write-b1 h = rw (bit_and_mask 5 (u8 (h.pid >>> 8))) (
    omega (
      arith,
      three_flags h.tei h.payload_unit_start h.priority (h.pid / 256 % 256 % 32) (omega arith),
    ))

pub write-b2 : (h : TsHeader) → (write h).b2 ≡ h.pid % 256
unfolding write
write-b2 h = omega (arith, bit_and_mask 8 h.pid)

two_fields :
    (s a c : ℕ)
    → s < 4
    → a < 4
    → c < 16
    → bit_or (bit_or (u8 (s <<< 6)) (u8 (a <<< 4))) c ≡ s * 64 + a * 16 + c
two_fields s a c hs ha hc =
    let top : u8 (s <<< 6) ≡ s * 2 ^ 6 = omega arith in
    let mid : u8 (a <<< 4) ≡ a * 16 = omega arith in
    let both : s * 2 ^ 6 + a * 16 ≡ (s * 4 + a) * 2 ^ 4 = omega arith in
    rw (top, mid, bit_or_fields 6 s (a * 16) (omega arith), both)
      (omega (arith, bit_or_fields 4 (s * 4 + a) c (omega arith)))

pub write-b3 :
    (h : TsHeader)
    → (write h).b3 ≡ h.scrambling % 4 * 64 + h.adaptation % 4 * 16 + h.continuity_counter % 16
unfolding write
write-b3 h =
    rw
      (
        bit_and_mask 2 h.scrambling,
        bit_and_mask 2 h.adaptation,
        bit_and_mask 4 h.continuity_counter,
      )
      (two_fields (h.scrambling % 4) (h.adaptation % 4) (h.continuity_counter % 16) (omega arith)
        (omega arith) (omega arith))

-- The thirteen bits of the PID.
pub pid_value :
    (b1 b2 : ℕ) → b2 < 256 → bit_or (u16 (bit_and b1 0x1f <<< 8)) b2 ≡ b1 % 32 * 256 + b2
pid_value b1 b2 h =
    let high : u16 (bit_and b1 0x1f <<< 8) ≡ b1 % 32 * 2 ^ 8 = omega (arith, bit_and_mask 5 b1) in
    rw high (omega (arith, bit_or_fields 8 (b1 % 32) b2 h))
