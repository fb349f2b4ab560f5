-- ===== src/Dec/Sbn.antt =====
-- `unwrap_sbn` of raptorq/dec/src/main.rs.
use live_video.Prelude.{ℕ, ◌+◌, ◌-◌, ◌%◌, ◌^◌, ◌<◌, ◌≤◌, ◌≡◌, arith, bit_and, u8}
use live_video.Prelude.Int.{pos_part, as_i8, as_i64, add_i64}
use live_video.Prelude.Bits.{bit_and_mask}

unfoldable pub unwrap_sbn : ℕ → ℕ → ℕ
unwrap_sbn cursor sbn_u8 =
    let cursor_low = u8 (bit_and cursor 0xff) in
    let diff = as_i8 (u8 (sbn_u8 + 256 - cursor_low)) in pos_part (add_i64 (as_i64 cursor) diff)

pub unwrap_sbn_lem :
    (cursor sbn : ℕ)
    → cursor < 2 ^ 62
    → sbn < 256
    → (cursor + 128 ≤ sbn → unwrap_sbn cursor sbn ≡ 0)
      × (sbn < cursor + 128
          → (unwrap_sbn cursor sbn % 256 ≡ sbn)
            × (unwrap_sbn cursor sbn < cursor + 128)
            × (cursor ≤ unwrap_sbn cursor sbn + 128))
unfolding unwrap_sbn
unwrap_sbn_lem cursor sbn h s = rw (bit_and_mask 8 cursor) (ground arith)

-- With a cursor below 2^62, a block number of one byte from the cursor plus 128 on, which only a
-- cursor below 128 leaves room for, is clamped to 0: to the block at the cursor, if that is 0.
pub unwrap_sbn_clamped :
    (cursor sbn : ℕ) → cursor < 2 ^ 62 → sbn < 256 → cursor + 128 ≤ sbn → unwrap_sbn cursor sbn ≡ 0
unwrap_sbn_clamped cursor sbn h s far = (unwrap_sbn_lem cursor sbn h s).0 far

-- With a cursor below 2^62, a logical block number within 128 below and 127 above the cursor is
-- recovered from its low eight bits.
pub unwrap_sbn-mod :
    (cursor logical : ℕ)
    → cursor < 2 ^ 62
    → cursor ≤ logical + 128
    → logical < cursor + 128
    → unwrap_sbn cursor (logical % 256) ≡ logical
unwrap_sbn-mod cursor logical h lo hi =
    omega (arith, (unwrap_sbn_lem cursor (logical % 256) h (omega arith)).1 (omega arith))
