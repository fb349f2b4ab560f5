-- ===== src/Dec/Gap.antt =====
-- `cc_gap` of raptorq/dec/src/main.rs, and the losses that it infers.
use live_video.Prelude.{
  ℕ, ◌+◌, ◌-◌, ◌%◌, ◌<◌, ◌≡◌, ◌∙◌, ap, arith, bit_and, u8, Option, none, some, zero, suc,
}
use live_video.Prelude.Bits.{bit_and_mask}
use live_video.Wire.Continuity.{advance, advance-value}

-- The gap, and the new `last_cc`. `wrapping_sub` on `u8` adds 256 first.
unfoldable pub cc_gap : Option ℕ → ℕ → ℕ × Option ℕ
cc_gap none cc = (0, some cc)
cc_gap (some prev) cc =
    let expected = bit_and (u8 (prev + 1)) 0x0f in
    (bit_and (u8 (cc + 256 - expected)) 0x0f, some cc)

cc_gap_value :
    (prev cc : ℕ)
    → cc < 256
    → cc_gap (some prev) cc ≡ ((cc + 256 - (prev + 1) % 256 % 16) % 16, some cc)
unfolding cc_gap
cc_gap_value prev cc h =
    rw (bit_and_mask 4 (u8 (prev + 1)), bit_and_mask 4 (u8 (cc + 256 - (prev + 1) % 256 % 16)))
      (ap (λ (n : ℕ). (n, some cc)) (omega arith))

-- The sender's counter after `n` packets.
pub advance_by : ℕ → ℕ → ℕ
advance_by zero c = c
advance_by (suc n) c = advance_by n (advance c).1

advance_by_value : (n c : ℕ) → c < 16 → advance_by n c ≡ (c + n) % 16
unfolding advance_by
advance_by_value zero c h = omega arith
advance_by_value (suc n) c h = omega (arith, advance-value c, advance_by_value n (advance c).1)

-- When `lost` packets vanish between two that arrive, the gap is `lost` modulo 16, whatever the
-- counter of four bits is; so it is exact below 16 losses and 0 when nothing was lost. The packet
-- that arrives becomes the last one.
pub cc_gap-advance_by :
    (lost c : ℕ)
    → c < 16
    → let arrived = advance_by lost (advance c).1 in
      cc_gap (some (advance c).0) arrived ≡ (lost % 16, some arrived)
cc_gap-advance_by lost c h =
    let v = advance-value c in
    let a = advance_by_value lost (advance c).1 (omega (arith, v)) in
    cc_gap_value (advance c).0 (advance_by lost (advance c).1) (omega (arith, a))
    ∙ ap (λ (n : ℕ). (n, some (advance_by lost (advance c).1))) (omega (arith, v, a))
