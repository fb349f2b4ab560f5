-- ===== src/Wire/Continuity.antt =====
-- `ContinuityCounter` of raptorq/common/src/lib.rs.
use live_video.Prelude.{ℕ, ◌+◌, ◌%◌, ◌≡◌, refl, arith, bit_and, u8}
use live_video.Prelude.Bits.{bit_and_mask}

-- The value handed out, and the counter after it.
unfoldable pub advance : ℕ → ℕ × ℕ
advance c = (c, bit_and (u8 (c + 1)) 0x0f)

pub advance-value : (c : ℕ) → ((advance c).0 ≡ c) × ((advance c).1 ≡ (c + 1) % 16)
unfolding advance
advance-value c = (refl, omega (arith, bit_and_mask 4 ((c + 1) % 256)))
