-- ===== src/Enc/Rng.antt =====
-- `Xorshift64` of raptorq/enc/src/main.rs; its state is the number itself.
use live_video.Prelude.{
  ℕ, ◌/◌, ◌%◌, ◌^◌, ◌<◌, ◌≡◌, ◌≢◌, Bool, ◌==◌, bit_and, bit_or, bit_xor, u64, ◌<<<◌, ◌>>>◌, arith,
}
use live_video.Prelude.Bits.{bit_xor-eq-zero, bit_xor_lt, bit_or_nothing, bit_or_lowest}

unfoldable pub new_rng : ℕ → ℕ
new_rng seed = bit_or seed 1

-- The number returned is the new state.
unfoldable pub next_u64 : ℕ → ℕ
next_u64 x =
    let x = bit_xor x (u64 (x <<< 13)) in let x = bit_xor x (x >>> 7) in bit_xor x (u64 (x <<< 17))

unfoldable pub coin : ℕ → Bool × ℕ
unfolding next_u64
coin x = (bit_and (next_u64 x >>> 33) 1 == 1, next_u64 x)

-- The seed does not matter: the first state is odd.
pub new_rng_odd : (seed : ℕ) → new_rng seed % 2 ≡ 1
unfolding new_rng
new_rng_odd seed = ground (arith, bit_or_lowest seed 1)

-- A multiplication by an odd number has no zero modulo a power of two.
left_13_fixed : (x : ℕ) → x ≡ u64 (x <<< 13) → x ≡ 0
left_13_fixed x e = omega arith

left_17_fixed : (x : ℕ) → x ≡ u64 (x <<< 17) → x ≡ 0
left_17_fixed x e = omega arith

right_7_fixed : (x : ℕ) → x ≡ x >>> 7 → x ≡ 0
right_7_fixed x e = omega arith

-- A state of the generator: a number of 64 bits that is not 0.
pub record IsRngState (x : ℕ) : Type 0 where
  pub nonzero : x ≢ 0
  pub fits : x < 2 ^ 64

-- From a state of 64 bits that is not 0, a step keeps to 64 bits and does not reach 0, the state
-- that would never change again.
pub next_u64-IsRngState : (x : ℕ) → IsRngState x → IsRngState (next_u64 x)
unfolding next_u64
next_u64-IsRngState x w =
    let y : ℕ = bit_xor x (u64 (x <<< 13)) in
    let z : ℕ = bit_xor y (y >>> 7) in
    let y_fits : y < 2 ^ 64 = bit_xor_lt 64 x (u64 (x <<< 13)) w.fits (omega arith) in
    let z_fits : z < 2 ^ 64 = bit_xor_lt 64 y (y >>> 7) y_fits (omega arith) in
    record {
      nonzero = λ e.
          let z0 : z ≡ 0 = left_17_fixed z (bit_xor-eq-zero z (u64 (z <<< 17)) e) in
          let y0 : y ≡ 0 = right_7_fixed y (bit_xor-eq-zero y (y >>> 7) z0) in
          w.nonzero (left_13_fixed x (bit_xor-eq-zero x (u64 (x <<< 13)) y0));
      fits = bit_xor_lt 64 z (u64 (z <<< 17)) z_fits (omega arith);
    }

-- The first state is proper for every seed of 64 bits.
pub new_rng-IsRngState : (seed : ℕ) → seed < 2 ^ 64 → IsRngState (new_rng seed)
unfolding new_rng
new_rng-IsRngState seed h = record {
  nonzero = λ e. omega (arith, new_rng_odd seed);
  fits = omega (arith, bit_or_lowest seed 1, bit_or_nothing (seed / 2) (seed / 2) (omega arith));
}
