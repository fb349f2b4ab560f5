-- ===== src/Prelude/Bits.antt =====
-- The bit operations at variables: a law for the lowest digit, masks, disjoint fields, and
-- cancellation of exclusive or.
use Prim.Native.Nat.{
  ℕ, zero, suc, ◌+◌, ◌-◌, ◌*◌, ◌/◌, ◌%◌, ◌^◌, ◌≤◌, ◌<◌, min, max, bit_and, bit_or, bit_xor, digits,
  differ, bitwise, bit_and-bitwise, bit_or-bitwise, bit_xor-bitwise,
}
use mathlib.Core.Path.{◌≡◌, refl, ap, sym, ◌∙◌}
use mathlib.Core.Bool.{Bool, true, ◌&&◌}
use native.Mathlib.Nat.{le_refl, pow-suc, one-le-pow}
use native.Mathlib.Omega.{arith}

module _ (z : ℕ → ℕ) (f : ℕ → ℕ → ℕ) where
  -- Any two amounts of fuel from the first number on give the same result.
  digits_enough : (a b i j : ℕ) → a ≤ i → a ≤ j → digits z f i a b ≡ digits z f j a b
  digits_enough zero b zero zero ai aj = refl
  digits_enough zero b (suc i) zero ai aj = refl
  digits_enough zero b zero (suc j) ai aj = refl
  digits_enough zero b (suc i) (suc j) ai aj = refl
  digits_enough (suc a) b zero j ai aj = absurd (omega arith)
  digits_enough (suc a) b (suc i) zero ai aj = absurd (omega arith)
  digits_enough (suc a) b (suc i) (suc j) ai aj =
      let half = digits_enough (suc a / 2) (b / 2) i j (omega arith) (omega arith) in
      omega (arith, half)

  -- The lowest digit of the result is that of the lowest digits.
  bitwise_lowest :
      (n b : ℕ)
      → bitwise z f (suc n) b ≡ f (suc n % 2) (b % 2) + 2 * bitwise z f (suc n / 2) (b / 2)
  bitwise_lowest n b =
      let half = suc n / 2 in
      let enough = digits_enough half (b / 2) n half (omega arith) (omega arith) in
      omega (arith, enough)

pub bit_xor_lowest : (a b : ℕ) → bit_xor a b ≡ differ (a % 2) (b % 2) + 2 * bit_xor (a / 2) (b / 2)
bit_xor_lowest zero b = simp bit_xor-bitwise (omega arith)
bit_xor_lowest (suc n) b = simp bit_xor-bitwise (bitwise_lowest (λ x. x) differ n b)

pub bit_or_lowest : (a b : ℕ) → bit_or a b ≡ max (a % 2) (b % 2) + 2 * bit_or (a / 2) (b / 2)
bit_or_lowest zero b = simp bit_or-bitwise (omega arith)
bit_or_lowest (suc n) b = simp bit_or-bitwise (bitwise_lowest (λ x. x) max n b)

bit_and_lowest : (a b : ℕ) → bit_and a b ≡ min (a % 2) (b % 2) + 2 * bit_and (a / 2) (b / 2)
bit_and_lowest zero b = simp bit_and-bitwise (omega arith)
bit_and_lowest (suc n) b = simp bit_and-bitwise (bitwise_lowest (λ x. 0) min n b)

-- Or with 0 and and with 0, by induction on a bound of the other number.
pub bit_or_nothing : (bound x : ℕ) → x ≤ bound → bit_or x 0 ≡ x
bit_or_nothing bound zero le = refl
bit_or_nothing zero (suc x) le = absurd (omega arith)
bit_or_nothing (suc bound) (suc x) le =
    let half = bit_or_nothing bound (suc x / 2) (omega arith) in
    omega (arith, half, bit_or_lowest (suc x) 0)

bit_and_nothing : (bound x : ℕ) → x ≤ bound → bit_and x 0 ≡ 0
bit_and_nothing bound zero le = refl
bit_and_nothing zero (suc x) le = absurd (omega arith)
bit_and_nothing (suc bound) (suc x) le =
    let half = bit_and_nothing bound (suc x / 2) (omega arith) in
    omega (arith, half, bit_and_lowest (suc x) 0)

-- A field that is shifted up once more is doubled.
shifted_twice : (q k : ℕ) → q * 2 ^ suc k ≡ 2 * (q * 2 ^ k)
shifted_twice q k = omega (arith, ap (λ (t : ℕ). q * t) (pow-suc 2 k))

-- `(q << k) | r` is a sum when `r` fits `k` bits.
pub bit_or_fields : (k q r : ℕ) → r < 2 ^ k → bit_or (q * 2 ^ k) r ≡ q * 2 ^ k + r
bit_or_fields zero q r fits = ground (arith, bit_or_nothing q q (le_refl q))
bit_or_fields (suc k) q r fits =
    let upper = bit_or_fields k q (r / 2) (omega (arith, pow-suc 2 k)) in
    ground (arith, upper, shifted_twice q k, pow-suc 2 k, bit_or_lowest (q * 2 ^ suc k) r)

bit_and_low : (k q r : ℕ) → r < 2 ^ k → bit_and (q * 2 ^ k + r) (2 ^ k - 1) ≡ r
bit_and_low zero q r fits = rw (bit_and_nothing (q * 1 + r) (q * 1 + r) (le_refl _)) (omega arith)
bit_and_low (suc k) q r fits =
    let upper = bit_and_low k q (r / 2) (omega (arith, pow-suc 2 k)) in
    let lowest = bit_and_lowest (q * 2 ^ suc k + r) (2 ^ suc k - 1) in
    ground (arith, upper, lowest, shifted_twice q k, pow-suc 2 k, one-le-pow k 2)

-- `a & (2^k - 1)` is the remainder by `2 ^ k`.
pub bit_and_mask : (k a : ℕ) → bit_and a (2 ^ k - 1) ≡ a % 2 ^ k
bit_and_mask k a =
    let split = bit_and_low k (a / 2 ^ k) (a % 2 ^ k) in ground (arith, one-le-pow k 2, split)

differ-eq-zero : (x y : ℕ) → differ x y ≡ 0 → x ≡ y
differ-eq-zero zero y h = sym h
differ-eq-zero (suc x) zero h = h
differ-eq-zero (suc x) (suc y) h = ap suc (differ-eq-zero x y h)

bit_xor-eq-zero_fuel : (n a b : ℕ) → a ≤ n → b ≤ n → bit_xor a b ≡ 0 → a ≡ b
bit_xor-eq-zero_fuel zero a b p q h = omega arith
bit_xor-eq-zero_fuel (suc n) a b p q h =
    let step : differ (a % 2) (b % 2) + 2 * bit_xor (a / 2) (b / 2) ≡ 0 =
      sym (bit_xor_lowest a b) ∙ h in
    omega (
      arith,
      differ-eq-zero (a % 2) (b % 2) (omega arith),
      bit_xor-eq-zero_fuel n (a / 2) (b / 2) (omega arith) (omega arith) (omega arith),
    )

-- Exclusive or of two numbers is 0 only if they are equal.
pub bit_xor-eq-zero : (a b : ℕ) → bit_xor a b ≡ 0 → a ≡ b
bit_xor-eq-zero a b h = bit_xor-eq-zero_fuel (a + b) a b (omega arith) (omega arith) h

differ_le : (x y : ℕ) → x < 2 → y < 2 → differ x y < 2
differ_le zero y p q = q
differ_le (suc x) zero p q = p
differ_le (suc x) (suc y) p q = differ_le x y (omega arith) (omega arith)

-- Exclusive or keeps to the width of its arguments.
pub bit_xor_lt : (k a b : ℕ) → a < 2 ^ k → b < 2 ^ k → bit_xor a b < 2 ^ k
bit_xor_lt zero zero zero p q = omega arith
bit_xor_lt zero zero (suc b) p q = absurd (omega arith)
bit_xor_lt zero (suc a) b p q = absurd (omega arith)
bit_xor_lt (suc k) a b p q = omega (
  arith,
  pow-suc 2 k,
  bit_xor_lowest a b,
  differ_le (a % 2) (b % 2) (omega arith) (omega arith),
  bit_xor_lt k (a / 2) (b / 2) (omega (arith, pow-suc 2 k)) (omega (arith, pow-suc 2 k)),
)

-- A test of every number below a bound, by evaluation.
unfoldable pub holds_below : (ℕ → Bool) → ℕ → Bool
holds_below p zero = true
holds_below p (suc m) = holds_below p m && p m

pub holds_below_lem :
    (p : ℕ → Bool) (bound i : ℕ) → i < bound → holds_below p bound ≡ true → p i ≡ true
unfolding holds_below
holds_below_lem p zero i less all = absurd (omega arith)
holds_below_lem p (suc m) i less all = ground (arith, holds_below_lem p m i)
