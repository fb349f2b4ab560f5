-- ===== src/Enc/Args.antt =====
-- The checks of `main` in raptorq/enc/src/main.rs, and the OTI that it makes. The tests on
-- floating point numbers are arguments.
use live_video.Prelude.{
  ℕ, ◌/◌, ◌%◌, ◌^◌, ◌≤◌, ◌<◌, ◌≡◌, ◌↔◌, sym, refl, ap, Bool, true, false, not, ◌||◌, ◌==◌,
  if◌then◌else◌, u32, Outcome, ok, err, arith,
}
use live_video.RaptorQ.{RaptorQ}
use live_video.Wire.Constants.{symbol_size}
use live_video.Wire.Frame.Build.{make_block_oti}
use live_video.Dec.Oti.{oti_is_sane, oti_is_sane_iff}

-- Which argument is refused.
pub data ArgsError : Type 0 where
  bad_block_size : ArgsError
  bad_repair_overhead : ArgsError
  bad_max_repair_overhead : ArgsError
  zero_rate : ArgsError

-- The arguments; the two flags say that an overhead passes its test.
pub record Args : Type 0 where
  pub block_size : ℕ
  pub repair_passes : Bool
  pub max_repair_passes : Bool
  pub rate : ℕ

-- The number of source symbols of a block, if the arguments are accepted.
unfoldable pub check_args : Args → Outcome ArgsError ℕ
check_args a =
    if (a.block_size == 0) || not (a.block_size % symbol_size == 0)
    then err bad_block_size
    else if not a.repair_passes
    then err bad_repair_overhead
    else if not a.max_repair_passes
    then err bad_max_repair_overhead
    else if a.rate == 0
    then err zero_rate
    else ok (u32 (a.block_size / symbol_size))

abbrev ok_or : Outcome ArgsError ℕ → ℕ → ℕ
ok_or (ok k) d = k
ok_or r d = d

-- Accepted arguments: the block is `k` symbols and the rate is positive.
pub record IsAccepted (a : Args) (k : ℕ) : Type 0 where
  pub whole : a.block_size % 167 ≡ 0
  pub nonempty : 0 < a.block_size
  pub symbols : k ≡ u32 (a.block_size / 167)
  pub paced : 0 < a.rate

-- The chain of checks ends well only if each is passed.
all_pass :
    (size repair max_repair rate : Bool) (n k : ℕ)
    → (if size
        then err bad_block_size
        else if not repair
        then err bad_repair_overhead
        else if not max_repair
        then err bad_max_repair_overhead
        else if rate
        then err zero_rate
        else ok n)
      ≡ ok k
    → (size ≡ false) × (rate ≡ false) × (k ≡ n)
all_pass true repair max_repair rate n k e = cc
all_pass false false max_repair rate n k e = cc
all_pass false true false rate n k e = cc
all_pass false true true true n k e = cc
all_pass false true true false n k e = (refl, refl, sym (ap (λ r. ok_or r k) e))

check_args-IsAccepted : (a : Args) (k : ℕ) → check_args a ≡ ok k → IsAccepted a k
unfolding check_args
check_args-IsAccepted a k e =
    let (size, rate, symbols) =
      all_pass ((a.block_size == 0) || not (a.block_size % 167 == 0)) a.repair_passes
        a.max_repair_passes (a.rate == 0) (u32 (a.block_size / 167)) k e in
    record {
      whole = ground arith;
      nonempty = ground arith;
      symbols = symbols;
      paced = ground arith;
    }

module _ (q : RaptorQ) where
  open q use {new_oti, transfer_length, symbol_size as oti_symbol_size}

  -- What the crate documents of an OTI: it keeps the block size and the symbol size.
  abbrev pub KeepsSizes : ℕ → ℕ → Type 0
  KeepsSizes n s =
      (transfer_length (new_oti n s 1 1 1) ≡ n) × (oti_symbol_size (new_oti n s 1 1 1) ≡ s)

  -- For a crate whose OTI keeps the sizes it is made with, and arguments that the encoder accepts, with `k`
  -- symbols to a block and fewer than 2^32: the rate is positive, and the decoder takes the
  -- encoder's OTI exactly when `k` is at most 56403, a limit that the encoder does not check.
  pub check_args-oti_is_sane :
      (a : Args) (k : ℕ)
      → KeepsSizes a.block_size 167
      → check_args a ≡ ok k
      → a.block_size / 167 < 2 ^ 32
      → (0 < a.rate) × ((oti_is_sane q (make_block_oti q a.block_size 167) ≡ true) ↔ (k ≤ 56403))
  unfolding make_block_oti
  check_args-oti_is_sane a k keeps e small =
      let w = check_args-IsAccepted a k e in
      let (transfer, symbol) = keeps in
      let sane = oti_is_sane_iff q (new_oti a.block_size 167 1 1 1) in
      (
        w.paced,
        (
          λ h.
              let (n, whole, low, high) = (sane.0 h).1 in
              omega (arith, transfer, whole, high, w.symbols),
          λ h. sane.1 (
            symbol,
            (
              k,
              omega (arith, transfer, w.symbols, w.whole),
              omega (arith, w.symbols, w.whole, w.nonempty),
              h,
            ),
          ),
        ),
      )
