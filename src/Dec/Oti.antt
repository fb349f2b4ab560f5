-- ===== src/Dec/Oti.antt =====
-- `oti_is_sane` of raptorq/dec/src/main.rs.
use live_video.Prelude.{
  ℕ, ◌*◌, ◌/◌, ◌%◌, ◌≤◌, ◌≡◌, ◌↔◌, Bool, true, false, ◌&&◌, ltb, leb, ◌==◌, not, if◌then◌else◌,
  arith,
}
use live_video.RaptorQ.{RaptorQ}
use live_video.Wire.Constants.{symbol_size}

-- The largest number of source symbols that the crate's decoder takes.
abbrev pub max_source_symbols_per_block : ℕ
max_source_symbols_per_block = 56403

module _ (q : RaptorQ) where
  open q use {Oti, transfer_length, symbol_size as oti_symbol_size}

  unfoldable pub oti_is_sane : Oti → Bool
  oti_is_sane oti =
      if not (oti_symbol_size oti == symbol_size)
      then false
      else (ltb 0 (transfer_length oti)
          && (transfer_length oti % symbol_size == 0)
          && leb (transfer_length oti / symbol_size) max_source_symbols_per_block)

  -- An OTI is sane exactly when its symbols have the wire's size and its block is a whole
  -- number of them, from 1 up to the crate's limit.
  pub oti_is_sane_iff :
      (oti : Oti)
      → (oti_is_sane oti ≡ true) ↔ (
          (oti_symbol_size oti ≡ 167)
          × ((k : ℕ) × (transfer_length oti ≡ k * 167) × (1 ≤ k) × (k ≤ 56403)))
  unfolding oti_is_sane
  oti_is_sane_iff oti = (
    λ h. (ground arith, (transfer_length oti / 167, ground arith, ground arith, ground arith)),
    λ h. let (size, rest) = h in let (k, e, lo, hi) = rest in ground arith,
  )
