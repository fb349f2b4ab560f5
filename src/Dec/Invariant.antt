-- ===== src/Dec/Invariant.antt =====
-- What holds of the state of `run_decoder` in raptorq/dec/src/main.rs.
use live_video.Prelude.{
  ℕ, ◌+◌, ◌^◌, ◌≤◌, ◌<◌, ◌≡◌, ◌≢◌, true, false, Option, none, some, List, [], ◌∷◌, suc, zero,
  replicate,
}
use live_video.Maps.{get}
use live_video.Maps.Laws.{Ascends, AllEntries}
use live_video.Wire.Constants.{default_block_size}
use live_video.Dec.Block.{BlockState}
use live_video.Dec.Block.BestEffort.{assemble, symbol_or, zero_symbol}
use live_video.Dec.Block.Invariant.{IsBlock}
use live_video.Dec.State.{Decoder, Options}

-- The pool lists blocks in order, from the cursor up to the highest number seen, which is in the
-- pool unless the cursor is past it.
pub record IsValid {D : Type 0} (d : Decoder D) : Type 0 where
  pub ascends : Ascends d.cursor d.pool
  pub bounded : AllEntries (λ j b. j ≤ d.highest_seen) d.pool
  pub blocks : AllEntries (λ j b. IsBlock b) d.pool
  pub reached : d.cursor ≤ d.highest_seen + 1
  pub present : d.started ≡ true → d.cursor ≤ d.highest_seen → get d.highest_seen d.pool ≢ none
  pub unstarted : d.started ≡ false → d.pool ≡ []

-- The sums of the loop stay below 2^64.
abbrev pub Fits64 : {D : Type 0} → Options → Decoder D → Type 0
Fits64 o d = d.highest_seen + o.max_in_flight + 2 < 2 ^ 64

-- Where the loop rests: every block seen lies within the window, and the block at the cursor, if
-- there is one, waits for more symbols.
pub record IsSettled {D : Type 0} (o : Options) (d : Decoder D) : Type 0 where
  pub window : d.started ≡ true → d.highest_seen < d.cursor + o.max_in_flight
  pub waiting : (b : BlockState D) → get d.cursor d.pool ≡ some b → b.completed ≡ none

-- What is written for a block: its decoded bytes, or its symbols with zeros for the missing
-- ones, or a default block of zeros if nothing came.
unfoldable pub block_output : {D : Type 0} → Option (BlockState D) → List ℕ
block_output none = replicate default_block_size 0
block_output (some b) = elim b.completed [
  | some bytes ↦ bytes
  | none ↦ assemble (symbol_or (λ _. zero_symbol) b.source_symbols) 0 b.k
]

-- What is written for the blocks `c`, ..., `c + n - 1`.
unfoldable pub outputs : {D : Type 0} → ℕ → ℕ → List (ℕ × BlockState D) → List (List ℕ)
outputs zero c pool = []
outputs (suc n) c pool = block_output (get c pool) ∷ outputs n (suc c) pool
