-- ===== src/Enc/Ring.antt =====
-- `BlockGen`, `prune_ring` and `pick_block` of raptorq/enc/src/main.rs. The ring is a list with
-- its front first.
pub mod Prune
pub mod Pick
use live_video.Prelude.{
  ℕ, zero, suc, ◌+◌, ◌-◌, Bool, ◌||◌, List, [], ◌∷◌, Option, none, some, leb, ltb, if◌then◌else◌,
  length, get_elem?, Outcome, ok, panic,
}
use live_video.Enc.Rng.{coin}

pub record BlockGen (E : Type 0) : Type 0 where
  pub encoder : E
  pub next_repair_id : ℕ
  pub max_repair : ℕ
  pub created : ℕ

abbrev pub max_ring : ℕ
max_ring = 64

module _ {E : Type 0} where
  unfoldable pub exhausted : BlockGen E → Bool
  exhausted b = leb b.max_repair b.next_repair_id

  -- `while ring.len() > MAX_RING`
  unfoldable pub cap_ring : List (BlockGen E) → List (BlockGen E)
  cap_ring [] = []
  cap_ring (b ∷ ring) =
      let rest = cap_ring ring in if ltb max_ring (length (b ∷ ring)) then rest else b ∷ ring

  -- `while let Some(front) = ring.front()`; `clock n` is the time at the round `n`.
  unfoldable pub drop_stale : (ℕ → ℕ) → ℕ → ℕ → List (BlockGen E) → List (BlockGen E)
  unfolding exhausted
  drop_stale clock n horizon [] = []
  drop_stale clock n horizon (b ∷ ring) =
      let rest = drop_stale clock (suc n) horizon ring in
      if ltb horizon (clock n - b.created) || exhausted b then rest else b ∷ ring

  unfoldable pub prune_ring : (ℕ → ℕ) → ℕ → List (BlockGen E) → List (BlockGen E)
  unfolding cap_ring drop_stale
  prune_ring clock horizon ring = drop_stale clock 0 horizon (cap_ring ring)

  -- The loop over `(0..n).rev()`, with the oldest live block so far.
  unfoldable pub pick_below : ℕ → List (BlockGen E) → ℕ → Option ℕ → Option (Option ℕ × ℕ)
  unfolding exhausted coin
  pick_below zero ring rng oldest_live = some (oldest_live, rng)
  pick_below (suc i) ring rng oldest_live =
      let skipped = pick_below i ring rng oldest_live in
      let older = pick_below i ring (coin rng).1 (some i) in
      elim (get_elem? ring i) [
        | none ↦ none
        | some b ↦
            if exhausted b
            then skipped
            else if (coin rng).0
            then some (some i, (coin rng).1)
            else older
      ]

  -- The index of the block picked, and the generator; `none` is the panic of `ring[i]`.
  unfoldable pub pick_block : List (BlockGen E) → ℕ → Option (Option ℕ × ℕ)
  unfolding pick_below
  pick_block ring rng = pick_below (length ring) ring rng none
