-- ===== src/Enc/Interleave.antt =====
-- `interleave` of raptorq/enc/src/main.rs: an iterator over source and repair packets.
pub mod Merge
pub mod Spread
use live_video.Prelude.{
  ℕ, zero, suc, ◌+◌, List, [], ◌∷◌, Option, none, some, leb, if◌then◌else◌, length, u32,
}

-- The variables that the closure captures.
pub record Interleaver (A : Type 0) : Type 0 where
  pub source : List A
  pub repair : List A
  pub src_count : ℕ
  pub next_rep_after : ℕ

module _ {A : Type 0} where
  -- `rep_it.next()` at the end of the source packets.
  unfoldable pub next_repair : List A → Interleaver A → Option (A × Interleaver A)
  next_repair [] it = none
  next_repair (r ∷ rs) it = some (r, record it { repair = rs })

  -- `match src_it.next()`.
  unfoldable pub next_source : List A → Interleaver A → Option (A × Interleaver A)
  unfolding next_repair
  next_source [] it = next_repair it.repair it
  next_source (s ∷ ss) it = some (s, record it { source = ss; src_count = u32 (it.src_count + 1) })

  -- The repair packet that is due, if there is one left.
  unfoldable pub due_repair : ℕ → List A → Interleaver A → Option (A × Interleaver A)
  unfolding next_source
  due_repair rep_interval [] it = next_source it.source it
  due_repair rep_interval (r ∷ rs) it =
      some (r, record it { repair = rs; next_rep_after = u32 (it.next_rep_after + rep_interval) })

  unfoldable pub next : ℕ → Interleaver A → Option (A × Interleaver A)
  unfolding due_repair next_source
  next rep_interval it =
      if leb it.next_rep_after it.src_count
      then due_repair rep_interval it.repair it
      else next_source it.source it

  -- What a `for` loop over the iterator is given, on fuel.
  unfoldable pub collect : ℕ → ℕ → Interleaver A → List A
  unfolding next
  collect rep_interval zero it = []
  collect rep_interval (suc fuel) it = elim (next rep_interval it) [
    | none ↦ []
    | some (a, rest) ↦ a ∷ collect rep_interval fuel rest
  ]

  unfoldable pub interleave : List A → List A → ℕ → List A
  unfolding collect
  interleave source repair rep_interval =
      collect rep_interval (length source + length repair)
        (record { source = source; repair = repair; src_count = 0; next_rep_after = rep_interval })
