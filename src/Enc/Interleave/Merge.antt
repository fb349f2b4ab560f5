-- ===== src/Enc/Interleave/Merge.antt =====
-- `interleave` of raptorq/enc/src/main.rs loses no packet and keeps both orders.
use live_video.Prelude.{
  ℕ, zero, suc, ◌+◌, ◌≤◌, List, [], ◌∷◌, leb, length, u32, arith, Bool-cases, inl, inr,
}
use live_video.Enc.Interleave.{
  Interleaver, next_repair, next_source, due_repair, next, collect, interleave,
}

-- `zs` has the members of `xs` and of `ys`, each in its order.
pub data IsMerge {A : Type 0} : List A → List A → List A → Type 0 where
  both_empty : IsMerge [] [] []
  from_source : (x : A) (xs ys zs : List A) → IsMerge xs ys zs → IsMerge (x ∷ xs) ys (x ∷ zs)
  from_repair : (y : A) (xs ys zs : List A) → IsMerge xs ys zs → IsMerge xs (y ∷ ys) (y ∷ zs)

module _ {A : Type 0} where
  abbrev pub at_count : List A → List A → ℕ → ℕ → Interleaver A
  at_count source repair c n = record {
    source = source;
    repair = repair;
    src_count = c;
    next_rep_after = n;
  }

  collect-IsMerge :
      (k fuel : ℕ) (ss rs : List A) (c n : ℕ)
      → length ss + length rs ≤ fuel
      → IsMerge ss rs (collect k fuel (at_count ss rs c n))
  unfolding collect next due_repair next_source next_repair
  collect-IsMerge k zero [] [] c n h = both_empty
  collect-IsMerge k zero (s ∷ ss) rs c n h = absurd (omega arith)
  collect-IsMerge k zero [] (r ∷ rs) c n h = absurd (omega arith)
  collect-IsMerge k (suc fuel) [] [] c n h = elim (Bool-cases (leb n c)) [
    | inl due ↦ rw (due, collect) both_empty
    | inr early ↦ rw (early, collect) both_empty
  ]
  collect-IsMerge k (suc fuel) (s ∷ ss) [] c n h =
      let rest = collect-IsMerge k fuel ss [] (u32 (c + 1)) n (omega arith) in
      elim (Bool-cases (leb n c)) [
        | inl due ↦ rw (due, collect) (from_source s ss [] _ rest)
        | inr early ↦ rw (early, collect) (from_source s ss [] _ rest)
      ]
  collect-IsMerge k (suc fuel) [] (r ∷ rs) c n h = elim (Bool-cases (leb n c)) [
    | inl due ↦
        rw (due, collect)
          (from_repair r [] rs _ (collect-IsMerge k fuel [] rs c (u32 (n + k)) (omega arith)))
    | inr early ↦
        rw (early, collect) (from_repair r [] rs _ (collect-IsMerge k fuel [] rs c n (omega arith)))
  ]
  collect-IsMerge k (suc fuel) (s ∷ ss) (r ∷ rs) c n h = elim (Bool-cases (leb n c)) [
    | inl due ↦
        rw (due, collect)
          (from_repair r (s ∷ ss) rs _
            (collect-IsMerge k fuel (s ∷ ss) rs c (u32 (n + k)) (omega arith)))
    | inr early ↦
        rw (early, collect)
          (from_source s ss (r ∷ rs) _
            (collect-IsMerge k fuel ss (r ∷ rs) (u32 (c + 1)) n (omega arith)))
  ]

  -- The interleaved sequence is a merge of the source and the repair packets, whatever the
  -- interval: every packet is there once, and both keep their order.
  pub interleave-IsMerge :
      (source repair : List A) (rep_interval : ℕ)
      → IsMerge source repair (interleave source repair rep_interval)
  unfolding interleave
  interleave-IsMerge source repair k = collect-IsMerge k _ source repair 0 k (omega arith)
