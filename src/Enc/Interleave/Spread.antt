-- ===== src/Enc/Interleave/Spread.antt =====
-- Where `interleave` of raptorq/enc/src/main.rs puts the repair packets.
use live_video.Prelude.{
  ℕ, zero, suc, ◌+◌, ◌*◌, ◌^◌, ◌≤◌, ◌<◌, ◌≡◌, refl, sym, ap, ◌∙◌, List, [], ◌∷◌, ◌++◌, leb, ltb,
  if◌then◌else◌, length, take, drop, u32, arith, Bool-cases, true, false, inl, inr,
}
use live_video.Enc.Interleave.{next_repair, next_source, due_repair, next, collect, interleave}
use live_video.Enc.Interleave.Merge.{at_count}

module _ {A : Type 0} where
  -- The first repair packet stands behind `j` source packets, and each further one behind
  -- another `k`; the repair packets that are left over stand at the end.
  unfoldable pub spread : ℕ → ℕ → List A → List A → List A
  spread j k source [] = source
  spread j k source (r ∷ rs) =
      if ltb (length source) j
      then source ++ (r ∷ rs)
      else take j source ++ (r ∷ spread k k (drop j source) rs)

  spread_source :
      (j k : ℕ) (s : A) (ss rs : List A) → spread (suc j) k (s ∷ ss) rs ≡ s ∷ spread j k ss rs
  unfolding spread
  spread_source j k s ss [] = refl
  spread_source j k s ss (r ∷ rs) = ground arith

  spread_end : (j k : ℕ) (rs : List A) → 0 < j → spread j k [] rs ≡ rs
  unfolding spread
  spread_end j k [] h = refl
  spread_end j k (r ∷ rs) h = ground arith

  collect_source :
      (k fuel : ℕ) (ss : List A) (c n : ℕ)
      → length ss ≤ fuel
      → collect k fuel (at_count ss [] c n) ≡ ss
  unfolding collect next due_repair next_source next_repair
  collect_source k zero [] c n h = refl
  collect_source k zero (s ∷ ss) c n h = absurd (omega arith)
  collect_source k (suc fuel) [] c n h = elim (Bool-cases (leb n c)) [
    | inl due ↦ rw (due, collect) refl
    | inr early ↦ rw (early, collect) refl
  ]
  collect_source k (suc fuel) (s ∷ ss) c n h =
      let rest = ap (◌∷◌ s) (collect_source k fuel ss (u32 (c + 1)) n (omega arith)) in
      elim (Bool-cases (leb n c)) [
        | inl due ↦ rw (due, collect) rest
        | inr early ↦ rw (early, collect) rest
      ]

  spread_zero :
      (k : ℕ) (ss : List A) (r : A) (rs : List A) → spread 0 k ss (r ∷ rs) ≡ r ∷ spread k k ss rs
  unfolding spread
  spread_zero k ss r rs = ground arith

  collect-spread :
      (k fuel : ℕ) (ss rs : List A) (c n j : ℕ)
      → length ss + length rs ≤ fuel
      → 0 < k
      → n ≡ c + j
      → n + k * length rs < 2 ^ 32
      → c + length ss < 2 ^ 32
      → collect k fuel (at_count ss rs c n) ≡ spread j k ss rs
  unfolding collect next due_repair next_source next_repair
  collect-spread k fuel ss [] c n j h k+ at small few =
      collect_source k fuel ss c n (omega arith) ∙ unfold spread in refl
  collect-spread k zero ss (r ∷ rs) c n j h k+ at small few = absurd (omega arith)
  collect-spread k (suc fuel) ss (r ∷ rs) c n zero h k+ at small few =
      let due : leb n c ≡ true = ground arith in
      let product : k * suc (length rs) ≡ k + k * length rs = omega arith in
      let wide : u32 (n + k) ≡ n + k = omega arith in
      rw (due, collect)
        (ap (λ m. r ∷ collect k fuel (at_count ss rs c m)) wide
          ∙ ap (◌∷◌ r) (
              collect-spread k fuel ss rs c (n + k) k (omega arith) k+ (omega arith) (omega arith)
                few)
          ∙ sym (spread_zero k ss r rs))
  collect-spread k (suc fuel) [] (r ∷ rs) c n (suc j) h k+ at small few =
      let early : leb n c ≡ false = ground arith in
      let product : k * suc (length rs) ≡ k + k * length rs = omega arith in
      rw (early, collect)
        (ap (◌∷◌ r) (
            collect-spread k fuel [] rs c n (suc j) (omega arith) k+ at (omega arith) few
            ∙ spread_end (suc j) k rs (omega arith))
          ∙ sym (spread_end (suc j) k (r ∷ rs) (omega arith)))
  collect-spread k (suc fuel) (s ∷ ss) (r ∷ rs) c n (suc j) h k+ at small few =
      let early : leb n c ≡ false = ground arith in
      let wide : u32 (c + 1) ≡ c + 1 = omega arith in
      rw (early, collect)
        (ap (λ m. s ∷ collect k fuel (at_count ss (r ∷ rs) m n)) wide
          ∙ ap (◌∷◌ s) (
              collect-spread k fuel ss (r ∷ rs) (c + 1) n j (omega arith) k+ (omega arith) small
                (omega arith))
          ∙ sym (spread_source j k s ss (r ∷ rs)))

  -- For a positive interval, and while the counters do not wrap, the first repair packet follows
  -- the first `rep_interval` source packets, each further one the next `rep_interval`, and what
  -- is left over stands at the end.
  pub interleave-spread :
      (source repair : List A) (rep_interval : ℕ)
      → 0 < rep_interval
      → rep_interval + rep_interval * length repair < 2 ^ 32
      → length source < 2 ^ 32
      → interleave source repair rep_interval ≡ spread rep_interval rep_interval source repair
  unfolding interleave
  interleave-spread source repair k k+ small few =
      collect-spread k _ source repair 0 k k (omega arith) k+ (omega arith) small (omega arith)
