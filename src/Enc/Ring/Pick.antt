-- ===== src/Enc/Ring/Pick.antt =====
-- Which block `pick_block` of raptorq/enc/src/main.rs picks.
use live_video.Prelude.{
  ℕ, zero, suc, ◌≤◌, ◌<◌, ◌≡◌, ◌⊎◌, refl, sym, ◌∙◌, ap, true, false, inl, inr, Bool-cases, List, [],
  ◌∷◌, Option, none, some, length, get_elem?, arith,
}
use mathlib.Core.Option.{some-injective}
use live_video.Enc.Rng.{coin, IsRngState, next_u64-IsRngState}
use live_video.Enc.Ring.{BlockGen, exhausted, pick_below, pick_block}

module _ {A : Type 0} where
  get_elem?_below : (xs : List A) (i : ℕ) → i < length xs → (a : A) × (get_elem? xs i ≡ some a)
  get_elem?_below [] i h = absurd (omega arith)
  get_elem?_below (x ∷ xs) zero h = (x, refl)
  get_elem?_below (x ∷ xs) (suc i) h = get_elem?_below xs i (omega arith)

  get_elem?_bound : (xs : List A) (i : ℕ) (a : A) → get_elem? xs i ≡ some a → i < length xs
  get_elem?_bound [] i a h = cc
  get_elem?_bound (x ∷ xs) zero a h = omega arith
  get_elem?_bound (x ∷ xs) (suc i) a h = omega (arith, get_elem?_bound xs i a h)

module _ {E : Type 0} where
  -- The block at an index is there and still has repair packets.
  unfoldable pub IsLive : List (BlockGen E) → ℕ → Type 0
  IsLive ring i = (b : BlockGen E) × (get_elem? ring i ≡ some b) × (exhausted b ≡ false)

  -- What is picked: a live block, or nothing, and then every block is exhausted.
  pub data IsPick (ring : List (BlockGen E)) : Option ℕ → Type 0 where
    picks : (i : ℕ) → IsLive ring i → IsPick ring (some i)
    all_exhausted :
        ((i : ℕ) (b : BlockGen E) → get_elem? ring i ≡ some b → exhausted b ≡ true)
        → IsPick ring none

  -- The candidate so far is live, or the blocks from `n` on are exhausted.
  data Candidate (ring : List (BlockGen E)) (n : ℕ) : Option ℕ → Type 0 where
    live_at : (i : ℕ) → IsLive ring i → Candidate ring n (some i)
    none_from :
        ((i : ℕ) (b : BlockGen E) → n ≤ i → get_elem? ring i ≡ some b → exhausted b ≡ true)
        → Candidate ring n none

  skip_lem :
      (n : ℕ) (ring : List (BlockGen E)) (b : BlockGen E) (oldest : Option ℕ)
      → get_elem? ring n ≡ some b
      → exhausted b ≡ true
      → Candidate ring (suc n) oldest
      → Candidate ring n oldest
  skip_lem n ring b oldest at spent (live_at i live) = live_at i live
  skip_lem n ring b oldest at spent (none_from all) = none_from (λ i x le here.
      elim (le_cases n i le) [
        | inl same ↦
            let same_block : b ≡ x =
              some-injective b x (sym at ∙ ap (get_elem? ring) same ∙ here) in
            ap exhausted (sym same_block) ∙ spent
        | inr above ↦ all i x above here
      ])
    where
      le_cases : (n i : ℕ) → n ≤ i → (n ≡ i) ⊎ (suc n ≤ i)
      le_cases n i h = ground arith

  PickResult : List (BlockGen E) → Option (Option ℕ × ℕ) → Type 0
  PickResult ring r =
      (choice : Option ℕ) × (rng : ℕ) × (r ≡ some (choice, rng))
      × IsPick ring choice
      × IsRngState rng

  pick_below_lem :
      (n : ℕ) (ring : List (BlockGen E)) (rng : ℕ) (oldest : Option ℕ)
      → n ≤ length ring
      → IsRngState rng
      → Candidate ring n oldest
      → PickResult ring (pick_below n ring rng oldest)
  unfolding pick_below PickResult coin IsLive
  pick_below_lem zero ring rng oldest le g (live_at i live) = (some i, rng, refl, picks i live, g)
  pick_below_lem zero ring rng oldest le g (none_from all) =
      (none, rng, refl, all_exhausted (λ i b. all i b (omega arith)), g)
  pick_below_lem (suc n) ring rng oldest le g cand =
      let (b, at) = get_elem?_below ring n le in
      elim (Bool-cases (exhausted b)) [
        | inl spent ↦
            rw (at, spent, pick_below)
              (pick_below_lem n ring rng oldest (omega arith) g
                (skip_lem n ring b oldest at spent cand))
        | inr live ↦ elim (Bool-cases (coin rng).0) [
          | inl heads ↦ (
            some n,
            (coin rng).1,
            rw (at, live, heads, pick_below) refl,
            picks n (b, at, live),
            next_u64-IsRngState rng g,
          )
          | inr tails ↦
              rw (at, live, tails, pick_below)
                (pick_below_lem n ring (coin rng).1 (some n) (omega arith)
                  (next_u64-IsRngState rng g) (live_at n (b, at, live)))
        ]
      ]

  -- With a generator in a state of 64 bits that is not 0, which it then stays in, picking a block
  -- never indexes out of the ring. It gives the index of a block that is not exhausted, or
  -- nothing, and then every block of the ring is exhausted.
  pub pick_block_lem :
      (ring : List (BlockGen E)) (rng : ℕ)
      → IsRngState rng
      → (choice : Option ℕ) × (rng' : ℕ) × (pick_block ring rng ≡ some (choice, rng'))
        × IsPick ring choice
        × IsRngState rng'
  unfolding pick_block PickResult
  pick_block_lem ring rng g =
      pick_below_lem (length ring) ring rng none (omega arith) g
        (none_from (λ i b le at. absurd (omega (arith, get_elem?_bound ring i b at))))
