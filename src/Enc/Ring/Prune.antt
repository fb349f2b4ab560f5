-- ===== src/Enc/Ring/Prune.antt =====
-- What `prune_ring` of raptorq/enc/src/main.rs leaves of the ring.
use live_video.Prelude.{
  ℕ, suc, ◌+◌, ◌-◌, ◌≤◌, ◌<◌, ◌≡◌, true, false, inl, inr, Bool-cases, List, [], ◌∷◌, ltb, length,
  arith,
}
use live_video.Enc.Ring.{BlockGen, max_ring, exhausted, cap_ring, drop_stale, prune_ring}

module _ {E : Type 0} where
  -- Every member of a list has a property.
  abbrev pub Every : (BlockGen E → Type 0) → List (BlockGen E) → Type 0
  Every P [] = Unit {0}
  Every P (b ∷ ring) = P b × Every P ring

  -- Created in this order, from a time on.
  abbrev pub Ascending : ℕ → List (BlockGen E) → Type 0
  Ascending t [] = Unit {0}
  Ascending t (b ∷ ring) = (t ≤ b.created) × Ascending b.created ring

  cap_ring-length : (ring : List (BlockGen E)) → length (cap_ring ring) ≤ 64
  unfolding cap_ring
  cap_ring-length [] = omega arith
  cap_ring-length (b ∷ ring) = ground (arith, cap_ring-length ring)

  -- Why a block is dropped: the ring is too long, the block too old, or it has had all its
  -- repair packets.
  pub data IsDropped (clock : ℕ → ℕ) (horizon : ℕ) (b : BlockGen E) (old : List (BlockGen E))
      : Type 0 where
    too_many : 64 < length (b ∷ old) → IsDropped clock horizon b old
    too_old : (n : ℕ) → horizon < clock n - b.created → IsDropped clock horizon b old
    used_up : exhausted b ≡ true → IsDropped clock horizon b old

  -- The first ring is the second without some blocks at the front, each dropped for a reason.
  pub data IsSuffix (clock : ℕ → ℕ) (horizon : ℕ)
      : List (BlockGen E) → List (BlockGen E) → Type 0 where
    kept : (ring : List (BlockGen E)) → IsSuffix clock horizon ring ring
    popped :
        (b : BlockGen E) (new old : List (BlockGen E))
        → IsDropped clock horizon b old
        → IsSuffix clock horizon new old
        → IsSuffix clock horizon new (b ∷ old)

  -- The front of the ring, if there is one, is not exhausted.
  abbrev pub FrontLive : List (BlockGen E) → Type 0
  FrontLive [] = Unit {0}
  FrontLive (b ∷ ring) = exhausted b ≡ false

  -- Created at most `horizon` before `t`.
  abbrev pub IsYoung : ℕ → ℕ → BlockGen E → Type 0
  IsYoung t horizon b = t ≤ b.created + horizon

  module _ (clock : ℕ → ℕ) (horizon : ℕ) where
    pub Every-suffix :
        (P : BlockGen E → Type 0) (new old : List (BlockGen E))
        → IsSuffix clock horizon new old
        → Every P old
        → Every P new
    Every-suffix P new old (kept ring) h = h
    Every-suffix P new older (popped b part old why s) h = Every-suffix P new old s h.1

    length_suffix :
        (new old : List (BlockGen E)) → IsSuffix clock horizon new old → length new ≤ length old
    length_suffix new old (kept ring) = omega arith
    length_suffix new older (popped b part old why s) = omega (arith, length_suffix new old s)

    suffix_trans :
        (a b c : List (BlockGen E))
        → IsSuffix clock horizon a b
        → IsSuffix clock horizon b c
        → IsSuffix clock horizon a c
    suffix_trans a b c s (kept ring) = s
    suffix_trans a b older s (popped x part old why t) =
        popped x a old why (suffix_trans a b old s t)

    cap_ring-IsSuffix : (ring : List (BlockGen E)) → IsSuffix clock horizon (cap_ring ring) ring
    unfolding cap_ring
    cap_ring-IsSuffix [] = kept []
    cap_ring-IsSuffix (b ∷ ring) = elim (Bool-cases (ltb max_ring (length (b ∷ ring)))) [
      | inl many ↦
          rw (many, cap_ring)
            (popped b (cap_ring ring) ring (too_many (ground arith)) (cap_ring-IsSuffix ring))
      | inr few ↦ rw (few, cap_ring) (kept (b ∷ ring))
    ]

    Ascending-weaken :
        (s t : ℕ) (ring : List (BlockGen E)) → s ≤ t → Ascending t ring → Ascending s ring
    Ascending-weaken s t [] le h = tt
    Ascending-weaken s t (b ∷ ring) le h = (omega (arith, h.0), h.1)

    Ascending-IsYoung :
        (s t : ℕ) (ring : List (BlockGen E))
        → s ≤ t + horizon
        → Ascending t ring
        → Every (IsYoung s horizon) ring
    Ascending-IsYoung s t [] le h = tt
    Ascending-IsYoung s t (b ∷ ring) le h =
        (omega (arith, h.0), Ascending-IsYoung s b.created ring (omega (arith, h.0)) h.1)

    pub Ascending-suffix :
        (t : ℕ) (new old : List (BlockGen E))
        → IsSuffix clock horizon new old
        → Ascending t old
        → Ascending t new
    Ascending-suffix t new old (kept ring) h = h
    Ascending-suffix t new older (popped b part old why s) h =
        Ascending-suffix t new old s (Ascending-weaken t b.created old h.0 h.1)

    drop_stale-IsSuffix :
        (n : ℕ) (ring : List (BlockGen E))
        → IsSuffix clock horizon (drop_stale clock n horizon ring) ring
    unfolding drop_stale
    drop_stale-IsSuffix n [] = kept []
    drop_stale-IsSuffix n (b ∷ ring) =
        let rest = drop_stale-IsSuffix (suc n) ring in
        elim (Bool-cases (ltb horizon (clock n - b.created))) [
          | inl old ↦ rw (old, drop_stale) (popped b _ ring (too_old n (ground arith)) rest)
          | inr young ↦ elim (Bool-cases (exhausted b)) [
            | inl spent ↦ rw (young, spent, drop_stale) (popped b _ ring (used_up spent) rest)
            | inr live ↦ rw (young, live, drop_stale) (kept (b ∷ ring))
          ]
        ]

    pub prune_ring-IsSuffix :
        (ring : List (BlockGen E)) → IsSuffix clock horizon (prune_ring clock horizon ring) ring
    unfolding prune_ring
    prune_ring-IsSuffix ring =
        suffix_trans _ _ _ (drop_stale-IsSuffix 0 (cap_ring ring)) (cap_ring-IsSuffix ring)

    pub prune_ring-length : (ring : List (BlockGen E)) → length (prune_ring clock horizon ring) ≤ 64
    unfolding prune_ring
    prune_ring-length ring =
        omega
          (arith, length_suffix _ _ (drop_stale-IsSuffix 0 (cap_ring ring)), cap_ring-length ring)

    -- What the second loop leaves.
    record IsFresh (old new : List (BlockGen E)) : Type 0 where
      front : FrontLive new
      young : Every (IsYoung (clock 0) horizon) new

    drop_stale-IsFresh :
        (n t : ℕ) (ring : List (BlockGen E))
        → ((m : ℕ) → clock 0 ≤ clock m)
        → Ascending t ring
        → IsFresh ring (drop_stale clock n horizon ring)
    unfolding drop_stale
    drop_stale-IsFresh n t [] later h = record { front = tt; young = tt }
    drop_stale-IsFresh n t (b ∷ ring) later h =
        let w = drop_stale-IsFresh (suc n) b.created ring later h.1 in
        elim (Bool-cases (ltb horizon (clock n - b.created))) [
          | inl old ↦ rw (old, drop_stale) (record { front = w.front; young = w.young })
          | inr young ↦ elim (Bool-cases (exhausted b)) [
            | inl spent ↦
                rw (young, spent, drop_stale) (record { front = w.front; young = w.young })
            | inr live ↦
                let near : clock 0 ≤ b.created + horizon = ground (arith, later n) in
                rw (young, live, drop_stale)
                  (record {
                    front = live;
                    young = (near, Ascending-IsYoung (clock 0) b.created ring near h.1);
                  })
          ]
        ]

    -- What pruning leaves.
    pub record IsPruned (old new : List (BlockGen E)) : Type 0 where
      pub suffix : IsSuffix clock horizon new old
      pub capped : length new ≤ 64
      pub front : FrontLive new
      pub young : Every (IsYoung (clock 0) horizon) new

    -- For a ring in the order of creation and a clock that does not go back: pruning drops
    -- blocks at the front only, each of them because the ring is over 64 blocks, or it is older
    -- than the horizon, or it is exhausted. What is left has at most 64 blocks, its front is
    -- live, and every block is within the horizon.
    pub prune_ring-IsPruned :
        (ring : List (BlockGen E))
        → ((m : ℕ) → clock 0 ≤ clock m)
        → Ascending 0 ring
        → IsPruned ring (prune_ring clock horizon ring)
    unfolding prune_ring
    prune_ring-IsPruned ring later h =
        let w =
          drop_stale-IsFresh 0 0 (cap_ring ring) later
            (Ascending-suffix 0 (cap_ring ring) ring (cap_ring-IsSuffix ring) h) in
        record {
          suffix = prune_ring-IsSuffix ring;
          capped = prune_ring-length ring;
          front = w.front;
          young = w.young;
        }
