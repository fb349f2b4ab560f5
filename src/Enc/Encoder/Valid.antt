-- ===== src/Enc/Encoder/Valid.antt =====
-- The invariant of the loops of `encoder_thread` of raptorq/enc/src/main.rs.
use mathlib.Core.Bool.{false≢true}
use mathlib.Core.Option.{some-injective}
use live_video.Prelude.{
  ℕ, zero, suc, ◌+◌, ◌^◌, ◌≤◌, ◌<◌, ◌≡◌, refl, sym, ◌∙◌, ap, subst, true, false, not, ◌||◌, leb,
  List, [], ◌∷◌, ◌++◌, some, length, length-append, get_elem?, u8, u32, arith,
}
use live_video.RaptorQ.{RaptorQ}
use live_video.Enc.Rng.{IsRngState}
use live_video.Enc.Ring.{BlockGen, exhausted}
use live_video.Enc.Ring.Prune.{IsSuffix, kept, popped}
use live_video.Enc.Encoder.{EncoderArgs, EncoderState, bump}
use live_video.Enc.Encoder.Trace.{
  set, get_elem?_lt, get_elem?-append, get_elem?-set, get_elem?-set-ne, encoder_of, IsTrace,
}

module _ (q : RaptorQ) where
  open q use {Oti, Packet, BlockEncoder}

  -- An entry of the ring belongs to the block with index `n`.
  pub record IsEntry (a : EncoderArgs Oti) (bs : List (List ℕ)) (ids : List ℕ) (n : ℕ)
      (e : BlockGen BlockEncoder) : Type 0 where
    pub bytes : List ℕ
    pub there : get_elem? bs n ≡ some bytes
    pub encodes : e.encoder ≡ encoder_of q a n bytes
    pub numbered : get_elem? ids n ≡ some e.next_repair_id
    pub ceiling : e.max_repair ≡ a.max_repair
    pub within : e.next_repair_id ≤ a.max_repair

  -- The thread runs the loop with idle repair.
  abbrev pub RepairsIdle : EncoderArgs Oti → Type 0
  RepairsIdle a = (not a.adaptive || leb a.max_repair a.baseline_repair) ≡ false

  -- The entries belong to blocks in the order of the blocks, from the index `lo` on; with idle
  -- repair, no block is missing behind an entry.
  abbrev pub IsRing :
      EncoderArgs Oti → List (List ℕ) → List ℕ → ℕ → List (BlockGen BlockEncoder) → Type 0
  IsRing a bs ids lo [] = Unit {0}
  IsRing a bs ids lo (e ∷ ring) =
      (n : ℕ) × (lo ≤ n)
      × (RepairsIdle a → length bs ≤ n + suc (length ring))
      × IsEntry a bs ids n e
      × IsRing a bs ids (suc n) ring

  pub length-bump :
      {E : Type 0} (ring : List (BlockGen E)) (i : ℕ) → length (bump ring i) ≡ length ring
  unfolding bump
  length-bump [] i = refl
  length-bump (b ∷ ring) zero = refl
  length-bump (b ∷ ring) (suc i) = ap suc (length-bump ring i)

  module _ (a : EncoderArgs Oti) where
    IsRing-weaken :
        (bs : List (List ℕ)) (ids : List ℕ) (lo lo' : ℕ) (ring : List (BlockGen BlockEncoder))
        → lo' ≤ lo
        → IsRing a bs ids lo ring
        → IsRing a bs ids lo' ring
    IsRing-weaken bs ids lo lo' [] le h = tt
    IsRing-weaken bs ids lo lo' (e ∷ ring) le (n, at, recent, entry, rest) =
        (n, omega arith, recent, entry, rest)

    pub IsRing-suffix :
        (bs : List (List ℕ)) (ids : List ℕ) (clock : ℕ → ℕ) (horizon : ℕ)
        (new old : List (BlockGen BlockEncoder))
        → IsSuffix clock horizon new old
        → IsRing a bs ids 0 old
        → IsRing a bs ids 0 new
    IsRing-suffix bs ids clock horizon new old (kept ring) h = h
    IsRing-suffix bs ids clock horizon new older (popped e part old why s)
          (n, at, recent, entry, rest) =
        IsRing-suffix bs ids clock horizon new old s
          (IsRing-weaken bs ids (suc n) 0 old (omega arith) rest)

    IsEntry_extend :
        (bs : List (List ℕ)) (ids : List ℕ) (n : ℕ) (b : List ℕ) (x : BlockGen BlockEncoder)
        → IsEntry a bs ids n x
        → IsEntry a (bs ++ (b ∷ [])) (ids ++ (a.baseline_repair ∷ [])) n x
    IsEntry_extend bs ids n b x entry = record {
      bytes = entry.bytes;
      there = get_elem?-append bs (b ∷ []) n entry.bytes entry.there;
      encodes = entry.encodes;
      numbered = get_elem?-append ids (a.baseline_repair ∷ []) n x.next_repair_id entry.numbered;
      ceiling = entry.ceiling;
      within = entry.within;
    }

    pub IsRing-extend :
        (bs : List (List ℕ)) (ids : List ℕ) (lo : ℕ) (ring : List (BlockGen BlockEncoder))
        (b : List ℕ)
        → (not a.adaptive || leb a.max_repair a.baseline_repair) ≡ true
        → IsRing a bs ids lo ring
        → IsRing a (bs ++ (b ∷ [])) (ids ++ (a.baseline_repair ∷ [])) lo ring
    IsRing-extend bs ids lo [] b plain h = tt
    IsRing-extend bs ids lo (x ∷ ring) b plain (n, at, recent, entry, rest) = (
      n,
      at,
      λ idle. absurd (false≢true (sym idle ∙ plain)),
      IsEntry_extend bs ids n b x entry,
      IsRing-extend bs ids (suc n) ring b plain rest,
    )

    -- A new block goes to the end of the ring.
    pub IsRing-push :
        (bs : List (List ℕ)) (ids : List ℕ) (lo : ℕ) (ring : List (BlockGen BlockEncoder))
        (b : List ℕ) (e : BlockGen BlockEncoder)
        → lo ≤ length bs
        → IsEntry a (bs ++ (b ∷ [])) (ids ++ (a.baseline_repair ∷ [])) (length bs) e
        → IsRing a bs ids lo ring
        → IsRing a (bs ++ (b ∷ [])) (ids ++ (a.baseline_repair ∷ [])) lo (ring ++ (e ∷ []))
    IsRing-push bs ids lo [] b e le w h =
        (length bs, le, λ idle. omega (arith, length-append bs (b ∷ [])), w, tt)
    IsRing-push bs ids lo (x ∷ ring) b e le w (n, at, recent, entry, rest) = (
      n,
      at,
      λ idle. omega (arith, recent idle, length-append bs (b ∷ []), length-append ring (e ∷ [])),
      IsEntry_extend bs ids n b x entry,
      IsRing-push bs ids (suc n) ring b e (get_elem?_lt bs n entry.bytes entry.there) w rest,
    )

    -- The entries behind a block do not read its number.
    IsRing-set :
        (bs : List (List ℕ)) (ids : List ℕ) (lo m id : ℕ) (ring : List (BlockGen BlockEncoder))
        → m < lo
        → IsRing a bs ids lo ring
        → IsRing a bs (set ids m id) lo ring
    IsRing-set bs ids lo m id [] less h = tt
    IsRing-set bs ids lo m id (e ∷ ring) less (n, at, recent, entry, rest) = (
      n,
      at,
      recent,
      record {
        bytes = entry.bytes;
        there = entry.there;
        encodes = entry.encodes;
        numbered = get_elem?-set-ne ids m n id (λ same. omega arith) ∙ entry.numbered;
        ceiling = entry.ceiling;
        within = entry.within;
      },
      IsRing-set bs ids (suc n) m id ring (omega arith) rest,
    )

    -- The entry at an index of the ring, and the ring after its number has gone up.
    pub record IsBumped (bs : List (List ℕ)) (ids : List ℕ) (lo : ℕ)
        (ring : List (BlockGen BlockEncoder)) (i : ℕ) (e : BlockGen BlockEncoder) : Type 0 where
      pub index : ℕ
      pub above : lo ≤ index
      pub recent : RepairsIdle a → length bs ≤ index + length ring
      pub entry : IsEntry a bs ids index e
      pub after : IsRing a bs (set ids index (suc e.next_repair_id)) lo (bump ring i)

    bump_front :
        (bs : List (List ℕ)) (ids : List ℕ) (lo : ℕ) (x : BlockGen BlockEncoder)
        (ring : List (BlockGen BlockEncoder))
        → a.max_repair < 2 ^ 32
        → exhausted x ≡ false
        → IsRing a bs ids lo (x ∷ ring)
        → IsBumped bs ids lo (x ∷ ring) 0 x
    unfolding bump exhausted
    bump_front bs ids lo x ring small live (n, above, recent, entry, rest) =
        let id : ℕ = x.next_repair_id in
        let less : id < a.max_repair = ground (arith, entry.ceiling) in
        let wide : suc id ≡ u32 (id + 1) = omega arith in
        record {
          index = n;
          above = above;
          recent = recent;
          entry = entry;
          after = (
            n,
            above,
            λ idle. recent idle,
            record {
              bytes = entry.bytes;
              there = entry.there;
              encodes = entry.encodes;
              numbered = get_elem?-set ids n (suc id) id entry.numbered ∙ ap some wide;
              ceiling = entry.ceiling;
              within = omega arith;
            },
            IsRing-set bs ids (suc n) n (suc id) ring (omega arith) rest,
          );
        }

    pub bump-IsBumped :
        (bs : List (List ℕ)) (ids : List ℕ) (lo : ℕ) (ring : List (BlockGen BlockEncoder)) (i : ℕ)
        (e : BlockGen BlockEncoder)
        → a.max_repair < 2 ^ 32
        → get_elem? ring i ≡ some e
        → exhausted e ≡ false
        → IsRing a bs ids lo ring
        → IsBumped bs ids lo ring i e
    unfolding bump exhausted
    bump-IsBumped bs ids lo [] i e small at live h = cc
    bump-IsBumped bs ids lo (x ∷ ring) zero e small at live h =
        let same : x ≡ e = some-injective x e at in
        subst (IsBumped bs ids lo (x ∷ ring) 0) same
          (bump_front bs ids lo x ring small (ap exhausted same ∙ live) h)
    bump-IsBumped bs ids lo (x ∷ ring) (suc i) e small at live (n, above, recent, entry, rest) =
        let w = bump-IsBumped bs ids (suc n) ring i e small at live rest in
        record {
          index = w.index;
          above = omega (arith, w.above);
          recent = λ idle. omega (arith, w.recent idle);
          entry = w.entry;
          after = (
            n,
            above,
            λ idle. omega (arith, recent idle, length-bump ring i),
            record {
              bytes = entry.bytes;
              there = entry.there;
              encodes = entry.encodes;
              numbered =
                  get_elem?-set-ne ids w.index n (suc e.next_repair_id)
                    (λ same. omega (arith, w.above))
                  ∙ entry.numbered;
              ceiling = entry.ceiling;
              within = entry.within;
            },
            w.after,
          );
        }

  -- What holds between two turns, after the blocks `bs` have been sent.
  pub record IsValid (a : EncoderArgs Oti) (bs : List (List ℕ)) (ids : List ℕ)
      (s : EncoderState BlockEncoder Packet) : Type 0 where
    pub numbered : s.sbn ≡ u8 (length bs)
    pub generator : IsRngState s.rng
    pub capped : length s.ring ≤ 64
    pub counted : length ids ≡ length bs
    pub ring : IsRing a bs ids 0 s.ring
    pub trace : IsTrace q a bs ids s.out
