-- ===== src/Dec/Receive/Ready.antt =====
-- The steps by which `run_decoder` of raptorq/dec/src/main.rs takes a received packet into its
-- pool, and the invariant in between.
use native.Mathlib.Nat.{le_refl}
use live_video.Prelude.{
  ℕ, ◌+◌, ◌≤◌, ◌≡◌, ◌≢◌, refl, true, false, [], none, arith, ltb, inl, inr, Bool-cases,
}
use live_video.Maps.{get, insert}
use live_video.Maps.Laws.{
  Ascends, AllEntries, get-insert, insert-Ascends, insert-AllEntries, AllEntries-mono,
}
use live_video.Dec.Sbn.{unwrap_sbn}
use live_video.Dec.Block.{BlockState}
use live_video.Dec.Block.Invariant.{IsBlock}
use live_video.Dec.State.{
  Decoder, count_gap, count_noop, count_unparseable, count_redundant, count_ok,
}
use live_video.Dec.Invariant.{IsValid}
use live_video.Dec.Receive.{Flow, fall, again, locate, raise}

module _ {D : Type 0} where
  -- Validity speaks of four fields only.
  pub IsValid-same :
      (d d' : Decoder D)
      → d'.pool ≡ d.pool
      → d'.cursor ≡ d.cursor
      → d'.highest_seen ≡ d.highest_seen
      → d'.started ≡ d.started
      → IsValid d
      → IsValid d'
  IsValid-same d d' p c h s v = record {
    ascends = rw (p, c) v.ascends;
    bounded = rw (p, h) v.bounded;
    blocks = rw p v.blocks;
    reached = rw (c, h) v.reached;
    present = rw (s, c, h, p) v.present;
    unstarted = rw (s, p) v.unstarted;
  }

  pub count_gap-IsValid : (d : Decoder D) (c : ℕ) → IsValid d → IsValid (count_gap d c)
  unfolding count_gap
  count_gap-IsValid d c v = IsValid-same d (count_gap d c) refl refl refl refl v

  pub count_redundant-IsValid : (d : Decoder D) → IsValid d → IsValid (count_redundant d)
  unfolding count_redundant
  count_redundant-IsValid d v = IsValid-same d (count_redundant d) refl refl refl refl v

  -- The state once a frame's block is known: it lies between the cursor and the highest number,
  -- and that number is in the pool, unless it is the block itself.
  pub record IsReady (d : Decoder D) (logical : ℕ) : Type 0 where
    pub begun : d.started ≡ true
    pub ascends : Ascends d.cursor d.pool
    pub bounded : AllEntries (λ j b. j ≤ d.highest_seen) d.pool
    pub blocks : AllEntries (λ j b. IsBlock b) d.pool
    pub low : d.cursor ≤ logical
    pub high : logical ≤ d.highest_seen
    pub present : logical ≢ d.highest_seen → get d.highest_seen d.pool ≢ none

  pub insert-IsValid :
      (d : Decoder D) (logical : ℕ) (b : BlockState D)
      → IsReady d logical
      → IsBlock b
      → IsValid (record d { pool = insert logical b d.pool })
  insert-IsValid d logical b r w = record {
    ascends = insert-Ascends d.cursor logical b d.pool r.low r.ascends;
    bounded = insert-AllEntries (λ j b. j ≤ d.highest_seen) logical b d.pool r.high r.bounded;
    blocks = insert-AllEntries (λ j b. IsBlock b) logical b d.pool w r.blocks;
    reached = omega (arith, r.low, r.high);
    present = λ started below missing.
        ground (arith, get-insert logical d.highest_seen b d.pool, r.present);
    unstarted = λ unstarted. cc (r.begun);
  }

  pub count_ok-IsReady :
      (d : Decoder D) (logical : ℕ) → IsReady d logical → IsReady (count_ok d) logical
  unfolding count_ok
  count_ok-IsReady d logical r = record {
    begun = r.begun;
    ascends = r.ascends;
    bounded = r.bounded;
    blocks = r.blocks;
    low = r.low;
    high = r.high;
    present = r.present;
  }

  pub raise-IsReady :
      (d : Decoder D) (logical : ℕ)
      → d.started ≡ true
      → d.cursor ≤ logical
      → IsValid d
      → IsReady (raise d logical) logical
  unfolding raise
  raise-IsReady d logical begun low v = elim (Bool-cases (ltb d.highest_seen logical)) [
    | inl higher ↦
        let above : d.highest_seen ≤ logical = ground arith in
        rw higher (record {
          begun = begun;
          ascends = v.ascends;
          bounded =
              AllEntries-mono (λ j b. j ≤ d.highest_seen) (λ j b. j ≤ logical) d.pool
                (λ j b h. omega arith) v.bounded;
          blocks = v.blocks;
          low = low;
          high = le_refl logical;
          present = λ differs. absurd (differs refl);
        })
    | inr lower ↦
        let below : logical ≤ d.highest_seen = ground arith in
        rw lower (record {
          begun = begun;
          ascends = v.ascends;
          bounded = v.bounded;
          blocks = v.blocks;
          low = low;
          high = below;
          present = λ differs. v.present begun (omega arith);
        })
  ]

module _ {D : Type 0} where
  -- The first data frame sets the cursor to its block.
  unfoldable pub begin : Decoder D → ℕ → Decoder D
  begin d sbn = record d { cursor = sbn; highest_seen = sbn; started = true }

  pub locate_begun :
      (d : Decoder D) (sbn : ℕ) → d.started ≡ true → locate d sbn ≡ (unwrap_sbn d.cursor sbn, d)
  unfolding locate
  locate_begun d sbn begun = simp begun

  pub locate_fresh :
      (d : Decoder D) (sbn : ℕ) → d.started ≡ false → locate d sbn ≡ (sbn, begin d sbn)
  unfolding locate begin
  locate_fresh d sbn fresh = simp fresh

  pub begin-IsReady :
      (d : Decoder D) (sbn : ℕ) → d.started ≡ false → IsValid d → IsReady (begin d sbn) sbn
  unfolding begin
  begin-IsReady d sbn fresh v =
      let empty : d.pool ≡ [] = v.unstarted fresh in
      record {
        begun = refl;
        ascends = rw empty tt;
        bounded = rw empty tt;
        blocks = v.blocks;
        low = le_refl sbn;
        high = le_refl sbn;
        present = λ differs. absurd (differs refl);
      }

-- A received packet leaves a valid state, writes nothing, leaves the cursor once it is set, and
-- raises the highest number by 256 at most.
pub record IsReceived {D : Type 0} (d d' : Decoder D) : Type 0 where
  pub valid : IsValid d'
  pub growth : d'.highest_seen ≤ d.highest_seen + 256
  pub silent : d'.out ≡ d.out
  pub held : d.started ≡ true → d'.cursor ≡ d.cursor
  pub still_begun : d.started ≡ true → d'.started ≡ true

pub data FlowResult {D : Type 0} (d : Decoder D) (f : Flow (Decoder D)) : Type 0 where
  falls : (d' : Decoder D) → f ≡ fall d' → IsReceived d d' → FlowResult d f
  continues : (d' : Decoder D) → f ≡ again d' → IsReceived d d' → FlowResult d f

module _ {D : Type 0} where
  pub unparseable-IsReceived : (d : Decoder D) → IsValid d → IsReceived d (count_unparseable d)
  unfolding count_unparseable
  unparseable-IsReceived d v = record {
    valid = IsValid-same d (count_unparseable d) refl refl refl refl v;
    growth = omega arith;
    silent = refl;
    held = λ _. refl;
    still_begun = λ h. h;
  }

  pub noop-IsReceived :
      (d : Decoder D) (c : ℕ) → IsValid d → IsReceived d (count_noop (count_gap d c))
  unfolding count_noop count_gap
  noop-IsReceived d c v = record {
    valid = IsValid-same d (count_noop (count_gap d c)) refl refl refl refl v;
    growth = omega arith;
    silent = refl;
    held = λ _. refl;
    still_begun = λ h. h;
  }
