-- ===== src/Dec/Transparent/Settle.antt =====
-- The emission loop of raptorq/dec/src/main.rs on an empty pool and on the block at the cursor.
use live_video.Prelude.{
  ℕ, zero, suc, ◌+◌, ◌-◌, ◌*◌, ◌^◌, ◌<◌, ◌≡◌, refl, sym, ◌∙◌, ap, ap₂, subst, true, false, List, [],
  ◌∷◌, ◌++◌, Option, none, some, leb, u64, arith, ok, Bool-cases, inl, inr,
}
use live_video.Maps.{get, remove, last_key}
use live_video.Dec.Block.{BlockState}
use live_video.Dec.State.{Decoder, Options}
use live_video.Dec.Emit.{
  Env, emitted, idle, should_force, write_all, count_decoded, drop_block, is_late, round_block,
  round_on, round, after_round, emit_loop, emit_blocks,
}
use live_video.Dec.Run.{Turn, going, settle, flush_out, report_every}
use live_video.Dec.Transparent.{IsCalm}
use live_video.Dec.Transparent.Stage.{view, IsEmpty, IsOpen}

module _ {D : Type 0} where
  -- The statistics leave the blocks alone.
  report_every-view : (i : Option ℕ) (t : Turn) (d : Decoder D) → view (report_every i t d) ≡ view d
  unfolding report_every
  report_every-view none t d = refl
  report_every-view (some i) t d = elim (Bool-cases (leb i (t.stats_time - d.last_stats))) [
    | inl due ↦ rw due refl
    | inr early ↦ rw early refl
  ]

  -- The turn goes on to a state with the view that the emission leaves.
  pub settle-emit_blocks :
      (o : Options) (t : Turn) (d d' : Decoder D)
      → t.env.flush_ok ≡ true
      → emit_blocks o t.env d ≡ ok d'
      → (d'' : Decoder D) × (settle o t d ≡ ok (going d'')) × (view d'' ≡ view d')
  unfolding settle flush_out
  settle-emit_blocks o t d d' flushes e = (
    report_every o.stats_interval t d',
    rw (e, flushes) refl,
    report_every-view o.stats_interval t d',
  )

  emit_loop-idle :
      (fuel : ℕ) (o : Options) (e : Env) (n : ℕ) (d : Decoder D)
      → 0 < fuel
      → round o e n d ≡ ok idle
      → emit_loop fuel o e n d ≡ ok d
  unfolding emit_loop after_round
  emit_loop-idle zero o e n d h r = absurd (omega arith)
  emit_loop-idle (suc fuel) o e n d h r = rw r refl

  emit_loop-emitted :
      (fuel : ℕ) (o : Options) (e : Env) (n : ℕ) (d d' : Decoder D)
      → 1 < fuel
      → round o e n d ≡ ok (emitted d')
      → round o e (n + 1) d' ≡ ok idle
      → emit_loop fuel o e n d ≡ ok d'
  unfolding emit_loop after_round
  emit_loop-emitted zero o e n d d' h r r' = absurd (omega arith)
  emit_loop-emitted (suc fuel) o e n d d' h r r' =
      rw r (emit_loop-idle fuel o e (n + 1) d' (omega arith) r')

  -- Nothing is forced out of an empty pool whose cursor is at the highest number or behind it.
  round_empty :
      (o : Options) (e : Env) (i n : ℕ) (outs : List (List ℕ)) (d : Decoder D)
      → 0 < o.max_in_flight
      → n + o.max_in_flight < 2 ^ 64
      → IsEmpty n outs (view d)
      → round o e i d ≡ ok idle
  unfolding round round_on get should_force last_key
  round_empty o e i n outs d some_room fits w =
      let near : leb (u64 (d.cursor + o.max_in_flight)) d.highest_seen ≡ false =
        ground (arith, w.cursor, w.low) in
      rw (w.pool, near)
        (elim (Bool-cases d.started) [ inl begun ↦ rw begun refl | inr fresh ↦ rw fresh refl ])

  open_unforced :
      (o : Options) (base n : ℕ) (outs : List (List ℕ)) (b : BlockState D) (d : Decoder D)
      → 0 < o.max_in_flight
      → n + o.max_in_flight < 2 ^ 64
      → IsOpen base n outs b (view d)
      → should_force o d ≡ false
  unfolding should_force last_key
  open_unforced o base n outs b d some_room fits w = rw w.pool (ground (arith, w.cursor))

  get_only : (n : ℕ) (b : BlockState D) → get n ((n, b) ∷ []) ≡ some b
  unfolding get
  get_only n b = ground arith

  remove_only : (n : ℕ) (b : BlockState D) → remove n ((n, b) ∷ []) ≡ []
  unfolding remove
  remove_only n b = ground arith

  get_cursor :
      (n : ℕ) (b : BlockState D) (d : Decoder D)
      → d.pool ≡ (n, b) ∷ []
      → d.cursor ≡ n
      → get d.cursor d.pool ≡ some b
  get_cursor n b d p c = ap₂ get c p ∙ get_only n b

  -- A block that is not complete stays.
  round_open :
      (o : Options) (t : Turn) (base i n : ℕ) (outs : List (List ℕ)) (b : BlockState D)
      (d : Decoder D)
      → 0 < o.max_in_flight
      → n + o.max_in_flight < 2 ^ 64
      → IsCalm o base t
      → IsOpen base n outs b (view d)
      → round o t.env i d ≡ ok idle
  unfolding round round_on round_block is_late
  round_open o t base i n outs b d some_room fits calm w =
      let early : leb o.timeout (t.env.clock (2 * i) - b.first_seen) ≡ false =
        ground (arith, calm.prompt (2 * i), calm.later (2 * i), w.stamped) in
      let waits : round_block o t.env i d b none ≡ ok idle =
        rw (early, open_unforced o base n outs b d some_room fits w) refl in
      ap (round_on o t.env i d) (get_cursor n b d w.pool w.cursor)
      ∙ ap (round_block o t.env i d b) w.unfinished
      ∙ waits

  -- The state behind the emission of a complete block.
  abbrev delivered : Decoder D → List ℕ → Decoder D
  delivered d bytes = count_decoded (record (drop_block d) { out = d.out ++ (bytes ∷ []) })

  -- A complete block is written.
  round_complete :
      (o : Options) (e : Env) (i n : ℕ) (b : BlockState D) (bytes : List ℕ) (d : Decoder D)
      → e.write_ok i ≡ true
      → d.pool ≡ (n, b) ∷ []
      → d.cursor ≡ n
      → b.completed ≡ some bytes
      → round o e i d ≡ ok (emitted (delivered d bytes))
  unfolding round round_on round_block write_all drop_block
  round_complete o e i n b bytes d writes p c done =
      ap (round_on o e i d) (get_cursor n b d p c)
      ∙ ap (round_block o e i d b) done
      ∙ rw writes refl

  delivered-IsEmpty :
      (n : ℕ) (b : BlockState D) (outs : List (List ℕ)) (bytes : List ℕ) (d : Decoder D)
      → n < 2 ^ 63
      → d.pool ≡ (n, b) ∷ []
      → d.cursor ≡ n
      → d.highest_seen ≡ n
      → d.started ≡ true
      → d.out ≡ outs
      → IsEmpty (n + 1) (outs ++ (bytes ∷ [])) (view (delivered d bytes))
  unfolding count_decoded drop_block
  delivered-IsEmpty n b outs bytes d fits p c h s w = record {
    pool = ap₂ remove c p ∙ remove_only n b;
    cursor = omega arith;
    low = omega arith;
    high = omega arith;
    first = λ fresh. cc;
    out = ap (λ x. x ++ (bytes ∷ [])) w;
  }

  -- With nothing in the pool the loop ends at once.
  pub settle_empty :
      (o : Options) (t : Turn) (n : ℕ) (outs : List (List ℕ)) (d : Decoder D)
      → 0 < o.max_in_flight
      → n + o.max_in_flight < 2 ^ 64
      → t.env.flush_ok ≡ true
      → IsEmpty n outs (view d)
      → (d' : Decoder D) × (settle o t d ≡ ok (going d')) × (view d' ≡ view d)
  unfolding emit_blocks
  settle_empty o t n outs d some_room fits flushes w = settle-emit_blocks o t d d flushes (
      emit_loop-idle (d.highest_seen + 2 - d.cursor) o t.env 0 d (omega (arith, w.cursor, w.high))
        (round_empty o t.env 0 n outs d some_room fits w))

  -- A block that is not complete waits.
  pub settle_open :
      (o : Options) (t : Turn) (base n : ℕ) (outs : List (List ℕ)) (b : BlockState D)
      (d : Decoder D)
      → 0 < o.max_in_flight
      → n + o.max_in_flight < 2 ^ 64
      → IsCalm o base t
      → IsOpen base n outs b (view d)
      → (d' : Decoder D) × (settle o t d ≡ ok (going d')) × (view d' ≡ view d)
  unfolding emit_blocks
  settle_open o t base n outs b d some_room fits calm w = settle-emit_blocks o t d d calm.flushes (
      emit_loop-idle (d.highest_seen + 2 - d.cursor) o t.env 0 d
        (omega (arith, w.cursor, w.highest_seen))
        (round_open o t base 0 n outs b d some_room fits calm w))

  -- A complete block is written, and the next one is waited for.
  pub settle_complete :
      (o : Options) (t : Turn) (n : ℕ) (outs : List (List ℕ)) (b : BlockState D) (bytes : List ℕ)
      (d : Decoder D)
      → 0 < o.max_in_flight
      → n + 1 + o.max_in_flight < 2 ^ 63
      → t.env.write_ok 0 ≡ true
      → t.env.flush_ok ≡ true
      → d.pool ≡ (n, b) ∷ []
      → d.cursor ≡ n
      → d.highest_seen ≡ n
      → d.started ≡ true
      → d.out ≡ outs
      → b.completed ≡ some bytes
      → (d' : Decoder D) × (settle o t d ≡ ok (going d'))
        × IsEmpty (n + 1) (outs ++ (bytes ∷ [])) (view d')
  unfolding emit_blocks
  settle_complete o t n outs b bytes d some_room fits writes flushes p c h s w done =
      let empty = delivered-IsEmpty n b outs bytes d (omega arith) p c h s w in
      let (d', e, same) = settle-emit_blocks o t d (delivered d bytes) flushes (
        emit_loop-emitted (d.highest_seen + 2 - d.cursor) o t.env 0 d (delivered d bytes)
          (omega arith) (round_complete o t.env 0 n b bytes d writes p c done)
          (round_empty o t.env 1 (n + 1) (outs ++ (bytes ∷ [])) (delivered d bytes) some_room
            (omega arith) empty)) in
      (d', e, subst (IsEmpty (n + 1) (outs ++ (bytes ∷ []))) (sym same) empty)
