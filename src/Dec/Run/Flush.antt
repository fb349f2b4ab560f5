-- ===== src/Dec/Run/Flush.antt =====
-- What `flush_remaining` of raptorq/dec/src/main.rs writes.
use mathlib.Core.List.{append_assoc, append-nil}
use live_video.Prelude.{
  ℕ, ◌+◌, ◌≡◌, ◌⊎◌, refl, sym, ◌∙◌, ap, List, [], ◌∷◌, ◌++◌, map, some, arith, ok, err, inl, inr,
  Bool-cases,
}
use live_video.Maps.{get, remove}
use live_video.Maps.Laws.{AllEntries}
use live_video.Dec.Block.{BlockState}
use live_video.Dec.Block.BestEffort.{best_effort_lem}
use live_video.Dec.Block.Invariant.{IsBlock}
use live_video.Dec.State.{Decoder, incr}
use live_video.Dec.Invariant.{IsValid, block_output}
use live_video.Dec.Emit.{Env, io_error, write_all}
use live_video.Dec.Run.{block_bytes, flush_block, flush_key, flush_keys, flush_remaining}

module _ {D : Type 0} where
  -- The outputs of the blocks of a pool, in its order.
  abbrev pub pool_outputs : List (ℕ × BlockState D) → List (List ℕ)
  pool_outputs [] = []
  pool_outputs ((k, b) ∷ m) = block_output (some b) ∷ pool_outputs m

  block_bytes_lem :
      (b : BlockState D) → IsBlock b → block_bytes b b.completed ≡ some (block_output (some b))
  unfolding block_bytes block_output
  block_bytes_lem b w = ground (arith, best_effort_lem b b.k w.size w.sized w.distinct)

  get_head : (k : ℕ) (b : BlockState D) (m : List (ℕ × BlockState D)) → get k ((k, b) ∷ m) ≡ some b
  unfolding get
  get_head k b m = ground arith

  remove_head : (k : ℕ) (b : BlockState D) (m : List (ℕ × BlockState D)) → remove k ((k, b) ∷ m) ≡ m
  unfolding remove
  remove_head k b m = ground arith

  -- A block is written, or the write fails.
  flush_key_lem :
      (e : Env) (n k : ℕ) (d : Decoder D) (b : BlockState D)
      → IsBlock b
      → (flush_key e n k d (some b) ≡ err io_error)
        ⊎ ((d' : Decoder D) × (flush_key e n k d (some b) ≡ ok d')
            × (d'.out ≡ d.out ++ (block_output (some b) ∷ []))
            × (d'.pool ≡ remove k d.pool))
  unfolding flush_key flush_block write_all
  flush_key_lem e n k d b w = elim (Bool-cases (e.write_ok n)) [
    | inl succeeds ↦ inr (
      record d {
        pool = remove k d.pool;
        out = d.out ++ (block_output (some b) ∷ []);
        cursor = incr k;
      },
      rw (block_bytes_lem b w, succeeds) refl,
      refl,
      refl,
    )
    | inr failing ↦ inl (rw (block_bytes_lem b w, failing) refl)
  ]

  flush_keys_lem :
      (m : List (ℕ × BlockState D)) (e : Env) (n : ℕ) (d : Decoder D)
      → d.pool ≡ m
      → AllEntries (λ j b. IsBlock b) m
      → (flush_keys e n (map (λ p. p.0) m) d ≡ err io_error)
        ⊎ ((d' : Decoder D) × (flush_keys e n (map (λ p. p.0) m) d ≡ ok d')
            × (d'.out ≡ d.out ++ pool_outputs m)
            × (d'.pool ≡ []))
  unfolding flush_keys
  flush_keys_lem [] e n d empty w = inr (d, refl, sym (append-nil d.out), empty)
  flush_keys_lem ((k, b) ∷ m) e n d same w =
      let found : get k d.pool ≡ some b = ap (get k) same ∙ get_head k b m in
      elim (flush_key_lem e n k d b w.0) [
        | inl failing ↦ inl (rw (found, failing) refl)
        | inr (d₁, done, written, left) ↦
            let rest =
              flush_keys_lem m e (n + 1) d₁ (left ∙ ap (remove k) same ∙ remove_head k b m) w.1 in
            elim rest [
              | inl failing ↦ inl (rw (found, done) failing)
              | inr (d', done', written', left') ↦ inr (
                d',
                rw (found, done) done',
                written'
                    ∙ ap (λ (o : List (List ℕ)). o ++ pool_outputs m) written
                    ∙ append_assoc d.out (block_output (some b) ∷ []) (pool_outputs m),
                left',
              )
            ]
      ]

  -- In a valid state at the end of the input, every block still in the pool is written, in the
  -- order of the pool, decoded or best-effort, and the pool is empty; or a write fails. There is
  -- no panic.
  pub flush_remaining_lem :
      (e : Env) (d : Decoder D)
      → IsValid d
      → (flush_remaining e d ≡ err io_error)
        ⊎ ((d' : Decoder D) × (flush_remaining e d ≡ ok d')
            × (d'.out ≡ d.out ++ pool_outputs d.pool)
            × (d'.pool ≡ []))
  unfolding flush_remaining
  flush_remaining_lem e d v = flush_keys_lem d.pool e 0 d refl v.blocks
