-- ===== src/Dec/Emit/Loop.antt =====
-- The inner loop of `run_decoder` in raptorq/dec/src/main.rs: it ends, and emits the blocks from
-- the cursor on, in order and each once.
use mathlib.Core.Bool.{false≢true}
use mathlib.Core.List.{append_assoc, append-nil}
use live_video.Prelude.{
  ℕ, zero, suc, ◌+◌, ◌-◌, ◌≤◌, ◌≡◌, refl, sym, ◌∙◌, ap, ap₂, subst, false, List, [], ◌∷◌, ◌++◌,
  arith, Outcome, ok, err,
}
use live_video.Maps.{get, remove}
use live_video.Maps.Laws.{Ascends, remove-Ascends_first, remove-AllEntries, get-remove_ne}
use live_video.Dec.Block.{BlockState}
use live_video.Dec.State.{Decoder, Options}
use live_video.Dec.Invariant.{IsValid, Fits64, IsSettled, block_output, outputs}
use live_video.Dec.Emit.{Env, Fault, Round, io_error, after_round, emit_loop, emit_blocks}
use live_video.Dec.Emit.Rounds.{IsEmission, RoundResult, fails, rests, emits, round_lem}

-- A pass over the emission loop: `n` blocks are written, those from the cursor on, and the pool
-- keeps the blocks from the new cursor on.
pub record IsPass {D : Type 0} (n : ℕ) (d d' : Decoder D) : Type 0 where
  pub next : d'.cursor ≡ d.cursor + n
  pub written : d'.out ≡ d.out ++ outputs n d.cursor d.pool
  pub kept : (j : ℕ) → d.cursor + n ≤ j → get j d'.pool ≡ get j d.pool
  pub same_highest : d'.highest_seen ≡ d.highest_seen
  pub same_started : d'.started ≡ d.started
  pub none_before : d.started ≡ false → n ≡ 0

-- The loop fails on a write error, or makes a pass to a valid and settled state.
pub data PassResult {D : Type 0} (o : Options) (d : Decoder D) (r : Outcome Fault (Decoder D))
    : Type 0 where
  pass_fails : r ≡ err io_error → PassResult o d r
  passes :
      (n : ℕ) (d' : Decoder D)
      → r ≡ ok d'
      → IsPass n d d'
      → IsValid d'
      → IsSettled o d'
      → PassResult o d r

module _ {D : Type 0} where
  remove_nil : (k : ℕ) → remove {V = BlockState D} k [] ≡ []
  unfolding remove
  remove_nil k = refl

  IsEmission-IsValid : (d d' : Decoder D) → IsEmission d d' → IsValid d → IsValid d'
  IsEmission-IsValid d d' s v =
      let gone = remove d.cursor d.pool in
      let first : Ascends (suc d.cursor) gone = remove-Ascends_first d.cursor d.pool v.ascends in
      let start : suc d.cursor ≡ d'.cursor = omega (arith, s.next) in
      record {
        ascends = rw s.pool_left (subst (λ c. Ascends c gone) start first);
        bounded = rw (s.pool_left, s.same_highest) (remove-AllEntries _ d.cursor d.pool v.bounded);
        blocks = rw s.pool_left (remove-AllEntries _ d.cursor d.pool v.blocks);
        reached = omega (arith, s.behind, s.next, s.same_highest);
        present = λ started below missing. v.present (sym s.same_started ∙ started) s.behind (
            sym (get-remove_ne d.cursor d.highest_seen d.pool (omega (arith, s)))
            ∙ ap₂ get (sym s.same_highest) (sym s.pool_left)
            ∙ missing);
        unstarted = λ unstarted.
            let empty : d.pool ≡ [] = v.unstarted (sym s.same_started ∙ unstarted) in
            s.pool_left ∙ rw empty (remove_nil d.cursor);
      }

  outputs_ext :
      (n c : ℕ) (m p : List (ℕ × BlockState D))
      → ((j : ℕ) → c ≤ j → get j m ≡ get j p)
      → outputs n c m ≡ outputs n c p
  unfolding outputs
  outputs_ext zero c m p h = refl
  outputs_ext (suc n) c m p h =
      ap₂ ◌∷◌ (ap block_output (h c (omega arith)))
        (outputs_ext n (suc c) m p (λ j lo. h j (omega arith)))

  -- An emission followed by a pass is a pass.
  IsEmission-IsPass :
      (n : ℕ) (d d' d'' : Decoder D) → IsEmission d d' → IsPass n d' d'' → IsPass (suc n) d d''
  unfolding outputs
  IsEmission-IsPass n d d' d'' s p =
      let kept_one : (j : ℕ) → d.cursor + 1 ≤ j → get j d'.pool ≡ get j d.pool =
        λ j lo. ap (get j) s.pool_left ∙ get-remove_ne d.cursor j d.pool (omega arith) in
      record {
        next = omega (arith, p.next, s.next);
        written =
            let first = block_output (get d.cursor d.pool) in
            let later : outputs n d'.cursor d'.pool ≡ outputs n (suc d.cursor) d.pool =
              ap (λ c. outputs n c d'.pool) (omega (arith, s.next))
              ∙ outputs_ext n (suc d.cursor) d'.pool d.pool (λ j lo. kept_one j (omega arith)) in
            p.written
            ∙ ap₂ ◌++◌ s.written later
            ∙ append_assoc d.out (first ∷ []) (outputs n (suc d.cursor) d.pool);
        kept = λ j lo. p.kept j (omega (arith, s.next)) ∙ kept_one j (omega arith);
        same_highest = p.same_highest ∙ s.same_highest;
        same_started = p.same_started ∙ s.same_started;
        none_before = λ fresh. absurd (false≢true (sym fresh ∙ s.begun));
      }

  -- One round, and a pass from where it leaves the state.
  pass_after :
      {o : Options} {d : Decoder D} {r : Outcome Fault (Round (Decoder D))}
      (next : Decoder D → Outcome Fault (Decoder D))
      → IsValid d
      → RoundResult o d r
      → ((d' : Decoder D) → IsEmission d d' → PassResult o d' (next d'))
      → PassResult o d (after_round next d r)
  unfolding after_round outputs
  pass_after next v (fails h) rec = rw h (pass_fails refl)
  pass_after {d} next v (rests h settled) rec = rw h (
      passes 0 d refl
        (record {
          next = omega arith;
          written = sym (append-nil d.out);
          kept = λ j lo. refl;
          same_highest = refl;
          same_started = refl;
          none_before = λ _. refl;
        })
        v settled)
  pass_after {o} {d} next v (emits d' h s) rec = rw h (extend (rec d' s))
    where
      extend : PassResult o d' (next d') → PassResult o d (next d')
      extend (pass_fails g) = pass_fails g
      extend (passes n d'' g p w settled) =
          passes (suc n) d'' g (IsEmission-IsPass n d d' d'' s p) w settled

  emit_loop_lem :
      (fuel : ℕ) (o : Options) (e : Env) (n : ℕ) (d : Decoder D)
      → d.highest_seen + 2 ≤ fuel + d.cursor
      → IsValid d
      → Fits64 o d
      → PassResult o d (emit_loop fuel o e n d)
  unfolding emit_loop
  emit_loop_lem zero o e n d h v f = absurd (omega (arith, v.reached))
  emit_loop_lem (suc fuel) o e n d h v f =
      pass_after (emit_loop fuel o e (n + 1)) v (round_lem o d v f e n) (λ d' s.
        emit_loop_lem fuel o e (n + 1) d' (omega (arith, s)) (IsEmission-IsValid d d' s v)
          (omega (arith, s)))

  -- On a valid state, with the sums in range, the inner loop always ends, and never panics: it
  -- stops on a write error, or has written the outputs of consecutive blocks from the cursor on,
  -- in order, each once and none left out, and rests with a valid state in which every block
  -- seen lies within `max_in_flight` of the cursor and the block at the cursor is not complete.
  pub emit_blocks_lem :
      (o : Options) (e : Env) (d : Decoder D)
      → IsValid d
      → Fits64 o d
      → PassResult o d (emit_blocks o e d)
  unfolding emit_blocks
  emit_blocks_lem o e d v f =
      emit_loop_lem (d.highest_seen + 2 - d.cursor) o e 0 d (omega arith) v f
