-- ===== src/Dec/Emit/Rounds.antt =====
-- One round of the emission loop of raptorq/dec/src/main.rs, on every branch.
use live_video.Prelude.{
  ℕ, ◌+◌, ◌≤◌, ◌<◌, ◌≡◌, refl, sym, ◌∙◌, ap, subst, true, false, List, [], ◌∷◌, ◌++◌, none, some,
  arith, leb, ◌&&◌, ◌||◌, Outcome, ok, err, inl, inr, Bool-cases, Option-cases, u64, ◌*◌,
}
use live_video.Maps.{get, remove, last_key}
use live_video.Maps.Laws.{get-AllEntries, get-last_key, last_key_greatest, remove_absent}
use live_video.Dec.Block.{BlockState, best_effort}
use live_video.Dec.Block.BestEffort.{best_effort_lem, assemble, symbol_or, zero_symbol}
use live_video.Dec.Block.Invariant.{IsBlock}
use live_video.Dec.State.{Decoder, Options}
use live_video.Dec.Invariant.{IsValid, Fits64, IsSettled, block_output}
use live_video.Dec.Emit.{
  Env, Fault, io_error, Round, emitted, idle, should_force, write_all, count_decoded,
  count_besteffort, count_zero, drop_block, is_late, emit_best_effort, emit_zeros, round_block,
  round_on, round,
}

-- A round that emits writes the output of the block at the cursor, takes that block out of the
-- pool and passes on to the next number; the cursor was not past the highest number seen.
pub record IsEmission {D : Type 0} (d d' : Decoder D) : Type 0 where
  pub behind : d.cursor ≤ d.highest_seen
  pub next : d'.cursor ≡ d.cursor + 1
  pub written : d'.out ≡ d.out ++ (block_output (get d.cursor d.pool) ∷ [])
  pub pool_left : d'.pool ≡ remove d.cursor d.pool
  pub same_highest : d'.highest_seen ≡ d.highest_seen
  pub same_started : d'.started ≡ d.started
  pub begun : d.started ≡ true

-- A round fails on a write error, rests where the state is settled, or emits.
pub data RoundResult {D : Type 0} (o : Options) (d : Decoder D)
    (r : Outcome Fault (Round (Decoder D))) : Type 0 where
  fails : r ≡ err io_error → RoundResult o d r
  rests : r ≡ ok idle → IsSettled o d → RoundResult o d r
  emits : (d' : Decoder D) → r ≡ ok (emitted d') → IsEmission d d' → RoundResult o d r

get_nil : {D : Type 0} (k : ℕ) → get {V = BlockState D} k [] ≡ none
unfolding get
get_nil k = refl

module _ {D : Type 0} (o : Options) (d : Decoder D) (v : IsValid d) (f : Fits64 o d) where
  wrap_window : u64 (d.cursor + o.max_in_flight) ≡ d.cursor + o.max_in_flight
  wrap_window = omega (arith, v.reached)

  -- Forced: some block lies beyond the window.
  forced : should_force o d ≡ true → d.cursor + o.max_in_flight ≤ d.highest_seen
  unfolding should_force
  forced h = elim (Option-cases (last_key d.pool)) [
    | inl none_left ↦ absurd (ground (arith, none_left))
    | inr (k, last) ↦
        let (b, found) = get-last_key d.cursor k d.pool v.ascends last in
        let low : k ≤ d.highest_seen =
          get-AllEntries (λ j b. j ≤ d.highest_seen) k b d.pool v.bounded found in
        ground (arith, wrap_window)
  ]

  -- Not forced: every block lies within the window.
  unforced :
      should_force o d ≡ false
      → (j : ℕ) (b : BlockState D) → get j d.pool ≡ some b
      → j < d.cursor + o.max_in_flight
  unfolding should_force
  unforced h j b found =
      let (k, last, below) = last_key_greatest d.cursor j b d.pool v.ascends found in
      ground (arith, wrap_window)

  -- The block at the cursor, if it is there, is not behind the highest number.
  in_range : (b : BlockState D) → get d.cursor d.pool ≡ some b → d.cursor ≤ d.highest_seen
  in_range b found = get-AllEntries (λ j b. j ≤ d.highest_seen) d.cursor b d.pool v.bounded found

  -- A block can be in the pool only after the start.
  found_begun : (b : BlockState D) → get d.cursor d.pool ≡ some b → d.started ≡ true
  found_begun b found = elim (Bool-cases d.started) [
    | inl begun ↦ begun
    | inr fresh ↦
        let missing : get d.cursor d.pool ≡ none =
          ap (get d.cursor) (v.unstarted fresh) ∙ get_nil d.cursor in
        absurd (ground (arith, sym missing ∙ found))
  ]

  next_cursor : u64 (d.cursor + 1) ≡ d.cursor + 1
  next_cursor = omega (arith, v.reached)

  -- The emission of `bytes` for the block at the cursor.
  written_state : List ℕ → Decoder D
  written_state bytes = record (drop_block d) { out = d.out ++ (bytes ∷ []) }

  decoded_result :
      (e : Env) (n : ℕ) (b : BlockState D) (bytes : List ℕ)
      → get d.cursor d.pool ≡ some b
      → b.completed ≡ some bytes
      → RoundResult o d (round_block o e n d b (some bytes))
  unfolding round_block write_all count_decoded drop_block written_state block_output
  decoded_result e n b bytes found done = elim (Bool-cases (e.write_ok n)) [
    | inl succeeds ↦ emits (count_decoded (written_state bytes)) (rw succeeds refl) (record {
      behind = in_range b found;
      next = next_cursor;
      written = rw (found, done) refl;
      pool_left = refl;
      same_highest = refl;
      same_started = refl;
      begun = found_begun b found;
    })
    | inr failing ↦ fails (rw failing refl)
  ]

  open_output :
      (b : BlockState D)
      → b.completed ≡ none
      → block_output (some b) ≡ assemble (symbol_or (λ _. zero_symbol) b.source_symbols) 0 b.k
  unfolding block_output
  open_output b open_block = simp open_block

  best_effort_bytes :
      (b : BlockState D)
      → get d.cursor d.pool ≡ some b
      → b.completed ≡ none
      → best_effort b ≡ some (block_output (some b))
  best_effort_bytes b found open_block =
      let w = get-AllEntries (λ j b. IsBlock b) d.cursor b d.pool v.blocks found in
      best_effort_lem b b.k w.size w.sized w.distinct ∙ ap some (sym (open_output b open_block))

  best_effort_result :
      (e : Env) (n : ℕ) (b : BlockState D)
      → get d.cursor d.pool ≡ some b
      → RoundResult o d (emit_best_effort o e n d b (block_output (some b)))
  unfolding emit_best_effort write_all count_besteffort drop_block written_state
  best_effort_result e n b found = elim (Bool-cases (e.write_ok n)) [
    | inl succeeds ↦
        emits
          (count_besteffort (written_state (block_output (some b))) b (is_late o e (2 * n + 1) b))
          (rw succeeds refl)
          (record {
            behind = in_range b found;
            next = next_cursor;
            written = rw found refl;
            pool_left = refl;
            same_highest = refl;
            same_started = refl;
            begun = found_begun b found;
          })
    | inr failing ↦ fails (rw failing refl)
  ]

  zeros_result :
      (e : Env) (n : ℕ)
      → get d.cursor d.pool ≡ none
      → d.cursor ≤ d.highest_seen
      → d.started ≡ true
      → RoundResult o d (emit_zeros e n d)
  unfolding emit_zeros write_all count_zero block_output
  zeros_result e n missing range begun = elim (Bool-cases (e.write_ok n)) [
    | inl succeeds ↦
        emits (count_zero (record d { out = d.out ++ (block_output {D = D} none ∷ []) }))
          (rw succeeds refl)
          (record {
            behind = range;
            next = next_cursor;
            written = rw missing refl;
            pool_left = sym (remove_absent d.cursor d.pool missing);
            same_highest = refl;
            same_started = refl;
            begun = begun;
          })
    | inr failing ↦ fails (rw failing refl)
  ]

  -- A waiting block at the cursor, inside the window.
  waiting-IsSettled :
      (b : BlockState D)
      → get d.cursor d.pool ≡ some b
      → b.completed ≡ none
      → should_force o d ≡ false
      → IsSettled o d
  waiting-IsSettled b found open_block calm = record {
    window = λ started. elim (Option-cases (get d.highest_seen d.pool)) [
      | inl gone ↦ absurd (v.present started (in_range b found) gone)
      | inr (c, there) ↦ unforced calm d.highest_seen c there
    ];
    waiting = λ c same. cc;
  }

  open_result :
      (e : Env) (n : ℕ) (b : BlockState D)
      → get d.cursor d.pool ≡ some b
      → b.completed ≡ none
      → RoundResult o d (round_block o e n d b none)
  unfolding round_block
  open_result e n b found open_block =
      elim (Bool-cases (is_late o e (2 * n) b || should_force o d)) [
        | inl go ↦ rw (go, best_effort_bytes b found open_block) (best_effort_result e n b found)
        | inr wait ↦ rw wait (rests refl (waiting-IsSettled b found open_block (ground arith)))
      ]

  found_result :
      (e : Env) (n : ℕ) (b : BlockState D)
      → get d.cursor d.pool ≡ some b
      → RoundResult o d (round_block o e n d b b.completed)
  found_result e n b found = elim (Option-cases b.completed) [
    | inl open_block ↦
        subst (λ c. RoundResult o d (round_block o e n d b c)) (sym open_block)
          (open_result e n b found open_block)
    | inr (bytes, done) ↦
        subst (λ c. RoundResult o d (round_block o e n d b c)) (sym done)
          (decoded_result e n b bytes found done)
  ]

  -- Nothing at the cursor: the loop rests unless a block lies beyond the window.
  missing_result :
      (e : Env) (n : ℕ) → get d.cursor d.pool ≡ none → RoundResult o d (round_on o e n d none)
  unfolding round_on
  missing_result e n missing =
      elim (Bool-cases (
        d.started && (should_force o d || leb (u64 (d.cursor + o.max_in_flight)) d.highest_seen))) [
          | inl go ↦
              let beyond : d.cursor + o.max_in_flight ≤ d.highest_seen =
                ground (arith, wrap_window, forced) in
              rw go (zeros_result e n missing (omega arith) (ground arith))
          | inr wait ↦ rw wait (
              rests refl (record {
                window = λ started. ground (arith, wrap_window);
                waiting = λ b found. cc;
              }))
        ]

  -- On a valid state, with the sums in range, a round of the loop does not panic. It fails on a
  -- write error; or it rests, and then every block seen lies within `max_in_flight` of the cursor
  -- and the block at the cursor is not complete; or it writes the output of the block at the
  -- cursor, which is not past the highest one seen, drops it from the pool and moves the cursor
  -- on by one.
  pub round_lem : (e : Env) (n : ℕ) → RoundResult o d (round o e n d)
  unfolding round round_on
  round_lem e n = elim (Option-cases (get d.cursor d.pool)) [
    | inl missing ↦ rw missing (missing_result e n missing)
    | inr (b, found) ↦ rw found (found_result e n b found)
  ]
