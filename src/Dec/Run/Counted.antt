-- ===== src/Dec/Run/Counted.antt =====
-- The packet counters of `run_decoder` in raptorq/dec/src/main.rs over whole runs.
use live_video.Prelude.{
  ℕ, zero, suc, ◌+◌, ◌*◌, ◌≡◌, refl, ◌∙◌, ap, subst, List, [], ◌∷◌, Option, none, some, ◌&&◌, ◌||◌,
  leb, map, max, replicate, u64, Outcome, ok, err, panic, ◌>>=◌, inl, inr, Bool-cases, arith,
}
use live_video.Maps.{get, remove}
use live_video.RaptorQ.{RaptorQ}
use live_video.Wire.Constants.{default_block_size}
use live_video.Wire.Frame.Parse.{parse_packet}
use live_video.Dec.Block.{BlockState, best_effort}
use live_video.Dec.State.{Decoder, IntervalStats, Options, incr, start_decoder}
use live_video.Dec.Receive.{Flow, fall, again, abort, on_bytes}
use live_video.Dec.Receive.Counters.{
  Kind, accepted, noop, redundant, unparseable, after_kind, after_gap, kind_of, gap_of, StatsAfter,
  on_bytes-stats,
}
use live_video.Dec.Emit.{
  Env, Fault, Round, emitted, idle, should_force, write_all, count_decoded, count_besteffort,
  count_zero, drop_block, is_late, emit_best_effort, emit_zeros, round_block, round_on, round,
  after_round, emit_loop, emit_blocks,
}
use live_video.Dec.Run.{
  Turn, Received, packet, nothing, disconnected, Next, going, finished, block_bytes, flush_block,
  flush_key, flush_keys, flush_remaining, report_every, flush_out, settle, close, after_receive,
  turn_on, turn, run_from,
}

-- The packets that the four counters count.
abbrev pub counted : IntervalStats → ℕ
counted s = u64 (s.pkts_ok + s.noops + s.pkts_redundant + s.pkts_unparseable)

-- The packets among what is received, up to the end of the channel, given those of later turns.
abbrev pub packets_in : Received → ℕ → ℕ
packets_in (packet bytes) later = later + 1
packets_in nothing later = later
packets_in disconnected later = 0

abbrev pub received_in : List Turn → ℕ
received_in [] = 0
received_in (t ∷ ts) = packets_in t.received (received_in ts)

module _ {D : Type 0} where
  -- The count in a state, if there is one.
  abbrev Counts : ℕ → Outcome Fault (Decoder D) → Type 0
  Counts n (ok d) = counted d.istats ≡ n
  Counts n (err f) = Unit {0}
  Counts n panic = Unit {0}

  abbrev RoundCounts : ℕ → Outcome Fault (Round (Decoder D)) → Type 0
  RoundCounts n (ok (emitted d)) = counted d.istats ≡ n
  RoundCounts n (ok idle) = Unit {0}
  RoundCounts n (err f) = Unit {0}
  RoundCounts n panic = Unit {0}

  abbrev pub NextCounts : ℕ → Outcome Fault (Next (Decoder D)) → Type 0
  NextCounts n (ok (going d)) = counted d.istats ≡ n
  NextCounts n (ok (finished d)) = counted d.istats ≡ n
  NextCounts n (err f) = Unit {0}
  NextCounts n panic = Unit {0}

  -- The same of a turn that goes on, and of one that ends the loop.
  abbrev GoingCounts : ℕ → Outcome Fault (Next (Decoder D)) → Type 0
  GoingCounts n (ok (going d)) = counted d.istats ≡ n
  GoingCounts n (ok (finished d)) = ⊥
  GoingCounts n (err f) = Unit {0}
  GoingCounts n panic = Unit {0}

  abbrev FinalCounts : ℕ → Outcome Fault (Next (Decoder D)) → Type 0
  FinalCounts n (ok (going d)) = ⊥
  FinalCounts n (ok (finished d)) = counted d.istats ≡ n
  FinalCounts n (err f) = Unit {0}
  FinalCounts n panic = Unit {0}

  write_all-Counts :
      (e : Env) (i : ℕ) (d : Decoder D) (bytes : List ℕ)
      → Counts (counted d.istats) (write_all e i d bytes)
  unfolding write_all
  write_all-Counts e i d bytes = elim (Bool-cases (e.write_ok i)) [
    | inl works ↦ rw works refl
    | inr fails ↦ rw fails tt
  ]

  bind_round :
      (n : ℕ) (r : Outcome Fault (Decoder D)) (k : Decoder D → Decoder D)
      → Counts n r
      → ((d : Decoder D) → counted (k d).istats ≡ counted d.istats)
      → RoundCounts n (r >>= (λ d. ok (emitted (k d))))
  bind_round n (ok d) k h keeps = keeps d ∙ h
  bind_round n (err f) k h keeps = tt
  bind_round n panic k h keeps = tt

  bind-Counts :
      (n : ℕ) (r : Outcome Fault (Decoder D)) (k : Decoder D → Outcome Fault (Decoder D))
      → Counts n r
      → ((d : Decoder D) → counted d.istats ≡ n → Counts n (k d))
      → Counts n (r >>= k)
  bind-Counts n (ok d) k h keeps = keeps d h
  bind-Counts n (err f) k h keeps = tt
  bind-Counts n panic k h keeps = tt

  bind_going :
      (n : ℕ) (r : Outcome Fault (Decoder D)) (k : Decoder D → Outcome Fault (Next (Decoder D)))
      → Counts n r
      → ((d : Decoder D) → counted d.istats ≡ n → GoingCounts n (k d))
      → GoingCounts n (r >>= k)
  bind_going n (ok d) k h keeps = keeps d h
  bind_going n (err f) k h keeps = tt
  bind_going n panic k h keeps = tt

  bind_final :
      (n : ℕ) (r : Outcome Fault (Decoder D)) (k : Decoder D → Outcome Fault (Next (Decoder D)))
      → Counts n r
      → ((d : Decoder D) → counted d.istats ≡ n → FinalCounts n (k d))
      → FinalCounts n (r >>= k)
  bind_final n (ok d) k h keeps = keeps d h
  bind_final n (err f) k h keeps = tt
  bind_final n panic k h keeps = tt

  emit_best_effort-RoundCounts :
      (o : Options) (e : Env) (i : ℕ) (d : Decoder D) (b : BlockState D) (bytes : Option (List ℕ))
      → RoundCounts (counted d.istats) (elim bytes as (λ x. Outcome Fault (Round (Decoder D))) [
        | none ↦ panic
        | some bytes ↦ emit_best_effort o e i d b bytes
      ])
  unfolding emit_best_effort count_besteffort drop_block
  emit_best_effort-RoundCounts o e i d b none = tt
  emit_best_effort-RoundCounts o e i d b (some bytes) =
      bind_round _ (write_all e i (drop_block d) bytes) _
        (write_all-Counts e i (drop_block d) bytes) (λ d'. refl)

  round_on-RoundCounts :
      (o : Options) (e : Env) (i : ℕ) (d : Decoder D) (b : Option (BlockState D))
      → RoundCounts (counted d.istats) (round_on o e i d b)
  unfolding round_on round_block emit_zeros count_decoded count_zero drop_block
  round_on-RoundCounts o e i d none =
      elim (Bool-cases (
        d.started && (should_force o d || leb (u64 (d.cursor + o.max_in_flight)) d.highest_seen))) [
          | inl go ↦ rw go (
              bind_round _ (write_all e i d (replicate default_block_size 0)) _
                (write_all-Counts e i d (replicate default_block_size 0)) (λ d'. refl))
          | inr stay ↦ rw stay tt
        ]
  round_on-RoundCounts o e i d (some b) = go b.completed
    where
      go : (c : Option (List ℕ)) → RoundCounts (counted d.istats) (round_block o e i d b c)
      go (some bytes) =
          bind_round _ (write_all e i (drop_block d) bytes) _
            (write_all-Counts e i (drop_block d) bytes) (λ d'. refl)
      go none = elim (Bool-cases (is_late o e (2 * i) b || should_force o d)) [
        | inl now ↦ rw now (emit_best_effort-RoundCounts o e i d b (best_effort b))
        | inr stay ↦ rw stay tt
      ]

  emit_loop-Counts :
      (fuel : ℕ) (o : Options) (e : Env) (i : ℕ) (d : Decoder D)
      → Counts (counted d.istats) (emit_loop fuel o e i d)
  unfolding emit_loop after_round round
  emit_loop-Counts zero o e i d = tt
  emit_loop-Counts (suc fuel) o e i d =
      go (round o e i d) (round_on-RoundCounts o e i d (get d.cursor d.pool))
        (emit_loop-Counts fuel o e (i + 1))
    where
      go :
          (r : Outcome Fault (Round (Decoder D)))
          → RoundCounts (counted d.istats) r
          → ((d' : Decoder D) → Counts (counted d'.istats) (emit_loop fuel o e (i + 1) d'))
          → Counts (counted d.istats) (after_round (emit_loop fuel o e (i + 1)) d r)
      go (ok (emitted d')) h later =
          subst (λ n. Counts n (emit_loop fuel o e (i + 1) d')) h (later d')
      go (ok idle) h later = refl
      go (err f) h later = tt
      go panic h later = tt

  flush_out-Counts : (e : Env) (d : Decoder D) → Counts (counted d.istats) (flush_out e d)
  unfolding flush_out
  flush_out-Counts e d = elim (Bool-cases e.flush_ok) [
    | inl works ↦ rw works refl
    | inr fails ↦ rw fails tt
  ]

  flush_key-Counts :
      (e : Env) (i k : ℕ) (d : Decoder D) (b : Option (BlockState D))
      → Counts (counted d.istats) (flush_key e i k d b)
  unfolding flush_key flush_block
  flush_key-Counts e i k d none = refl
  flush_key-Counts e i k d (some b) = go (block_bytes b b.completed)
    where
      go :
          (bytes : Option (List ℕ))
          → Counts
              (counted d.istats)
              (flush_block e i k (record d { cursor = max d.cursor k }) b bytes)
      go none = tt
      go (some bytes) =
          let d' : Decoder D = record d { cursor = max d.cursor k; pool = remove k d.pool } in
          bind-Counts _ (write_all e i d' bytes) (λ d''. ok (record d'' { cursor = incr k }))
            (write_all-Counts e i d' bytes) (λ d'' h. h)

  flush_keys-Counts :
      (e : Env) (i : ℕ) (ks : List ℕ) (d : Decoder D) (n : ℕ)
      → counted d.istats ≡ n
      → Counts n (flush_keys e i ks d)
  unfolding flush_keys
  flush_keys-Counts e i [] d n h = h
  flush_keys-Counts e i (k ∷ ks) d n h =
      bind-Counts n (flush_key e i k d (get k d.pool)) (flush_keys e (i + 1) ks)
        (subst (λ m. Counts m (flush_key e i k d (get k d.pool))) h
          (flush_key-Counts e i k d (get k d.pool)))
        (λ d' h'. flush_keys-Counts e (i + 1) ks d' n h')

  -- Without an interval, nothing is reset.
  settle-GoingCounts :
      (o : Options) (t : Turn) (d : Decoder D)
      → o.stats_interval ≡ none
      → GoingCounts (counted d.istats) (settle o t d)
  unfolding settle report_every emit_blocks
  settle-GoingCounts o t d never =
      bind_going _ (emit_blocks o t.env d) _ (emit_loop-Counts _ o t.env 0 d) (λ d' h.
        bind_going _ (flush_out t.env d') _
          (subst (λ n. Counts n (flush_out t.env d')) h (flush_out-Counts t.env d'))
          (λ d'' h'. rw never h'))

  close-FinalCounts : (t : Turn) (d : Decoder D) → FinalCounts (counted d.istats) (close t d)
  unfolding close flush_remaining
  close-FinalCounts t d =
      bind_final _ (flush_remaining t.env d) _
        (flush_keys-Counts t.env 0 (map (λ p. p.0) d.pool) d (counted d.istats) refl)
        (λ d' h.
          bind_final _ (flush_out t.env d') _
            (subst (λ n. Counts n (flush_out t.env d')) h (flush_out-Counts t.env d'))
            (λ d'' h'. h'))

counted-after_kind :
    (k : Kind) (g : Option ℕ) (s : IntervalStats)
    → counted (after_kind k (after_gap g s)) ≡ u64 (counted s + 1)
counted-after_kind accepted none s = omega arith
counted-after_kind accepted (some gap) s = omega arith
counted-after_kind noop none s = omega arith
counted-after_kind noop (some gap) s = omega arith
counted-after_kind redundant none s = omega arith
counted-after_kind redundant (some gap) s = omega arith
counted-after_kind unparseable none s = omega arith
counted-after_kind unparseable (some gap) s = omega arith

module _ (q : RaptorQ) (o : Options) (never : o.stats_interval ≡ none) where
  open q use {BlockDecoder}

  after_receive-GoingCounts :
      (t : Turn) (s : IntervalStats) (f : Flow (Decoder BlockDecoder))
      → StatsAfter q s f
      → GoingCounts (counted s) (after_receive o t f)
  unfolding after_receive
  after_receive-GoingCounts t s (fall d) h =
      subst (λ x. GoingCounts (counted x) (settle o t d)) h (settle-GoingCounts o t d never)
  after_receive-GoingCounts t s (again d) h = ap counted h
  after_receive-GoingCounts t s abort h = tt

  on_packet-GoingCounts :
      (t : Turn) (d : Decoder BlockDecoder) (bytes : List ℕ)
      → GoingCounts (u64 (counted d.istats + 1)) (turn_on q o t d (packet bytes))
  unfolding turn_on
  on_packet-GoingCounts t d bytes =
      let f = parse_packet q bytes o.pid in
      subst (λ n. GoingCounts n (after_receive o t (on_bytes q o t.arrival d bytes)))
        (counted-after_kind (kind_of q d f) (gap_of q d f) d.istats)
        (after_receive-GoingCounts t
          (after_kind (kind_of q d f) (after_gap (gap_of q d f) d.istats))
          (on_bytes q o t.arrival d bytes) (on_bytes-stats q o t.arrival d bytes))

  -- What a turn and the later ones come to.
  goes_on :
      (n m : ℕ) (ts : List Turn) (r : Outcome Fault (Next (Decoder BlockDecoder)))
      → GoingCounts n r
      → ((d : Decoder BlockDecoder)
          → NextCounts (u64 (counted d.istats + m)) (run_from q o ts (going d)))
      → NextCounts (u64 (n + m)) (r >>= run_from q o ts)
  goes_on n m ts (ok (going d)) h later =
      subst (λ k. NextCounts (u64 (k + m)) (run_from q o ts (going d))) h (later d)
  goes_on n m ts (ok (finished d)) h later = absurd h
  goes_on n m ts (err f) h later = tt
  goes_on n m ts panic h later = tt

  ends_here :
      (n : ℕ) (ts : List Turn) (r : Outcome Fault (Next (Decoder BlockDecoder)))
      → FinalCounts n r
      → NextCounts n (r >>= run_from q o ts)
  unfolding run_from
  ends_here n ts (ok (going d)) h = absurd h
  ends_here n ts (ok (finished d)) h = h
  ends_here n ts (err f) h = tt
  ends_here n ts panic h = tt

  run_from_lem :
      (ts : List Turn) (d : Decoder BlockDecoder)
      → NextCounts (u64 (counted d.istats + received_in ts)) (run_from q o ts (going d))
  unfolding run_from turn turn_on
  run_from_lem [] d = omega arith
  run_from_lem (t ∷ ts) d = go t.received (run_from_lem ts)
    where
      go :
          (x : Received)
          → ((d' : Decoder BlockDecoder)
              → NextCounts (u64 (counted d'.istats + received_in ts)) (run_from q o ts (going d')))
          → NextCounts
              (u64 (counted d.istats + packets_in x (received_in ts)))
              (turn_on q o t d x >>= run_from q o ts)
      go (packet bytes) later =
          subst (λ n. NextCounts n (turn_on q o t d (packet bytes) >>= run_from q o ts))
            (omega arith)
            (goes_on (u64 (counted d.istats + 1)) (received_in ts) ts _
              (on_packet-GoingCounts t d bytes) later)
      go nothing later =
          goes_on (counted d.istats) (received_in ts) ts _ (settle-GoingCounts o t d never) later
      go disconnected later =
          subst (λ n. NextCounts n (turn_on q o t d disconnected >>= run_from q o ts)) (omega arith)
            (ends_here (counted d.istats) ts _ (close-FinalCounts t d))

  -- Without an interval for the statistics, every packet that was received is counted exactly
  -- once, modulo 2^64, as a data packet that was accepted, as stuffing, as redundant or as
  -- unparseable, up to where the loop stands or has returned: the emission of blocks, late and
  -- lost ones too, changes none of these counters.
  pub run_from-NextCounts :
      (ts : List Turn) (now : ℕ)
      → NextCounts (u64 (received_in ts)) (run_from q o ts (going (start_decoder now)))
  unfolding start_decoder
  run_from-NextCounts ts now =
      subst (λ n. NextCounts n (run_from q o ts (going (start_decoder now)))) (omega arith)
        (run_from_lem ts (start_decoder now))
