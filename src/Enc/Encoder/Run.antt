-- ===== src/Enc/Encoder/Run.antt =====
-- Whole runs of `encoder_thread` of raptorq/enc/src/main.rs.
use mathlib.Core.List.{append_assoc, append-nil}
use live_video.Prelude.{
  ℕ, ◌+◌, ◌^◌, ◌≤◌, ◌<◌, ◌≡◌, true, inl, inr, refl, sym, ◌∙◌, ap, subst, Bool, not, ◌||◌, leb,
  Bool-cases, List, [], ◌∷◌, ◌++◌, Option, some, length, get_elem?, u8, arith,
}
use live_video.RaptorQ.{RaptorQ}
use live_video.Enc.Rng.{IsRngState, new_rng-IsRngState}
use live_video.Enc.Ring.{BlockGen, exhausted, prune_ring}
use live_video.Enc.Ring.Prune.{prune_ring-IsSuffix, prune_ring-length}
use live_video.Enc.Ring.Pick.{IsPick, IsLive, picks, all_exhausted, pick_block_lem}
use live_video.Enc.Encoder.{
  EncoderArgs, EncoderState, Slot, Incoming, block, empty, disconnected, Status, running,
  block_packets, pop, bump, plain_slot, adaptive_slot, idle_slot, push_block, mint, mint_at, slot,
  start_encoder, encoder_thread,
}
use live_video.Enc.Encoder.Turns.{
  EncoderResult, encoder_runs, encoder_ends, after_block_lem, grown_lem, finish, go_on,
  send_extra_lem,
}
use live_video.Enc.Encoder.Trace.{get_elem?-end, encoder_of, trace_start}
use live_video.Enc.Encoder.Valid.{
  IsRing-extend, IsRing-suffix, IsRing-push, bump-IsBumped, IsValid, RepairsIdle, length-bump,
}

abbrev pub block_of : Incoming → List (List ℕ)
block_of (block b) = b ∷ []
block_of empty = []
block_of disconnected = []

-- The blocks that come in during a run.
abbrev pub blocks_of : List Slot → List (List ℕ)
blocks_of [] = []
blocks_of (t ∷ ts) = block_of t.incoming ++ blocks_of ts

module _ (q : RaptorQ) (accepts : ℕ → Bool) (a : EncoderArgs q.Oti) where
  open q use {Oti, Packet, BlockEncoder, new_encoder, repair_packets}

  plain_slot_lem :
      (bs : List (List ℕ)) (ids : List ℕ) (t : Incoming) (s : EncoderState BlockEncoder Packet)
      → (not a.adaptive || leb a.max_repair a.baseline_repair) ≡ true
      → IsValid q a bs ids s
      → EncoderResult q a (bs ++ block_of t) (plain_slot q accepts a t s)
  unfolding plain_slot
  plain_slot_lem bs ids (block b) s plain v =
      after_block_lem q accepts a bs ids b s (λ e s. record s { sbn = u8 (s.sbn + 1) }) v
        (grown_lem q accepts a bs ids b s s.ring v v.capped
          (IsRing-extend q a bs ids 0 s.ring b plain v.ring))
  plain_slot_lem bs ids empty s plain v = go_on q accepts a bs ids s v
  plain_slot_lem bs ids disconnected s plain v = finish q accepts a bs ids s v

  mint_at_lem :
      (bs : List (List ℕ)) (ids : List ℕ) (idx : ℕ) (s : EncoderState BlockEncoder Packet)
      → a.max_repair < 2 ^ 32
      → RepairsIdle q a
      → IsLive s.ring idx
      → IsValid q a bs ids s
      → EncoderResult q a (bs ++ []) (mint_at q accepts idx s (get_elem? s.ring idx))
  unfolding mint_at IsLive exhausted
  mint_at_lem bs ids idx s small idle (e, at, live) v =
      let w = bump-IsBumped q a bs ids 0 s.ring idx e small at live v.ring in
      rw (at, mint_at)
        (send_extra_lem q accepts a bs ids _ (record s { ring = bump s.ring idx }) w.index
          e.next_repair_id w.entry.bytes w.entry.there w.entry.numbered
          (omega (arith, w.recent idle, v.capped)) (ground (arith, w.entry.ceiling))
          (ap (λ x. pop (repair_packets x e.next_repair_id 1)) (sym w.entry.encodes)) v.numbered
          v.generator (omega (arith, length-bump q s.ring idx, v.capped)) v.counted w.after v.trace)

  mint_lem :
      (bs : List (List ℕ)) (ids : List ℕ) (choice : Option ℕ) (rng : ℕ)
      (s : EncoderState BlockEncoder Packet)
      → a.max_repair < 2 ^ 32
      → RepairsIdle q a
      → IsPick s.ring choice
      → IsRngState rng
      → IsValid q a bs ids s
      → EncoderResult q a (bs ++ []) (mint q accepts s (some (choice, rng)))
  unfolding mint
  mint_lem bs ids choice rng s small idle pick g v = go choice pick
    where
      seeded : IsValid q a bs ids (record s { rng = rng })
      seeded = record {
        numbered = v.numbered;
        generator = g;
        capped = v.capped;
        counted = v.counted;
        ring = v.ring;
        trace = v.trace;
      }

      go :
          (choice : Option ℕ)
          → IsPick s.ring choice
          → EncoderResult q a (bs ++ []) (mint q accepts s (some (choice, rng)))
      go choice (picks i live) =
          mint_at_lem bs ids i (record s { rng = rng }) small idle live seeded
      go choice (all_exhausted all) = go_on q accepts a bs ids (record s { rng = rng }) seeded

  idle_slot_lem :
      (bs : List (List ℕ)) (ids : List ℕ) (t : Slot) (s : EncoderState BlockEncoder Packet)
      → a.max_repair < 2 ^ 32
      → RepairsIdle q a
      → IsValid q a bs ids s
      → EncoderResult q a (bs ++ []) (idle_slot q accepts a t s)
  unfolding idle_slot
  idle_slot_lem bs ids t s small idle v =
      let ring : List (BlockGen BlockEncoder) = prune_ring t.clock a.horizon s.ring in
      let (choice, rng, e, pick, g) = pick_block_lem ring s.rng v.generator in
      subst (λ x. EncoderResult q a (bs ++ []) (mint q accepts (record s { ring = ring }) x))
        (sym e)
        (mint_lem bs ids choice rng (record s { ring = ring }) small idle pick g
          (record {
            numbered = v.numbered;
            generator = v.generator;
            capped = prune_ring-length t.clock a.horizon s.ring;
            counted = v.counted;
            ring =
                IsRing-suffix q a bs ids t.clock a.horizon ring s.ring
                  (prune_ring-IsSuffix t.clock a.horizon s.ring) v.ring;
            trace = v.trace;
          }))

  push_block_lem :
      (bs : List (List ℕ)) (ids : List ℕ) (b : List ℕ) (t : Slot)
      (s : EncoderState BlockEncoder Packet)
      → a.baseline_repair ≤ a.max_repair
      → IsValid q a bs ids s
      → IsValid q a (bs ++ (b ∷ [])) (ids ++ (a.baseline_repair ∷ [])) (
          push_block q a t
            (encoder_of q a (length bs) b)
            (record s { out = s.out ++ block_packets q a (encoder_of q a (length bs) b) }))
  unfolding push_block
  push_block_lem bs ids b t s le v =
      let entry : BlockGen BlockEncoder = record {
        encoder = encoder_of q a (length bs) b;
        next_repair_id = a.baseline_repair;
        max_repair = a.max_repair;
        created = t.created;
      } in
      let longer : List (BlockGen BlockEncoder) = s.ring ++ (entry ∷ []) in
      grown_lem q accepts a bs ids b s (prune_ring t.clock a.horizon longer) v
        (prune_ring-length t.clock a.horizon longer)
        (IsRing-suffix q a _ _ t.clock a.horizon _ longer
          (prune_ring-IsSuffix t.clock a.horizon longer)
          (IsRing-push q a bs ids 0 s.ring b entry (omega arith)
            (record {
              bytes = b;
              there = get_elem?-end bs b (length bs) refl;
              encodes = refl;
              numbered = get_elem?-end ids a.baseline_repair (length bs) (sym v.counted);
              ceiling = refl;
              within = le;
            })
            v.ring))

  pub slot_lem :
      (bs : List (List ℕ)) (ids : List ℕ) (t : Slot) (s : EncoderState BlockEncoder Packet)
      → a.max_repair < 2 ^ 32
      → IsValid q a bs ids s
      → EncoderResult q a (bs ++ block_of t.incoming) (slot q accepts a t s)
  unfolding slot adaptive_slot
  slot_lem bs ids t s small v =
      elim (Bool-cases (not a.adaptive || leb a.max_repair a.baseline_repair)) [
        | inl plain ↦ rw (plain, slot) (plain_slot_lem bs ids t.incoming s plain v)
        | inr idle ↦ rw (idle, slot) (adapt idle (ground arith) t.incoming)
      ]
    where
      adapt :
          RepairsIdle q a
          → a.baseline_repair ≤ a.max_repair
          → (i : Incoming) → EncoderResult q a (bs ++ block_of i) (adaptive_slot q accepts a t i s)
      adapt idle le (block b) =
          after_block_lem q accepts a bs ids b s (push_block q a t) v
            (push_block_lem bs ids b t s le v)
      adapt idle le empty = idle_slot_lem bs ids t s small idle v
      adapt idle le disconnected = finish q accepts a bs ids s v

  encoder_thread_keeps :
      (ts : List Slot) (bs : List (List ℕ)) (st : Status (EncoderState BlockEncoder Packet))
      → a.max_repair < 2 ^ 32
      → EncoderResult q a bs st
      → EncoderResult q a (bs ++ blocks_of ts) (encoder_thread q accepts a ts st)
  unfolding encoder_thread
  encoder_thread_keeps [] bs st small r =
      subst (λ x. EncoderResult q a x st) (sym (append-nil bs)) r
  encoder_thread_keeps (t ∷ ts) bs st small (encoder_runs s ids v) =
      subst (λ x. EncoderResult q a x (encoder_thread q accepts a ts (slot q accepts a t s)))
        (append_assoc bs (block_of t.incoming) (blocks_of ts))
        (encoder_thread_keeps ts (bs ++ block_of t.incoming) _ small (slot_lem bs ids t s small v))
  encoder_thread_keeps (t ∷ ts) bs st small (encoder_ends s bs' later ids sent part e tr p o) =
      encoder_ends s bs' (later ++ blocks_of (t ∷ ts)) ids sent part
        (sym (append_assoc bs' later (blocks_of (t ∷ ts))) ∙ ap (λ x. x ++ blocks_of (t ∷ ts)) e) tr
        p o

  pub start_encoder-IsValid : IsValid q a [] [] (start_encoder q)
  unfolding start_encoder
  start_encoder-IsValid = record {
    numbered = refl;
    generator = new_rng-IsRngState 0x9E3779B97F4A7C15 (omega arith);
    capped = omega arith;
    counted = refl;
    ring = tt;
    trace = trace_start;
  }

  pub encoder_thread-EncoderResult :
      (ts : List Slot)
      → a.max_repair < 2 ^ 32
      → EncoderResult q a (blocks_of ts) (encoder_thread q accepts a ts (running (start_encoder q)))
  encoder_thread-EncoderResult ts small =
      encoder_thread_keeps ts [] (running (start_encoder q)) small
        (encoder_runs (start_encoder q) [] start_encoder-IsValid)
