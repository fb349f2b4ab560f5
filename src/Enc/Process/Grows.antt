-- ===== src/Enc/Process/Grows.antt =====
-- A turn of a thread of raptorq/enc/src/main.rs only adds to what it has sent.
use mathlib.Core.List.{append-nil}
use live_video.Prelude.{
  ℕ, suc, ◌+◌, ◌≡◌, refl, sym, Bool, true, not, ◌||◌, List, [], ◌∷◌, ◌++◌, Option, none, some, ltb,
  leb, ◌==◌, if◌then◌else◌, Bool-cases, inl, inr, length, drop, get_elem?, u8,
}
use live_video.Prelude.Slices.{write_at}
use live_video.RaptorQ.{RaptorQ}
use live_video.Dec.Reader.{Read, delivers, interrupted, failed}
use live_video.Enc.Reader as Reading
use live_video.Enc.Reader.{BlockReader, Progress, at_end, send_full, after_read, read_turn}
use live_video.Enc.Ring.{prune_ring, BlockGen}
use live_video.Enc.Encoder.{
  EncoderArgs, EncoderState, Status, Slot, Incoming, block, empty, disconnected, panicked, bump,
  block_packets, emit_block, after_block, plain_slot, send_extra, mint_at, mint, idle_slot,
  push_block, adaptive_slot, slot,
}
use live_video.Enc.Encoder.Turns.{SendResult, sends_all, sends_part, send_all_lem}
use live_video.Enc.Process.{blocks_sent, packets_sent}

-- `ys` begins with `xs`.
pub record IsGrown {A : Type 0} (xs ys : List A) : Type 0 where
  pub new : List A
  pub grown : ys ≡ xs ++ new

IsGrown-same : {A : Type 0} (xs : List A) → IsGrown xs xs
IsGrown-same xs = record { new = []; grown = sym (append-nil xs) }

-- The reader, unless a bounds check fails.
pub data ReaderGrows (xs : List (List ℕ)) (p : Progress) : Type 0 where
  reader_grows : IsGrown xs (blocks_sent p) → ReaderGrows xs p
  reader_panics : p ≡ Reading.panicked → ReaderGrows xs p

at_end-IsGrown : (r : BlockReader) → IsGrown r.sent (at_end (λ n. true) r).sent
unfolding at_end
at_end-IsGrown r = elim (Bool-cases (ltb 0 r.filled)) [
  | inl held ↦ rw held (record { new = _; grown = refl })
  | inr nothing ↦ rw nothing (IsGrown-same r.sent)
]

send_full-IsGrown :
    (size : ℕ) (r : BlockReader) → IsGrown r.sent (blocks_sent (send_full (λ n. true) size r))
unfolding send_full blocks_sent
send_full-IsGrown size r = elim (Bool-cases (r.filled == size)) [
  | inl full ↦ rw full (record { new = r.block ∷ []; grown = refl })
  | inr partial ↦ rw partial (IsGrown-same r.sent)
]

after_read-Grows :
    (size : ℕ) (r : BlockReader) (bytes : List ℕ)
    → ReaderGrows r.sent (after_read (λ n. true) size r bytes)
unfolding after_read blocks_sent
after_read-Grows size r [] = reader_grows (at_end-IsGrown r)
after_read-Grows size r (b ∷ bs) = written (write_at r.filled (suc (length bs)) r.block (b ∷ bs))
  where
    written :
        (w : Option (List ℕ))
        → ReaderGrows r.sent (elim w as (λ x. Progress) [
          | none ↦ Reading.panicked
          | some buf ↦
              send_full
                (λ n. true)
                size
                (record r {
                  stdin = drop (suc (length bs)) r.stdin;
                  block = buf;
                  filled = r.filled + suc (length bs);
                })
        ])
    written none = reader_panics refl
    written (some buf) = reader_grows (send_full-IsGrown size _)

pub read_turn-ReaderGrows :
    (size : ℕ) (e : Read) (r : BlockReader) → ReaderGrows r.sent (read_turn (λ n. true) size e r)
unfolding read_turn blocks_sent
read_turn-ReaderGrows size (delivers n) r = after_read-Grows size r _
read_turn-ReaderGrows size interrupted r = reader_grows (IsGrown-same r.sent)
read_turn-ReaderGrows size failed r = reader_grows (IsGrown-same r.sent)

module _ (q : RaptorQ) (a : EncoderArgs q.Oti) where
  open q use {Packet, BlockEncoder}

  -- The encoder, unless a choice in the ring fails.
  pub data EncoderGrows (xs : List Packet) (s : Status (EncoderState BlockEncoder Packet))
      : Type 0 where
    encoder_grows : IsGrown xs (packets_sent s) → EncoderGrows xs s
    encoder_panics : s ≡ panicked → EncoderGrows xs s

  after_block-Grows :
      (grow : BlockEncoder → EncoderState BlockEncoder Packet → EncoderState BlockEncoder Packet)
      (s : EncoderState BlockEncoder Packet) (bytes : List ℕ)
      → ((e : BlockEncoder) (s' : EncoderState BlockEncoder Packet) → (grow e s').out ≡ s'.out)
      → EncoderGrows s.out (after_block q grow s (emit_block q (λ n. true) a bytes s.sbn s.out))
  unfolding emit_block after_block packets_sent
  after_block-Grows grow s bytes keeps =
      go _ (send_all_lem (λ n. true) s.out (block_packets q a (q.new_encoder s.sbn a.oti bytes)))
    where
      go :
          (r : Bool × List Packet)
          → SendResult s.out (block_packets q a (q.new_encoder s.sbn a.oti bytes)) r
          → EncoderGrows s.out (
              after_block q grow s
                (if r.0 then some (q.new_encoder s.sbn a.oti bytes) else none, r.1))
      go r sends_all = encoder_grows (record { new = _; grown = keeps _ _ })
      go r (sends_part part rest e) = encoder_grows (record { new = part; grown = refl })

  send_extra-Grows :
      (p : Option Packet) (s : EncoderState BlockEncoder Packet)
      → EncoderGrows s.out (send_extra q (λ n. true) p s)
  unfolding send_extra packets_sent
  send_extra-Grows none s = encoder_grows (IsGrown-same s.out)
  send_extra-Grows (some p) s = encoder_grows (record { new = p ∷ []; grown = refl })

  mint-Grows :
      (s : EncoderState BlockEncoder Packet) (choice : Option (Option ℕ × ℕ))
      → EncoderGrows s.out (mint q (λ n. true) s choice)
  unfolding mint mint_at packets_sent
  mint-Grows s none = encoder_panics refl
  mint-Grows s (some (none, rng)) = encoder_grows (IsGrown-same s.out)
  mint-Grows s (some (some idx, rng)) = go (get_elem? s.ring idx)
    where
      go :
          (b : Option (BlockGen BlockEncoder))
          → EncoderGrows s.out (mint_at q (λ n. true) idx (record s { rng = rng }) b)
      go none = encoder_panics refl
      go (some b) = send_extra-Grows _ (record s { rng = rng; ring = bump s.ring idx })

  pub slot-EncoderGrows :
      (t : Slot) (s : EncoderState BlockEncoder Packet)
      → EncoderGrows s.out (slot q (λ n. true) a t s)
  unfolding slot plain_slot adaptive_slot idle_slot push_block packets_sent
  slot-EncoderGrows t s = elim (Bool-cases (not a.adaptive || leb a.max_repair a.baseline_repair)) [
    | inl plain ↦ rw plain (at_plain t.incoming)
    | inr idle ↦ rw idle (at_adaptive t.incoming)
  ]
    where
      at_plain : (i : Incoming) → EncoderGrows s.out (plain_slot q (λ n. true) a i s)
      at_plain (block b) =
          after_block-Grows (λ e s. record s { sbn = u8 (s.sbn + 1) }) s b (λ e s'. refl)
      at_plain empty = encoder_grows (IsGrown-same s.out)
      at_plain disconnected = encoder_grows (IsGrown-same s.out)

      at_adaptive : (i : Incoming) → EncoderGrows s.out (adaptive_slot q (λ n. true) a t i s)
      at_adaptive (block b) = after_block-Grows (push_block q a t) s b (λ e s'. refl)
      at_adaptive empty = mint-Grows (record s { ring = prune_ring t.clock a.horizon s.ring }) _
      at_adaptive disconnected = encoder_grows (IsGrown-same s.out)
