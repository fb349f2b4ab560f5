-- ===== src/Enc/Encoder.antt =====
-- `emit_block` and `encoder_thread` of raptorq/enc/src/main.rs. `accepts n` says whether the
-- channel takes a packet once `n` packets have been sent.
pub mod Trace
pub mod Valid
pub mod Turns
pub mod Run
pub mod Spacing
use live_video.Prelude.{
  ℕ, zero, suc, ◌+◌, ◌/◌, ◌-◌, ◌^◌, max, Bool, true, false, not, ◌||◌, List, [], ◌∷◌, ◌++◌, Option,
  none, some, leb, ltb, if◌then◌else◌, length, get_elem?, u8, u32,
}
use live_video.RaptorQ.{RaptorQ}
use live_video.Wire.Constants.{symbol_size}
use live_video.Enc.Interleave.{interleave}
use live_video.Enc.Rng.{new_rng}
use live_video.Enc.Ring.{BlockGen, prune_ring, pick_block}

-- What the thread was started with.
pub record EncoderArgs (O : Type 0) : Type 0 where
  pub oti : O
  pub baseline_repair : ℕ
  pub max_repair : ℕ
  pub adaptive : Bool
  pub horizon : ℕ

-- The variables of the thread, with the packets sent so far.
pub record EncoderState (E P : Type 0) : Type 0 where
  pub ring : List (BlockGen E)
  pub rng : ℕ
  pub sbn : ℕ
  pub out : List P

-- What `try_recv` finds.
pub data Incoming : Type 0 where
  block : List ℕ → Incoming
  empty : Incoming
  disconnected : Incoming

-- One round: what arrives, and the readings of the clock, the first when a block is stamped.
pub record Slot : Type 0 where
  pub incoming : Incoming
  pub created : ℕ
  pub clock : ℕ → ℕ

-- Where the thread stands: in its loop, returned, or panicked.
pub data Status (S : Type 0) : Type 0 where
  running : S → Status S
  returned : S → Status S
  panicked : Status S

unfoldable pub rep_interval_of : ℕ → ℕ → ℕ
rep_interval_of k_block baseline_repair =
    if ltb 0 baseline_repair then max (k_block / baseline_repair) 1 else 2 ^ 32 - 1

module _ {P : Type 0} where
  -- The loop of sends: whether all went through, and what was sent.
  unfoldable pub send_all : (ℕ → Bool) → List P → List P → Bool × List P
  send_all accepts out [] = (true, out)
  send_all accepts out (p ∷ ps) =
      let rest = send_all accepts (out ++ (p ∷ [])) ps in
      if accepts (length out) then rest else (false, out)

  -- `pop`: the last member.
  unfoldable pub pop : List P → Option P
  pop [] = none
  pop (p ∷ []) = some p
  pop (p ∷ q ∷ ps) = pop (q ∷ ps)

-- `ring[idx].next_repair_id += 1`
unfoldable pub bump : {E : Type 0} → List (BlockGen E) → ℕ → List (BlockGen E)
bump [] i = []
bump (b ∷ ring) zero = record b { next_repair_id = u32 (b.next_repair_id + 1) } ∷ ring
bump (b ∷ ring) (suc i) = b ∷ bump ring i

module _ (q : RaptorQ) where
  open q use {
    Oti, Packet, BlockEncoder, new_encoder, source_packets, repair_packets, transfer_length,
  }

  unfoldable pub rep_interval : EncoderArgs Oti → ℕ
  unfolding rep_interval_of
  rep_interval a = rep_interval_of (u32 (transfer_length a.oti / symbol_size)) a.baseline_repair

  -- The packets of one block, in the order in which they are sent.
  unfoldable pub block_packets : EncoderArgs Oti → BlockEncoder → List Packet
  unfolding rep_interval
  block_packets a e =
      interleave (source_packets e) (repair_packets e 0 a.baseline_repair) (rep_interval a)

  -- The encoder of the block, if the writer is still there.
  unfoldable pub emit_block :
      (ℕ → Bool) → EncoderArgs Oti → List ℕ → ℕ → List Packet → Option BlockEncoder × List Packet
  unfolding send_all block_packets
  emit_block accepts a bytes sbn out =
      let e = new_encoder sbn a.oti bytes in
      let (sent, out) = send_all accepts out (block_packets a e) in
      (if sent then some e else none, out)

  -- Behind `emit_block`: the thread returns, or goes on in the state that `grow` gives.
  unfoldable pub after_block :
      (BlockEncoder → EncoderState BlockEncoder Packet → EncoderState BlockEncoder Packet)
      → EncoderState BlockEncoder Packet
      → Option BlockEncoder × List Packet
      → Status (EncoderState BlockEncoder Packet)
  after_block grow s (none, out) = returned (record s { out = out })
  after_block grow s (some e, out) = running (grow e (record s { out = out }))

  -- A turn of the loop without idle repair.
  unfoldable pub plain_slot :
      (ℕ → Bool)
      → EncoderArgs Oti
      → Incoming
      → EncoderState BlockEncoder Packet
      → Status (EncoderState BlockEncoder Packet)
  unfolding emit_block after_block
  plain_slot accepts a (block bytes) s =
      after_block (λ e s. record s { sbn = u8 (s.sbn + 1) }) s
        (emit_block accepts a bytes s.sbn s.out)
  plain_slot accepts a empty s = running s
  plain_slot accepts a disconnected s = returned s

  -- The end of an idle turn: the packet minted, if there is one, is sent.
  unfoldable pub send_extra :
      (ℕ → Bool)
      → Option Packet
      → EncoderState BlockEncoder Packet
      → Status (EncoderState BlockEncoder Packet)
  send_extra accepts none s = running s
  send_extra accepts (some p) s =
      if accepts (length s.out) then running (record s { out = s.out ++ (p ∷ []) }) else returned s

  -- `ring[idx]` mints a packet.
  unfoldable pub mint_at :
      (ℕ → Bool)
      → ℕ
      → EncoderState BlockEncoder Packet
      → Option (BlockGen BlockEncoder)
      → Status (EncoderState BlockEncoder Packet)
  unfolding send_extra bump pop
  mint_at accepts idx s none = panicked
  mint_at accepts idx s (some b) =
      send_extra accepts (pop (repair_packets b.encoder b.next_repair_id 1))
        (record s { ring = bump s.ring idx })

  -- An idle turn behind the pruning, with what was picked.
  unfoldable pub mint :
      (ℕ → Bool)
      → EncoderState BlockEncoder Packet
      → Option (Option ℕ × ℕ)
      → Status (EncoderState BlockEncoder Packet)
  unfolding mint_at
  mint accepts s none = panicked
  mint accepts s (some (none, rng)) = running (record s { rng = rng })
  mint accepts s (some (some idx, rng)) =
      mint_at accepts idx (record s { rng = rng }) (get_elem? s.ring idx)

  unfoldable pub idle_slot :
      (ℕ → Bool)
      → EncoderArgs Oti
      → Slot
      → EncoderState BlockEncoder Packet
      → Status (EncoderState BlockEncoder Packet)
  unfolding mint prune_ring pick_block
  idle_slot accepts a t s =
      let ring = prune_ring t.clock a.horizon s.ring in
      mint accepts (record s { ring = ring }) (pick_block ring s.rng)

  -- The state after a block that was sent.
  unfoldable pub push_block :
      EncoderArgs Oti
      → Slot
      → BlockEncoder
      → EncoderState BlockEncoder Packet
      → EncoderState BlockEncoder Packet
  unfolding prune_ring
  push_block a t e s =
      let entry : BlockGen BlockEncoder = record {
        encoder = e;
        next_repair_id = a.baseline_repair;
        max_repair = a.max_repair;
        created = t.created;
      } in
      record s {
        ring = prune_ring t.clock a.horizon (s.ring ++ (entry ∷ []));
        sbn = u8 (s.sbn + 1);
      }

  -- A turn of the loop with idle repair.
  unfoldable pub adaptive_slot :
      (ℕ → Bool)
      → EncoderArgs Oti
      → Slot
      → Incoming
      → EncoderState BlockEncoder Packet
      → Status (EncoderState BlockEncoder Packet)
  unfolding emit_block after_block push_block idle_slot
  adaptive_slot accepts a t (block bytes) s =
      after_block (push_block a t) s (emit_block accepts a bytes s.sbn s.out)
  adaptive_slot accepts a t empty s = idle_slot accepts a t s
  adaptive_slot accepts a t disconnected s = returned s

  unfoldable pub start_encoder : EncoderState BlockEncoder Packet
  unfolding new_rng
  start_encoder = record { ring = []; rng = new_rng 0x9E3779B97F4A7C15; sbn = 0; out = [] }

  -- The loop that the thread has chosen.
  unfoldable pub slot :
      (ℕ → Bool)
      → EncoderArgs Oti
      → Slot
      → EncoderState BlockEncoder Packet
      → Status (EncoderState BlockEncoder Packet)
  unfolding plain_slot adaptive_slot
  slot accepts a t s =
      if not a.adaptive || leb a.max_repair a.baseline_repair
      then plain_slot accepts a t.incoming s
      else adaptive_slot accepts a t t.incoming s

  unfoldable pub encoder_thread :
      (ℕ → Bool)
      → EncoderArgs Oti
      → List Slot
      → Status (EncoderState BlockEncoder Packet)
      → Status (EncoderState BlockEncoder Packet)
  unfolding slot
  encoder_thread accepts a [] st = st
  encoder_thread accepts a (t ∷ ts) (running s) = encoder_thread accepts a ts (slot accepts a t s)
  encoder_thread accepts a (t ∷ ts) (returned s) = returned s
  encoder_thread accepts a (t ∷ ts) panicked = panicked
