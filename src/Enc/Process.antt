-- ===== src/Enc/Process.antt =====
-- `main` of raptorq/enc/src/main.rs behind the checks: the threads `ts-reader`, `block-encoder`
-- and `paced-writer` and the two bounded channels, interleaved in any way, while the writes to
-- the sink succeed.
pub mod Grows
pub mod Flow
pub mod Slots
pub mod Writes
pub mod Safety
use live_video.Prelude.{
  ℕ, ◌+◌, ◌*◌, ◌/◌, ◌≤◌, ◌<◌, ◌≡◌, max, Bool, true, false, List, [], ◌∷◌, ◌++◌, Option, none, some,
  length, drop, u32, u64, if◌then◌else◌,
}
use live_video.RaptorQ.{RaptorQ}
use live_video.Wire.Constants.{symbol_size}
use live_video.Dec.Reader.{Read}
use live_video.Enc.Reader as Reading
use live_video.Enc.Reader.{BlockReader, Progress, start_reader, read_turn}
use live_video.Enc.Encoder as Coding
use live_video.Enc.Encoder.{EncoderArgs, EncoderState, Status, Slot, start_encoder, slot}
use live_video.Enc.Writer as Writing
use live_video.Enc.Writer.{Writer, Phase, Tick, start_phase, write_turn}

-- What the threads are started with.
pub record Settings (O : Type 0) : Type 0 where
  pub block_size : ℕ
  pub queue_blocks : ℕ
  pub pid : ℕ
  pub rate : ℕ
  pub coding : EncoderArgs O

-- The bounds of the channels. A channel of capacity 0 hands over one at a time: what its sender
-- offers counts as being in it.
unfoldable pub block_bound : {O : Type 0} → Settings O → ℕ
block_bound c = max c.queue_blocks 1

unfoldable pub packet_bound : {O : Type 0} → Settings O → ℕ
packet_bound c =
    let k = u32 (c.block_size / symbol_size) in
    max (u64 (c.queue_blocks * u32 (k + c.coding.baseline_repair))) 1

-- What the reader has sent, and whether it has ended.
unfoldable pub blocks_sent : Progress → List (List ℕ)
blocks_sent (Reading.running r) = r.sent
blocks_sent (Reading.closed r) = r.sent
blocks_sent (Reading.broken r) = r.sent
blocks_sent Reading.panicked = []

unfoldable pub reader_ended : Progress → Bool
reader_ended (Reading.running r) = false
reader_ended p = true

-- What the encoder has sent or is about to send, and whether it has ended.
unfoldable pub packets_sent : {E P : Type 0} → Status (EncoderState E P) → List P
packets_sent (Coding.running s) = s.out
packets_sent (Coding.returned s) = s.out
packets_sent Coding.panicked = []

unfoldable pub encoder_ended : {E P : Type 0} → Status (EncoderState E P) → Bool
encoder_ended (Coding.running s) = false
encoder_ended s = true

unfoldable pub writer_ended : Phase → Bool
writer_ended (Writing.running w) = false
writer_ended p = true

-- The threads and what is between them: the blocks in the first channel, the packets that the
-- encoder has still to send in its turn, and those in the second channel. `coded` and `taken` are
-- what the encoder and the writer have received so far.
pub record Pipeline (E P : Type 0) : Type 0 where
  pub reader : Progress
  pub blocks : List (List ℕ)
  pub coded : List (List ℕ)
  pub encoder : Status (EncoderState E P)
  pub pending : List P
  pub packets : List P
  pub taken : List P
  pub writer : Phase

module _ (q : RaptorQ) (c : Settings q.Oti) where
  open q use {Packet, BlockEncoder}

  unfoldable pub start_pipeline : List ℕ → Pipeline BlockEncoder Packet
  start_pipeline input = record {
    reader = Reading.running (start_reader c.block_size input);
    blocks = [];
    coded = [];
    encoder = Coding.running (start_encoder q);
    pending = [];
    packets = [];
    taken = [];
    writer = start_phase c.rate;
  }

  -- A turn of the reader; a block that it sends goes to the end of the first channel.
  unfoldable pub read_step :
      Read → BlockReader → Pipeline BlockEncoder Packet → Pipeline BlockEncoder Packet
  read_step e r s =
      let reader = read_turn (λ n. true) c.block_size e r in
      record s { reader = reader; blocks = s.blocks ++ drop (length r.sent) (blocks_sent reader) }

  -- A turn of the encoder, which has taken the blocks `bs` and leaves `rest`.
  unfoldable pub slot_step :
      Slot
      → EncoderState BlockEncoder Packet
      → List (List ℕ)
      → List (List ℕ)
      → Pipeline BlockEncoder Packet
      → Pipeline BlockEncoder Packet
  slot_step t e bs rest s =
      let encoder = slot q (λ n. true) c.coding t e in
      record s {
        blocks = rest;
        coded = s.coded ++ bs;
        encoder = encoder;
        pending = drop (length e.out) (packets_sent encoder);
      }

  -- A turn of the writer, which has taken the packets `ps` and leaves `rest`.
  unfoldable pub write_step :
      Tick Packet
      → Writer
      → List Packet
      → List Packet
      → Pipeline BlockEncoder Packet
      → Pipeline BlockEncoder Packet
  write_step t w ps rest s = record s {
    packets = rest;
    taken = s.taken ++ ps;
    writer = write_turn q c.pid c.rate c.coding.oti t t.fetch w;
  }

  -- A step of one of the threads. A turn of the encoder is followed by one step for each packet
  -- that it sends; the next turn begins when all are in the channel.
  pub data Step (s : Pipeline BlockEncoder Packet) : Pipeline BlockEncoder Packet → Type 0 where
    reads :
        (e : Read) (r : BlockReader)
        → s.reader ≡ Reading.running r
        → length (read_step e r s).blocks ≤ block_bound c
        → Step s (read_step e r s)
    encodes :
        (t : Slot) (e e' : EncoderState BlockEncoder Packet) (b : List ℕ) (rest : List (List ℕ))
        → s.encoder ≡ Coding.running e
        → s.pending ≡ []
        → s.blocks ≡ b ∷ rest
        → t.incoming ≡ Coding.block b
        → slot q (λ n. true) c.coding t e ≡ Coding.running e'
        → Step s (slot_step t e (b ∷ []) rest s)
    idles :
        (t : Slot) (e e' : EncoderState BlockEncoder Packet)
        → s.encoder ≡ Coding.running e
        → s.pending ≡ []
        → s.blocks ≡ []
        → reader_ended s.reader ≡ false
        → t.incoming ≡ Coding.empty
        → slot q (λ n. true) c.coding t e ≡ Coding.running e'
        → Step s (slot_step t e [] [] s)
    hangs_up :
        (t : Slot) (e : EncoderState BlockEncoder Packet)
        → s.encoder ≡ Coding.running e
        → s.pending ≡ []
        → s.blocks ≡ []
        → reader_ended s.reader ≡ true
        → t.incoming ≡ Coding.disconnected
        → Step s (slot_step t e [] [] s)
    hands_over :
        (p : Packet) (rest : List Packet)
        → s.pending ≡ p ∷ rest
        → length s.packets < packet_bound c
        → Step s (record s { pending = rest; packets = s.packets ++ (p ∷ []) })
    writes :
        (t : Tick Packet) (w w' : Writer) (p : Packet) (rest : List Packet)
        → s.writer ≡ Writing.running w
        → s.packets ≡ p ∷ rest
        → t.fetch ≡ Writing.packet p
        → write_turn q c.pid c.rate c.coding.oti t t.fetch w ≡ Writing.running w'
        → Step s (write_step t w (p ∷ []) rest s)
    stuffs :
        (t : Tick Packet) (w w' : Writer)
        → s.writer ≡ Writing.running w
        → s.packets ≡ []
        → encoder_ended s.encoder ≡ false
        → t.fetch ≡ Writing.empty
        → write_turn q c.pid c.rate c.coding.oti t t.fetch w ≡ Writing.running w'
        → Step s (write_step t w [] [] s)
    drains :
        (t : Tick Packet) (w : Writer)
        → s.writer ≡ Writing.running w
        → s.packets ≡ []
        → encoder_ended s.encoder ≡ true
        → t.fetch ≡ Writing.disconnected
        → Step s (write_step t w [] [] s)

  pub data Reach (s : Pipeline BlockEncoder Packet) : Pipeline BlockEncoder Packet → Type 0 where
    here : Reach s s
    next : (t u : Pipeline BlockEncoder Packet) → Reach s t → Step t u → Reach s u
