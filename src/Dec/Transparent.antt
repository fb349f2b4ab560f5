-- ===== src/Dec/Transparent.antt =====
-- What reaches `run_decoder` of raptorq/dec/src/main.rs when the blocks come one after the other
-- and enough of each arrives.
pub mod Stage
pub mod Settle
pub mod Arrivals
pub mod Own
pub mod Blocks
use live_video.Prelude.{
  ℕ, ◌+◌, ◌≤◌, ◌<◌, ◌≡◌, true, List, [], ◌∷◌, ◌++◌, Option, none, some, u8, ok, err,
}
use live_video.RaptorQ.{RaptorQ}
use live_video.Wire.Header.{ParseError}
use live_video.Wire.Frame.Parse.{data_frame, noop_frame, parse_packet}
use live_video.Dec.State.{Options}
use live_video.Dec.Run.{Turn, packet, nothing}

-- A turn between the times `base` and `base + timeout`, in which stdout takes what is written.
pub record IsCalm (o : Options) (base : ℕ) (t : Turn) : Type 0 where
  pub stamped : base ≤ t.arrival
  pub later : (n : ℕ) → base ≤ t.env.clock n
  pub prompt : (n : ℕ) → t.env.clock n < base + o.timeout
  pub writes : (n : ℕ) → t.env.write_ok n ≡ true
  pub flushes : t.env.flush_ok ≡ true

module _ (q : RaptorQ) where
  open q use {
    Oti, Packet, BlockDecoder, transfer_length, payload_id, symbol, source_block_number,
    new_decoder, decode,
  }

  -- The block that came out, or what the decoder gives later.
  abbrev pub result_or :
      BlockDecoder × Option (List ℕ) → (BlockDecoder → Option (List ℕ)) → Option (List ℕ)
  result_or (d, some bytes) later = some bytes
  result_or (d, none) later = later d

  -- The first block that the crate's decoder returns while it is given the packets.
  unfoldable pub first_result : BlockDecoder → List Packet → Option (List ℕ)
  first_result d [] = none
  first_result d (p ∷ ps) = result_or (decode d p) (λ d'. first_result d' ps)

  -- The turns in which the packets `ps` of block `n` come in. In between there may be turns
  -- without a packet, stuffing, packets that cannot be parsed, and packets of blocks up to 127
  -- before this one.
  pub data IsHeard (o : Options) (oti : Oti) (base n : ℕ) : List Packet → List Turn → Type 0 where
    heard_end : IsHeard o oti base n [] []
    heard_nothing :
        (ps : List Packet) (t : Turn) (ts : List Turn)
        → IsCalm o base t
        → t.received ≡ nothing
        → IsHeard o oti base n ps ts
        → IsHeard o oti base n ps (t ∷ ts)
    heard_noop :
        (ps : List Packet) (t : Turn) (ts : List Turn) (bytes : List ℕ) (c : ℕ)
        → IsCalm o base t
        → t.received ≡ packet bytes
        → parse_packet q bytes o.pid ≡ ok (noop_frame c)
        → IsHeard o oti base n ps ts
        → IsHeard o oti base n ps (t ∷ ts)
    heard_garbage :
        (ps : List Packet) (t : Turn) (ts : List Turn) (bytes : List ℕ) (e : ParseError)
        → IsCalm o base t
        → t.received ≡ packet bytes
        → parse_packet q bytes o.pid ≡ err e
        → IsHeard o oti base n ps ts
        → IsHeard o oti base n ps (t ∷ ts)
    heard_old :
        (ps : List Packet) (t : Turn) (ts : List Turn) (bytes : List ℕ) (c m : ℕ) (p : Packet)
        → IsCalm o base t
        → t.received ≡ packet bytes
        → parse_packet q bytes o.pid ≡ ok (data_frame c oti (payload_id p) (symbol p))
        → source_block_number (payload_id p) ≡ u8 m
        → m < n
        → n < m + 128
        → IsHeard o oti base n ps ts
        → IsHeard o oti base n ps (t ∷ ts)
    heard_own :
        (ps : List Packet) (t : Turn) (ts : List Turn) (bytes : List ℕ) (c : ℕ) (p : Packet)
        → IsCalm o base t
        → t.received ≡ packet bytes
        → parse_packet q bytes o.pid ≡ ok (data_frame c oti (payload_id p) (symbol p))
        → source_block_number (payload_id p) ≡ u8 n
        → IsHeard o oti base n ps ts
        → IsHeard o oti base n (p ∷ ps) (t ∷ ts)

  -- The turns of the blocks `bs`, which are numbered from `n` on: of each, the packets that come
  -- in are enough for the crate's decoder to return the block. Behind them there may be some, but
  -- not enough, of the next.
  pub data IsReception (o : Options) (oti : Oti) : ℕ → List (List ℕ) → List Turn → Type 0 where
    reception_end :
        (n base : ℕ) (ps : List Packet) (ts : List Turn)
        → IsHeard o oti base n ps ts
        → first_result (new_decoder (u8 n) oti (transfer_length oti)) ps ≡ none
        → IsReception o oti n [] ts
    reception_block :
        (n base : ℕ) (b : List ℕ) (bs : List (List ℕ)) (ps : List Packet) (ts rest : List Turn)
        → IsHeard o oti base n ps ts
        → first_result (new_decoder (u8 n) oti (transfer_length oti)) ps ≡ some b
        → IsReception o oti (n + 1) bs rest
        → IsReception o oti n (b ∷ bs) (ts ++ rest)
