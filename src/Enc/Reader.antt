-- ===== src/Enc/Reader.antt =====
-- `reader_thread` of raptorq/enc/src/main.rs: stdin cut into blocks.
pub mod Blocks
use live_video.Prelude.{
  ℕ, zero, suc, ◌+◌, ◌-◌, Bool, List, [], ◌∷◌, ◌++◌, none, some, ltb, ◌==◌, if◌then◌else◌, length,
  take, drop, min, replicate,
}
use live_video.Prelude.Slices.{write_at}
use live_video.Wire.Frame.Build.{fill_from}
use live_video.Dec.Reader.{Read, delivers, interrupted, failed}

-- The variables of the thread; `stdin` is what is still to be read and `sent` what was sent.
pub record BlockReader : Type 0 where
  pub stdin : List ℕ
  pub block : List ℕ
  pub filled : ℕ
  pub sent : List (List ℕ)

-- Where the thread stands: in its loop, returned with `Ok`, returned with an error, or stopped
-- by a failed bounds check.
pub data Progress : Type 0 where
  running : BlockReader → Progress
  closed : BlockReader → Progress
  broken : BlockReader → Progress
  panicked : Progress

unfoldable pub start_reader : ℕ → List ℕ → BlockReader
start_reader block_size input = record {
  stdin = input;
  block = replicate block_size 0;
  filled = 0;
  sent = [];
}

-- `Ok(0)`: what has been read of a block is padded with zeros and sent.
unfoldable pub at_end : (ℕ → Bool) → BlockReader → BlockReader
unfolding fill_from
at_end accepts r =
    if ltb 0 r.filled
    then (if accepts (length r.sent)
        then record r { block = []; sent = r.sent ++ (fill_from r.filled r.block 0 ∷ []) }
        else record r { block = [] })
    else r

-- The block is sent when it is full.
unfoldable pub send_full : (ℕ → Bool) → ℕ → BlockReader → Progress
send_full accepts block_size r =
    if r.filled == block_size
    then (if accepts (length r.sent)
        then running (record r {
          block = replicate block_size 0;
          filled = 0;
          sent = r.sent ++ (r.block ∷ []);
        })
        else broken r)
    else running r

-- One turn, with the bytes that `read` put behind those already there.
unfoldable pub after_read : (ℕ → Bool) → ℕ → BlockReader → List ℕ → Progress
unfolding at_end send_full
after_read accepts block_size r [] = closed (at_end accepts r)
after_read accepts block_size r (b ∷ bytes) =
    elim (write_at r.filled (suc (length bytes)) r.block (b ∷ bytes)) [
      | none ↦ panicked
      | some block ↦ send_full accepts block_size (record r {
        stdin = drop (suc (length bytes)) r.stdin;
        block = block;
        filled = r.filled + suc (length bytes);
      })
    ]

unfoldable pub read_turn : (ℕ → Bool) → ℕ → Read → BlockReader → Progress
unfolding after_read
read_turn accepts block_size (delivers n) r =
    after_read accepts block_size r (take (min (suc n) (length r.block - r.filled)) r.stdin)
read_turn accepts block_size interrupted r = running r
read_turn accepts block_size failed r = broken r

unfoldable pub reader_thread : (ℕ → Bool) → ℕ → List Read → Progress → Progress
unfolding read_turn
reader_thread accepts block_size [] p = p
reader_thread accepts block_size (e ∷ es) (running r) =
    reader_thread accepts block_size es (read_turn accepts block_size e r)
reader_thread accepts block_size (e ∷ es) (closed r) = closed r
reader_thread accepts block_size (e ∷ es) (broken r) = broken r
reader_thread accepts block_size (e ∷ es) panicked = panicked
