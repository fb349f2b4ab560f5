-- ===== src/Dec/Reader.antt =====
-- `reader_thread` of raptorq/dec/src/main.rs: stdin cut into packets that begin with the sync byte.
pub mod Scan
pub mod Chunks
pub mod Ending
pub mod Aligned
use live_video.Prelude.{
  ℕ, zero, suc, ◌+◌, ◌-◌, Bool, false, List, [], ◌∷◌, ◌++◌, none, some, ◌==◌, if◌then◌else◌, length,
  take, drop, min, not, u64, replicate,
}
use live_video.Prelude.Slices.{write_at}
use live_video.Wire.Constants.{ts_packet_size, ts_sync_byte}

-- The variables of the thread; `stdin` is what is still to be read and `sent` what was sent.
pub record Reader : Type 0 where
  pub stdin : List ℕ
  pub scratch : List ℕ
  pub filled : ℕ
  pub resync_skipped : ℕ
  pub sent : List (List ℕ)

-- What a call of `read` does: some bytes, at least one if there are any, or an error.
pub data Read : Type 0 where
  delivers : ℕ → Read
  interrupted : Read
  failed : Read

-- Where the thread stands: in its loop, returned with `Ok`, returned with an error, or out of
-- the model's fuel, which does not happen.
pub data Standing : Type 0 where
  running : Reader → Standing
  closed : Reader → Standing
  broken : Reader → Standing
  exhausted : Standing

unfoldable pub start_reader : List ℕ → Reader
start_reader input = record {
  stdin = input;
  scratch = replicate ts_packet_size 0;
  filled = 0;
  resync_skipped = 0;
  sent = [];
}

-- `scratch.copy_within(1.., 0)`: the last byte stays where it is.
unfoldable pub shift_left : List ℕ → List ℕ
shift_left xs = drop 1 xs ++ drop (length xs - 1) xs

-- The bytes of one call of `read` into `scratch[filled..]`.
unfoldable pub read_bytes : ℕ → Reader → List ℕ
read_bytes n r = take (min (suc n) (length r.scratch - r.filled)) r.stdin

-- The first bytes are not a packet: one is skipped.
unfoldable pub skip_byte : Reader → Reader
skip_byte r = record r {
  scratch = shift_left r.scratch;
  filled = r.filled - 1;
  resync_skipped = u64 (r.resync_skipped + 1);
}

-- The packet is sent, and the buffer is empty.
unfoldable pub send_packet : Reader → Reader
send_packet r = record r { sent = r.sent ++ (r.scratch ∷ []); filled = 0 }

-- Whether the buffer begins with the sync byte.
abbrev pub begins_with : ℕ → List ℕ → Bool
begins_with b [] = false
begins_with b (x ∷ xs) = x == b

-- The loop `while filled == TS_PACKET_SIZE`, on fuel; `accepts` says whether a send succeeds.
unfoldable pub drain : (ℕ → Bool) → ℕ → Reader → Standing
drain accepts zero r = exhausted
drain accepts (suc fuel) r =
    let skipped = drain accepts fuel (skip_byte r) in
    let sent = drain accepts fuel (send_packet r) in
    if not (r.filled == ts_packet_size)
    then running r
    else if not (begins_with ts_sync_byte r.scratch)
    then skipped
    else if accepts (length r.sent)
    then sent
    else closed r

-- One turn of the outer loop.
unfoldable pub after_read : (ℕ → Bool) → Reader → List ℕ → Standing
after_read accepts r [] = closed r
after_read accepts r (b ∷ bytes) =
    elim (write_at r.filled (suc (length bytes)) r.scratch (b ∷ bytes)) [
      | none ↦ exhausted
      | some scratch ↦ drain accepts 2 (record r {
        stdin = drop (suc (length bytes)) r.stdin;
        scratch = scratch;
        filled = r.filled + suc (length bytes);
      })
    ]

unfoldable pub read_turn : (ℕ → Bool) → Read → Reader → Standing
read_turn accepts (delivers n) r = after_read accepts r (read_bytes n r)
read_turn accepts interrupted r = running r
read_turn accepts failed r = broken r

-- The outer loop over the calls of `read`.
unfoldable pub run_reader : (ℕ → Bool) → List Read → Standing → Standing
run_reader accepts [] s = s
run_reader accepts (e ∷ es) (running r) = run_reader accepts es (read_turn accepts e r)
run_reader accepts (e ∷ es) (closed r) = closed r
run_reader accepts (e ∷ es) (broken r) = broken r
run_reader accepts (e ∷ es) exhausted = exhausted
