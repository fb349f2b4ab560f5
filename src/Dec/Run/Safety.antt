-- ===== src/Dec/Run/Safety.antt =====
-- Whole runs of `run_decoder` in raptorq/dec/src/main.rs.
use live_video.Prelude.{ℕ, ◌+◌, ◌*◌, ◌≤◌, ◌≡◌, true, false, List, [], ◌∷◌, Outcome, ok, err, length}
use live_video.RaptorQ.{RaptorQ}
use live_video.Wire.Frame.Soundness.{AllBytes}
use live_video.Dec.State.{Decoder}
use live_video.Dec.Invariant.{IsValid}
use live_video.Dec.Emit.{Fault, io_error}
use live_video.Dec.Run.{Received, packet, nothing, disconnected, Turn, Next, going, finished}

-- The packets of a history are strings of bytes.
abbrev pub BytesReceived : Received → Type 0
BytesReceived (packet bytes) = AllBytes bytes
BytesReceived nothing = Unit {0}
BytesReceived disconnected = Unit {0}

abbrev pub AllTurns : List Turn → Type 0
AllTurns [] = Unit {0}
AllTurns (t ∷ ts) = BytesReceived t.received × AllTurns ts

module _ {D : Type 0} where
  -- The state after `n` turns: valid, the highest number within 256 for each turn, and as many
  -- chunks written as the cursor has moved from the first block.
  pub record IsRunning (n : ℕ) (d : Decoder D) : Type 0 where
    pub valid : IsValid d
    pub highest : d.highest_seen ≤ 256 * n
    pub numbered : d.started ≡ true → (first : ℕ) × (d.cursor ≡ first + length d.out)
    pub silent : d.started ≡ false → d.out ≡ []

  -- A turn or a run fails on an I/O error, goes on in a state as above, or has ended with an
  -- empty pool.
  pub data RunResult (n : ℕ) (r : Outcome Fault (Next (Decoder D))) : Type 0 where
    run_fails : r ≡ err io_error → RunResult n r
    run_goes : (d : Decoder D) → r ≡ ok (going d) → IsRunning n d → RunResult n r
    run_ends : (d : Decoder D) → r ≡ ok (finished d) → d.pool ≡ [] → RunResult n r
