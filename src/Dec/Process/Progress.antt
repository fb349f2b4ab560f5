-- ===== src/Dec/Process/Progress.antt =====
-- The program raptorq/dec/src/main.rs cannot get stuck: it can always still come to its end.
use live_video.Prelude.{ℕ, ◌+◌, ◌≤◌, ◌<◌, ◌≡◌, ◌⊎◌, true, false, some, length, Outcome, ok}
use live_video.RaptorQ.{RaptorQ}
use live_video.Dec.State.{Decoder, Options}
use live_video.Dec.Reader.{Reader, running}
use live_video.Dec.Emit.{Fault}
use live_video.Dec.Run.{Turn, Received, Next, going}
use live_video.Dec.Process.{has_ended, Process, result_of, is_receiving, main_result, Step, Reach}
use live_video.Dec.Process.Sends.{Sends}

-- A turn in which a packet, or the end of the channel, is received.
abbrev turn_for : Received → Turn
turn_for r = record {
  env = record { clock = λ n. 0; write_ok = λ n. true; flush_ok = true };
  received = r;
  arrival = 0;
  stats_time = 0;
  stats_reset = 0;
}

module _ (q : RaptorQ) (o : Options) where
  open q use {BlockDecoder}

  -- Going on, or returned.
  data Verdict : Outcome Fault (Next (Decoder BlockDecoder)) → Type 0 where
    still_going : (d : Decoder BlockDecoder) → Verdict (ok (going d))
    has_returned :
        (r : Outcome Fault (Next (Decoder BlockDecoder))) (x : Outcome Fault (Decoder BlockDecoder))
        → result_of r ≡ some x
        → is_receiving r ≡ false
        → Verdict r

  -- Some steps lead to a state in which `main` returns.
  pub record CanEnd (s : Process BlockDecoder) : Type 0 where
    pub end : Process BlockDecoder
    pub path : Reach q o s end
    pub result : Outcome Fault (Decoder BlockDecoder)
    pub returns : main_result end ≡ some result

  -- A read has been made: the reader has ended, or less of the input is left.
  record HasRead (k : ℕ) (s : Process BlockDecoder) : Type 0 where
    pub to : Process BlockDecoder
    pub step : Step q o s to
    pub same : to.decoder ≡ s.decoder
    pub few : length to.queue ≤ length s.queue + 1
    pub left :
        (has_ended to.reader ≡ true)
        ⊎ ((r : Reader) × (to.reader ≡ running r) × (length r.stdin < k))
