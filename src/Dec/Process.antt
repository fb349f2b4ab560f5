-- ===== src/Dec/Process.antt =====
-- `main` of raptorq/dec/src/main.rs: the thread `ts-reader`, the bounded channel and
-- `run_decoder`, interleaved in any way.
pub mod Sends
pub mod Safety
pub mod Progress
use live_video.Prelude.{
  ℕ, ◌≤◌, ◌≡◌, Bool, true, false, List, [], ◌∷◌, ◌++◌, Option, none, some, length, drop,
  if◌then◌else◌, Outcome, ok, err, panic,
}
use live_video.RaptorQ.{RaptorQ}
use live_video.Dec.State.{Decoder, Options, start_decoder}
use live_video.Dec.Reader.{
  Reader, Read, Standing, running, closed, broken, exhausted, start_reader, read_turn,
}
use live_video.Dec.Emit.{Fault}
use live_video.Dec.Run.{Turn, Next, going, finished, packet, nothing, disconnected, turn}

-- `sync_channel::<Vec<u8>>(1024)`
abbrev pub channel_bound : ℕ
channel_bound = 1024

-- What the reader has sent, and whether its thread has ended.
unfoldable pub sent_of : Standing → List (List ℕ)
sent_of (running r) = r.sent
sent_of (closed r) = r.sent
sent_of (broken r) = r.sent
sent_of exhausted = []

unfoldable pub has_ended : Standing → Bool
has_ended (running r) = false
has_ended s = true

-- Both threads: the reader, the packets in the channel, the turns that the decoder has made, and
-- where it stands.
pub record Process (D : Type 0) : Type 0 where
  pub reader : Standing
  pub queue : List (List ℕ)
  pub turns : List Turn
  pub decoder : Outcome Fault (Next (Decoder D))

module _ {D : Type 0} where
  -- What `run_decoder` has returned, if it has.
  unfoldable pub result_of : Outcome Fault (Next (Decoder D)) → Option (Outcome Fault (Decoder D))
  result_of (ok (going d)) = none
  result_of (ok (finished d)) = some (ok d)
  result_of (err f) = some (err f)
  result_of panic = some panic

  -- The receiver is there while `run_decoder` runs: otherwise a send fails.
  unfoldable pub is_receiving : Outcome Fault (Next (Decoder D)) → Bool
  is_receiving (ok (going d)) = true
  is_receiving _ = false

  -- What `main` returns once the reader is joined: the decoder's result, whatever the reader's.
  unfoldable pub main_result : Process D → Option (Outcome Fault (Decoder D))
  main_result s = if has_ended s.reader then result_of s.decoder else none

  -- The reader's turn; a packet that it sends goes to the end of the channel.
  unfoldable pub read_step : Read → Reader → Process D → Process D
  read_step e r s =
      let reader = read_turn (λ n. is_receiving s.decoder) e r in
      record s { reader = reader; queue = s.queue ++ drop (length r.sent) (sent_of reader) }

module _ (q : RaptorQ) (o : Options) where
  open q use {BlockDecoder}

  unfoldable pub start_process : List ℕ → ℕ → Process BlockDecoder
  start_process input now = record {
    reader = running (start_reader input);
    queue = [];
    turns = [];
    decoder = ok (going (start_decoder now));
  }

  -- The decoder's turn, which leaves `rest` in the channel.
  unfoldable pub turn_step :
      Turn → Decoder BlockDecoder → List (List ℕ) → Process BlockDecoder → Process BlockDecoder
  turn_step t d rest s = record s {
    queue = rest;
    turns = s.turns ++ (t ∷ []);
    decoder = turn q o t d;
  }

  -- A step of one of the threads. The reader goes on when the channel has room for what it sends.
  -- The decoder takes the first packet; on an empty channel, `recv_timeout` says that nothing came
  -- while the reader is there, and that it is gone when it has ended.
  pub data Step (s : Process BlockDecoder) : Process BlockDecoder → Type 0 where
    reads :
        (e : Read) (r : Reader)
        → s.reader ≡ running r
        → length (read_step e r s).queue ≤ channel_bound
        → Step s (read_step e r s)
    receives :
        (t : Turn) (d : Decoder BlockDecoder) (p : List ℕ) (rest : List (List ℕ))
        → s.decoder ≡ ok (going d)
        → s.queue ≡ p ∷ rest
        → t.received ≡ packet p
        → Step s (turn_step t d rest s)
    waits :
        (t : Turn) (d : Decoder BlockDecoder)
        → s.decoder ≡ ok (going d)
        → s.queue ≡ []
        → has_ended s.reader ≡ false
        → t.received ≡ nothing
        → Step s (turn_step t d [] s)
    hangs_up :
        (t : Turn) (d : Decoder BlockDecoder)
        → s.decoder ≡ ok (going d)
        → s.queue ≡ []
        → has_ended s.reader ≡ true
        → t.received ≡ disconnected
        → Step s (turn_step t d [] s)

  pub data Reach (s : Process BlockDecoder) : Process BlockDecoder → Type 0 where
    here : Reach s s
    next : (t u : Process BlockDecoder) → Reach s t → Step t u → Reach s u
