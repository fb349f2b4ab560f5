-- ===== src/Dec/Process/Safety.antt =====
-- What holds in every interleaving of the two threads of raptorq/dec/src/main.rs.
use mathlib.Core.List.{append_assoc, append-nil}
use live_video.Prelude.{
  ℕ, ◌≤◌, ◌≡◌, refl, sym, ◌∙◌, ap, subst, Bool, List, [], ◌∷◌, ◌++◌, length, length-append, drop,
  drop-append, Outcome, ok, err, panic, ◌>>=◌, arith,
}
use live_video.RaptorQ.{RaptorQ}
use live_video.Dec.State.{Decoder, Options, start_decoder}
use live_video.Dec.Reader.{Reader, Read, Standing, running, read_turn}
use live_video.Dec.Reader.Scan.{
  ReaderResult, reader_runs, reader_ends, reader_refused, reader_breaks,
}
use live_video.Dec.Reader.Chunks.{read_turn_lem}
use live_video.Dec.Reader.Ending.{not_exhausted}
use live_video.Dec.Emit.{Fault}
use live_video.Dec.Run.{
  Turn, Received, packet, nothing, disconnected, Next, going, finished, turn, run_from,
}
use live_video.Dec.Process.{
  sent_of, Process, is_receiving, read_step, turn_step, Step, reads, receives, waits, hangs_up,
}
use live_video.Dec.Process.Sends.{Sends, sends_spent, sends, read_turn-Sends}

-- The packets that the decoder has taken in its turns.
abbrev pub packet_of : Received → List (List ℕ)
packet_of (packet bytes) = bytes ∷ []
packet_of nothing = []
packet_of disconnected = []

abbrev pub packets_of : List Turn → List (List ℕ)
packets_of [] = []
packets_of (t ∷ ts) = packet_of t.received ++ packets_of ts

packets_of-append :
    (ts : List Turn) (t : Turn)
    → packets_of (ts ++ (t ∷ [])) ≡ packets_of ts ++ packet_of t.received
packets_of-append [] t = append-nil (packet_of t.received)
packets_of-append (u ∷ ts) t =
    ap (λ x. packet_of u.received ++ x) (packets_of-append ts t)
    ∙ sym (append_assoc (packet_of u.received) (packets_of ts) (packet_of t.received))

-- A thread that is running.
running-injective : (r r' : Reader) → running r ≡ running r' → r ≡ r'
running-injective r r' e = cc

module _ (q : RaptorQ) (o : Options) where
  open q use {BlockDecoder}

  run_from-append :
      (ts us : List Turn) (s : Next (Decoder BlockDecoder))
      → run_from q o (ts ++ us) s ≡ run_from q o ts s >>= run_from q o us
  unfolding run_from
  run_from-append ts us (finished d) = refl
  run_from-append [] us (going d) = refl
  run_from-append (t ∷ ts) us (going d) = after (turn q o t d) (run_from-append ts us)
    where
      after :
          (r : Outcome Fault (Next (Decoder BlockDecoder)))
          → ((s : Next (Decoder BlockDecoder))
              → run_from q o (ts ++ us) s ≡ run_from q o ts s >>= run_from q o us)
          → (r >>= run_from q o (ts ++ us)) ≡ (r >>= run_from q o ts) >>= run_from q o us
      after (ok s) later = later s
      after (err f) later = refl
      after panic later = refl

  -- The decoder has made a run over its turns; the packets that it took, and behind them those in
  -- the channel, are the packets that the reader has sent; the channel keeps its bound; and the
  -- reader stands where some way of accepting its packets leads it.
  pub record IsFaithful (input : List ℕ) (now : ℕ) (s : Process BlockDecoder) : Type 0 where
    pub decoded : s.decoder ≡ run_from q o s.turns (going (start_decoder now))
    pub passed : packets_of s.turns ++ s.queue ≡ sent_of s.reader
    pub bounded : length s.queue ≤ 1024
    pub accepts : ℕ → Bool
    pub reader : ReaderResult accepts input s.reader

  module _ (input : List ℕ) (now : ℕ) where
    -- A turn of the decoder that takes what was at the front of the channel.
    turn_step-IsFaithful :
        (s : Process BlockDecoder) (t : Turn) (d : Decoder BlockDecoder) (rest : List (List ℕ))
        → s.decoder ≡ ok (going d)
        → packet_of t.received ++ rest ≡ s.queue
        → IsFaithful input now s
        → IsFaithful input now (turn_step q o t d rest s)
    unfolding turn_step run_from
    turn_step-IsFaithful s t d rest at front w = record {
      decoded = sym (
          run_from-append s.turns (t ∷ []) (going (start_decoder now))
          ∙ ap (λ x. x >>= run_from q o (t ∷ [])) (sym w.decoded ∙ at)
          ∙ last (turn q o t d));
      passed =
          ap (λ x. x ++ rest) (packets_of-append s.turns t)
          ∙ append_assoc (packets_of s.turns) (packet_of t.received) rest
          ∙ ap (λ x. packets_of s.turns ++ x) front
          ∙ w.passed;
      bounded =
          omega (arith, w.bounded, ap length front, length-append (packet_of t.received) rest);
      accepts = w.accepts;
      reader = w.reader;
    }
      where
        last : (r : Outcome Fault (Next (Decoder BlockDecoder))) → (r >>= run_from q o []) ≡ r
        last (ok (going d)) = refl
        last (ok (finished d)) = refl
        last (err f) = refl
        last panic = refl

    -- The reader's turn.
    read_step-IsFaithful :
        (s : Process BlockDecoder) (e : Read) (r : Reader)
        → s.reader ≡ running r
        → length (read_step e r s).queue ≤ 1024
        → IsFaithful input now s
        → IsFaithful input now (read_step e r s)
    unfolding read_step sent_of
    read_step-IsFaithful s e r at room w = record {
      decoded = w.decoded;
      passed = sent_on (read_turn-Sends (λ n. is_receiving s.decoder) e r) scanned;
      bounded = room;
      accepts = λ n. is_receiving s.decoder;
      reader = scanned;
    }
      where
        go :
            (x : Standing)
            → x ≡ running r
            → ReaderResult w.accepts input x
            → ReaderResult
                (λ n. is_receiving s.decoder)
                input
                (read_turn (λ n. is_receiving s.decoder) e r)
        go x same (reader_runs r' scanned few) =
            let there : r' ≡ r = running-injective r' r same in
            subst
              (λ y.
                ReaderResult (λ n. is_receiving s.decoder) input
                  (read_turn (λ n. is_receiving s.decoder) e y))
              there (read_turn_lem (λ n. is_receiving s.decoder) input e r' scanned few)
        go x same (reader_ends r' scanned last) = cc
        go x same (reader_refused r' c split found refused) = cc
        go x same (reader_breaks r' scanned) = cc

        scanned :
            ReaderResult
              (λ n. is_receiving s.decoder)
              input
              (read_turn (λ n. is_receiving s.decoder) e r)
        scanned = go s.reader at w.reader

        sent_on :
            Sends (λ n. is_receiving s.decoder) r.sent (read_turn (λ n. is_receiving s.decoder) e r)
            → ReaderResult
                (λ n. is_receiving s.decoder)
                input
                (read_turn (λ n. is_receiving s.decoder) e r)
            → packets_of s.turns
                ++ (s.queue
                    ++ drop (length r.sent) (sent_of (read_turn (λ n. is_receiving s.decoder) e r)))
              ≡ sent_of (read_turn (λ n. is_receiving s.decoder) e r)
        sent_on (sends_spent gone) v = absurd (not_exhausted _ input _ v gone)
        sent_on (sends new grown few silent) v =
            let added : drop (length r.sent) (sent_of (read_turn (λ n. is_receiving s.decoder) e r))
                ≡ new =
              ap (drop (length r.sent)) grown ∙ drop-append (length r.sent) r.sent new refl in
            ap (λ x. packets_of s.turns ++ (s.queue ++ x)) added
            ∙ sym (append_assoc (packets_of s.turns) s.queue new)
            ∙ ap (λ x. x ++ new) (w.passed ∙ ap sent_of at)
            ∙ sym grown

    pub Step-IsFaithful :
        (s t : Process BlockDecoder)
        → Step q o s t
        → IsFaithful input now s
        → IsFaithful input now t
    Step-IsFaithful s u (reads e r at room) w = read_step-IsFaithful s e r at room w
    Step-IsFaithful s u (receives t d p rest at front got) w =
        turn_step-IsFaithful s t d rest at (ap (λ x. packet_of x ++ rest) got ∙ sym front) w
    Step-IsFaithful s u (waits t d at none_left there got) w =
        turn_step-IsFaithful s t d [] at (ap (λ x. packet_of x ++ []) got ∙ sym none_left) w
    Step-IsFaithful s u (hangs_up t d at none_left gone got) w =
        turn_step-IsFaithful s t d [] at (ap (λ x. packet_of x ++ []) got ∙ sym none_left) w
