-- ===== src/Link/Broadcast.antt =====
-- What `encoder_thread` and `writer_thread` of raptorq/enc/src/main.rs put on the wire, block by
-- block.
use mathlib.Core.List.{append_assoc, append-nil}
use mathlib.Core.Option.{some-injective}
use live_video.Prelude.{
  ℕ, zero, suc, ◌+◌, ◌^◌, ◌≤◌, ◌<◌, ◌≡◌, refl, sym, ◌∙◌, ap, subst, Bool, List, [], ◌∷◌, ◌++◌, some,
  length, get_elem?, concat, concat-append, u8, arith,
}
use live_video.RaptorQ.{RaptorQ}
use live_video.Enc.Interleave.Merge.{IsMerge, interleave-IsMerge}
use live_video.Enc.Encoder.{
  EncoderArgs, EncoderState, Slot, running, rep_interval, block_packets, pop, start_encoder,
  encoder_thread,
}
use live_video.Enc.Encoder.Trace.{
  encoder_of, IsTrace, trace_start, trace_block, trace_extra, trace_missing,
}
use live_video.Enc.Encoder.Turns.{EncoderResult, encoder_runs}
use live_video.Enc.Encoder.Run.{blocks_of, encoder_thread-EncoderResult}
use live_video.Enc.Writer as Writing
use live_video.Enc.Writer.{Tick, Writer, start_phase, writer_thread}
use live_video.Enc.Writer.Stream.{
  IsStream, AllFit, taken, WriterResult, writer_runs, writer_thread-WriterResult,
}
use live_video.Link.Segments.{
  IsNumbered, AllNumbered, IsCodec, IsGroup, group_end, group_old, IsGroup-append,
  AllNumbered-IsGroup, AllNumbered-merge, Carries, IsStream-Carries, Carries-IsSplit,
}

module _ (q : RaptorQ) (a : EncoderArgs q.Oti) where
  open q use {Oti, Packet, BlockEncoder, source_packets, repair_packets, transfer_length}

  -- The blocks fill the OTI.
  abbrev pub AllFull : List (List ℕ) → Type 0
  AllFull [] = Unit {0}
  AllFull (b ∷ bs) = (length b ≡ transfer_length a.oti) × AllFull bs

  -- The packets of the blocks `bs`, numbered from `n` on, one group for each, and behind them only
  -- packets of earlier blocks.
  pub data IsSent : ℕ → List (List ℕ) → List (List Packet) → List Packet → Type 0 where
    sent_end : (n : ℕ) (tail : List Packet) → IsGroup q n [] tail → IsSent n [] [] tail
    sent_block :
        (n : ℕ) (b : List ℕ) (bs : List (List ℕ)) (own group : List Packet)
        (groups : List (List Packet)) (tail : List Packet)
        → IsGroup q n own group
        → IsMerge
            (source_packets (encoder_of q a n b))
            (repair_packets (encoder_of q a n b) 0 a.baseline_repair)
            own
        → IsSent (n + 1) bs groups tail
        → IsSent n (b ∷ bs) (group ∷ groups) tail

  -- The same on the wire, a segment for each block and one behind them.
  pub data IsBroadcast (pid : ℕ) : ℕ → List (List ℕ) → List (List (List ℕ)) → Type 0 where
    broadcast_end :
        (n : ℕ) (tail : List Packet) (segment : List (List ℕ))
        → IsGroup q n [] tail
        → Carries q pid a.oti tail segment
        → IsBroadcast pid n [] (segment ∷ [])
    broadcast_block :
        (n : ℕ) (b : List ℕ) (bs : List (List ℕ)) (own group : List Packet)
        (segment : List (List ℕ)) (segments : List (List (List ℕ)))
        → IsGroup q n own group
        → IsMerge
            (source_packets (encoder_of q a n b))
            (repair_packets (encoder_of q a n b) 0 a.baseline_repair)
            own
        → Carries q pid a.oti group segment
        → IsBroadcast pid (n + 1) bs segments
        → IsBroadcast pid n (b ∷ bs) (segment ∷ segments)

  -- A packet of an earlier block is sent.
  IsSent-extra :
      (n m : ℕ) (bs : List (List ℕ)) (groups : List (List Packet)) (tail : List Packet) (p : Packet)
      → IsNumbered q (u8 m) p
      → m < n + length bs
      → n + length bs < m + 128
      → IsSent n bs groups tail
      → IsSent n bs groups (tail ++ (p ∷ []))
  IsSent-extra n m bs groups tail p w old near (sent_end n' tail' g) =
      sent_end n (tail ++ (p ∷ [])) (
        IsGroup-append q n [] tail [] (p ∷ []) g
          (group_old p m [] [] w (omega arith) (omega arith) group_end))
  IsSent-extra n m bs groups tail p w old near (sent_block n' b bs' own group groups' tail' g e s) =
      sent_block n b bs' own group groups' (tail ++ (p ∷ [])) g e
        (IsSent-extra (n + 1) m bs' groups' tail p w (omega arith) (omega arith) s)

  -- A block is sent.
  IsSent-block :
      (n k : ℕ) (bs : List (List ℕ)) (groups : List (List Packet)) (tail : List Packet) (b : List ℕ)
      (own : List Packet)
      → k ≡ n + length bs
      → AllNumbered q (u8 k) own
      → IsMerge
          (source_packets (encoder_of q a k b))
          (repair_packets (encoder_of q a k b) 0 a.baseline_repair)
          own
      → IsSent n bs groups tail
      → IsSent n (bs ++ (b ∷ [])) (groups ++ ((tail ++ own) ∷ [])) []
  IsSent-block n k bs groups tail b own at h m (sent_end n' tail' g) =
      let here : k ≡ n = omega arith in
      sent_block n b [] own (tail ++ own) [] []
        (IsGroup-append q n [] tail own own g
          (subst (λ i. IsGroup q i own own) here (AllNumbered-IsGroup q k own h)))
        (subst
          (λ i.
            IsMerge (source_packets (encoder_of q a i b))
              (repair_packets (encoder_of q a i b) 0 a.baseline_repair) own)
          here m)
        (sent_end (n + 1) [] group_end)
  IsSent-block n k bs groups tail b own at h m
        (sent_block n' b' bs' own' group groups' tail' g e s) =
      sent_block n b' (bs' ++ (b ∷ [])) own' group (groups' ++ ((tail ++ own) ∷ [])) [] g e
        (IsSent-block (n + 1) k bs' groups' tail b own (omega arith) h m s)

  block_packets-IsMerge :
      (e : BlockEncoder)
      → IsMerge (source_packets e) (repair_packets e 0 a.baseline_repair) (block_packets q a e)
  unfolding block_packets
  block_packets-IsMerge e = interleave-IsMerge (source_packets e) _ (rep_interval q a)

  -- The groups of a trace.
  record IsGrouped (bs : List (List ℕ)) (out : List Packet) : Type 0 where
    pub groups : List (List Packet)
    pub tail : List Packet
    pub whole : concat groups ++ tail ≡ out
    pub sent : IsSent 0 bs groups tail

  pop-AllNumbered :
      (sbn : ℕ) (ps : List Packet) (p : Packet)
      → pop ps ≡ some p
      → AllNumbered q sbn ps
      → IsNumbered q sbn p
  unfolding pop
  pop-AllNumbered sbn [] p e h = cc
  pop-AllNumbered sbn (x ∷ []) p e h = subst (IsNumbered q sbn) (some-injective x p e) h.0
  pop-AllNumbered sbn (x ∷ y ∷ ps) p e h = pop-AllNumbered sbn (y ∷ ps) p e h.1

  AllFull-append : (bs cs : List (List ℕ)) → AllFull (bs ++ cs) → AllFull bs × AllFull cs
  AllFull-append [] cs h = (tt, h)
  AllFull-append (b ∷ bs) cs h = let (l, r) = AllFull-append bs cs h.1 in ((h.0, l), r)

  AllFull-get :
      (bs : List (List ℕ)) (n : ℕ) (b : List ℕ)
      → get_elem? bs n ≡ some b
      → AllFull bs
      → (length b ≡ transfer_length a.oti) × (n < length bs)
  AllFull-get [] n b e h = cc
  AllFull-get (x ∷ bs) zero b e h = (ap length (sym (some-injective x b e)) ∙ h.0, omega arith)
  AllFull-get (x ∷ bs) (suc n) b e h =
      let (full, low) = AllFull-get bs n b e h.1 in (full, omega arith)

  module _ (codec : IsCodec q a.oti) (baseline : a.baseline_repair ≤ 2 ^ 23)
      (ceiling : a.max_repair ≤ 2 ^ 23) where
    IsTrace-IsGrouped :
        (bs : List (List ℕ)) (ids : List ℕ) (out : List Packet)
        → AllFull bs
        → IsTrace q a bs ids out
        → IsGrouped bs out
    IsTrace-IsGrouped bs ids out full trace_start = record {
      groups = [];
      tail = [];
      whole = refl;
      sent = sent_end 0 [] group_end;
    }
    IsTrace-IsGrouped bs ids out full (trace_block bs' ids' out' b tr) =
        let (before, last) = AllFull-append bs' (b ∷ []) full in
        let g = IsTrace-IsGrouped bs' ids' out' before tr in
        let k : ℕ = length bs' in
        let own = block_packets q a (encoder_of q a k b) in
        let merged = block_packets-IsMerge (encoder_of q a k b) in
        record {
          groups = g.groups ++ ((g.tail ++ own) ∷ []);
          tail = [];
          whole =
              append-nil _
              ∙ concat-append g.groups ((g.tail ++ own) ∷ [])
              ∙ ap (λ x. concat g.groups ++ x) (append-nil (g.tail ++ own))
              ∙ sym (append_assoc (concat g.groups) g.tail own)
              ∙ ap (λ x. x ++ own) g.whole;
          sent =
              IsSent-block 0 k bs' g.groups g.tail b own (omega arith)
                (AllNumbered-merge q (u8 k) _ _ own merged
                  (codec.sources (u8 k) b (omega arith) last.0)
                  (codec.repairs (u8 k) 0 a.baseline_repair b (omega arith) last.0 (omega arith)))
                merged g.sent;
        }
    IsTrace-IsGrouped bs ids out full
          (trace_extra bs' ids' out' n id b p there next recent less e tr) =
        let g = IsTrace-IsGrouped bs' ids' out' full tr in
        let (filled, low) = AllFull-get bs' n b there full in
        record {
          groups = g.groups;
          tail = g.tail ++ (p ∷ []);
          whole =
              sym (append_assoc (concat g.groups) g.tail (p ∷ []))
              ∙ ap (λ x. x ++ (p ∷ [])) g.whole;
          sent =
              IsSent-extra 0 n bs' g.groups g.tail p
                (pop-AllNumbered (u8 n) _ p e
                  (codec.repairs (u8 n) id 1 b (omega arith) filled (omega arith)))
                (omega arith) (omega arith) g.sent;
        }
    IsTrace-IsGrouped bs ids out full (trace_missing bs' ids' out' n id b there next less e tr) =
        IsTrace-IsGrouped bs' ids' out full tr

  -- The segments of what the wire carries.
  pub record IsCut (pid n : ℕ) (bs : List (List ℕ)) (wire : List (List ℕ)) : Type 0 where
    pub segments : List (List (List ℕ))
    pub whole : concat segments ≡ wire
    pub broadcast : IsBroadcast pid n bs segments

  IsSent-IsCut :
      (pid n : ℕ) (bs : List (List ℕ)) (groups : List (List Packet)) (tail : List Packet)
      (wire : List (List ℕ))
      → IsSent n bs groups tail
      → Carries q pid a.oti (concat groups ++ tail) wire
      → IsCut pid n bs wire
  IsSent-IsCut pid n bs groups tail wire (sent_end n' tail' g) h = record {
    segments = wire ∷ [];
    whole = append-nil wire;
    broadcast = broadcast_end n tail wire g h;
  }
  IsSent-IsCut pid n bs groups tail wire (sent_block n' b bs' own group groups' tail' g m s) h =
      let c =
        Carries-IsSplit q pid a.oti group (concat groups' ++ tail) _ wire
          (sym (append_assoc group (concat groups') tail)) h in
      let later = IsSent-IsCut pid (n + 1) bs' groups' tail c.back s c.carries_back in
      record {
        segments = c.front ∷ later.segments;
        whole = ap (λ x. c.front ++ x) later.whole ∙ c.whole;
        broadcast =
            broadcast_block n b bs' own group c.front later.segments g m c.carries_front
              later.broadcast;
      }

  -- A trace on the wire.
  pub IsTrace-IsCut :
      IsCodec q a.oti
      → a.baseline_repair ≤ 2 ^ 23
      → a.max_repair ≤ 2 ^ 23
      → (pid rate_bps : ℕ) (bs : List (List ℕ)) (ids : List ℕ) (out : List Packet)
        (wire : List (List ℕ))
      → AllFull bs
      → IsTrace q a bs ids out
      → IsStream q pid rate_bps a.oti out wire
      → IsCut pid 0 bs wire
  IsTrace-IsCut codec baseline ceiling pid rate_bps bs ids out wire full tr stream =
      let g = IsTrace-IsGrouped codec baseline ceiling bs ids out full tr in
      IsSent-IsCut pid 0 bs g.groups g.tail wire g.sent (
        subst (λ x. Carries q pid a.oti x wire) (sym g.whole)
          (IsStream-Carries q pid a.oti rate_bps out wire stream))

  module _ (codec : IsCodec q a.oti) (baseline : a.baseline_repair ≤ 2 ^ 23)
      (ceiling : a.max_repair ≤ 2 ^ 23) (accepts : ℕ → Bool) (pid rate_bps : ℕ) (small : pid < 8192)
      (paced : 0 < rate_bps) where
    encoder_runs-IsTrace :
        (bs : List (List ℕ)) (s : EncoderState BlockEncoder Packet)
        → EncoderResult q a bs (running s)
        → (ids : List ℕ) × IsTrace q a bs ids s.out
    encoder_runs-IsTrace bs s (encoder_runs s' ids v) = (ids, v.trace)

    writer_runs-IsStream :
        (ps : List Packet) (w : Writer)
        → WriterResult q pid rate_bps a.oti ps (Writing.running w)
        → IsStream q pid rate_bps a.oti ps w.out
    writer_runs-IsStream ps w (writer_runs w' v) = v.stream

    -- For the laws of the crate's codec, with repair numbers up to 2^23, blocks that fill the OTI,
    -- a PID of 13 bits, a positive rate and packets of the sizes that the crate promises: while
    -- the encoder and the writer run, and the writer has taken all that the encoder sent, what is
    -- on the wire falls into one segment for each block that came in, in order, and one behind
    -- them. A segment holds all source packets and all baseline repair packets of its block under
    -- the block's number, each kind in order, and may hold stuffing and packets of up to 127
    -- blocks before; the last one holds nothing else.
    pub writer_thread-encoder_thread :
        (slots : List Slot) (ticks : List (Tick Packet)) (s : EncoderState BlockEncoder Packet)
        (w : Writer)
        → AllFull (blocks_of slots)
        → AllFit q pid rate_bps a.oti (taken q pid rate_bps a.oti ticks)
        → encoder_thread q accepts a slots (running (start_encoder q)) ≡ running s
        → taken q pid rate_bps a.oti ticks ≡ s.out
        → writer_thread q pid rate_bps a.oti ticks (start_phase rate_bps) ≡ Writing.running w
        → IsCut pid 0 (blocks_of slots) w.out
    writer_thread-encoder_thread slots ticks s w full fit sends passed writes =
        let (ids, tr) = encoder_runs-IsTrace (blocks_of slots) s (
          subst (EncoderResult q a (blocks_of slots)) sends
            (encoder_thread-EncoderResult q accepts a slots (omega arith))) in
        let stream = writer_runs-IsStream (taken q pid rate_bps a.oti ticks) w (
          subst (WriterResult q pid rate_bps a.oti (taken q pid rate_bps a.oti ticks)) writes
            (writer_thread-WriterResult q pid rate_bps a.oti small ticks paced fit)) in
        IsTrace-IsCut codec baseline ceiling pid rate_bps (blocks_of slots) ids s.out w.out full tr
          (subst (λ ps. IsStream q pid rate_bps a.oti ps w.out) passed stream)
