-- ===== src/Dec/Receive/Counters.antt =====
-- The link statistics of a received packet in `run_decoder` of raptorq/dec/src/main.rs.
use live_video.Prelude.{
  ℕ, ◌+◌, ◌≡◌, refl, true, false, Bool, Bool-cases, inl, inr, List, Option, none, some, not, ltb,
  if◌then◌else◌, Outcome, ok, err, panic, u64,
}
use live_video.Maps.{insert}
use live_video.RaptorQ.{RaptorQ}
use live_video.Wire.Header.{ParseError}
use live_video.Wire.Frame.Parse.{ParsedFrame, data_frame, noop_frame, parse_packet}
use live_video.Dec.Gap.{cc_gap}
use live_video.Dec.Oti.{oti_is_sane}
use live_video.Dec.Block.{BlockState, ingest}
use live_video.Dec.Sbn.{unwrap_sbn}
use live_video.Dec.State.{
  Decoder, IntervalStats, incr, Options, count_gap, count_noop, count_unparseable, count_redundant,
  count_ok,
}
use live_video.Dec.Receive.{
  Flow, fall, again, abort, locate, raise, entry, accept, admit, on_sane, on_data, on_frame,
  on_bytes,
}

-- What is counted of a packet, by its kind.
pub data Kind : Type 0 where
  accepted : Kind
  noop : Kind
  redundant : Kind
  unparseable : Kind

-- The statistics after the losses that a packet shows, and after a packet of a kind.
abbrev pub after_gap : Option ℕ → IntervalStats → IntervalStats
after_gap none s = s
after_gap (some gap) s = record s { pkts_lost = u64 (s.pkts_lost + gap) }

abbrev pub after_kind : Kind → IntervalStats → IntervalStats
after_kind accepted s = record s { pkts_ok = incr s.pkts_ok }
after_kind noop s = record s { noops = incr s.noops }
after_kind redundant s = record s { pkts_redundant = incr s.pkts_redundant }
after_kind unparseable s = record s { pkts_unparseable = incr s.pkts_unparseable }

module _ (q : RaptorQ) where
  open q use {Oti, PayloadId, BlockDecoder, source_block_number, new_packet}

  -- The losses that a frame shows: only a parsed frame has a counter.
  abbrev pub gap_of :
      Decoder BlockDecoder → Outcome ParseError (ParsedFrame Oti PayloadId) → Option ℕ
  gap_of d (ok (data_frame cc oti payload_id symbol)) = some (cc_gap d.last_cc cc).0
  gap_of d (ok (noop_frame cc)) = some (cc_gap d.last_cc cc).0
  gap_of d (err e) = none
  gap_of d panic = none

  -- The kind of a frame: a data frame with a sane OTI is redundant if its block lies before the
  -- cursor.
  abbrev pub kind_of : Decoder BlockDecoder → Outcome ParseError (ParsedFrame Oti PayloadId) → Kind
  kind_of d (ok (data_frame cc oti payload_id symbol)) =
      let (logical, d') = locate d (source_block_number payload_id) in
      if not (oti_is_sane q oti)
      then unparseable
      else if ltb logical d'.cursor
      then redundant
      else accepted
  kind_of d (ok (noop_frame cc)) = noop
  kind_of d (err e) = unparseable
  kind_of d panic = unparseable

  -- The statistics of the state in which the match ends, if it does not panic.
  abbrev pub StatsAfter : IntervalStats → Flow (Decoder BlockDecoder) → Type 0
  StatsAfter s (fall d) = d.istats ≡ s
  StatsAfter s (again d) = d.istats ≡ s
  StatsAfter s abort = Unit {0}

  accept-stats :
      (now : ℕ) (d : Decoder BlockDecoder) (logical : ℕ) (oti : Oti) (payload_id : PayloadId)
      (symbol : List ℕ)
      → StatsAfter d.istats (accept q now d logical oti payload_id symbol)
  unfolding accept
  accept-stats now d logical oti payload_id symbol =
      go (entry q d logical (source_block_number payload_id) oti now)
    where
      go :
          (e : Option (BlockState BlockDecoder))
          → StatsAfter d.istats (elim e as (λ x. Flow (Decoder BlockDecoder)) [
            | none ↦ abort
            | some b ↦ fall (record d {
              pool = insert logical (ingest q b (new_packet payload_id symbol)) d.pool;
            })
          ])
      go none = tt
      go (some b) = refl

  admit-stats :
      (now : ℕ) (d : Decoder BlockDecoder) (logical : ℕ) (oti : Oti) (payload_id : PayloadId)
      (symbol : List ℕ)
      → StatsAfter
          (after_kind (if ltb logical d.cursor then redundant else accepted) d.istats)
          (admit q now d logical oti payload_id symbol)
  unfolding admit count_redundant count_ok raise
  admit-stats now d logical oti payload_id symbol = elim (Bool-cases (ltb logical d.cursor)) [
    | inl old ↦ rw (old, admit) refl
    | inr open_block ↦ elim (Bool-cases (ltb d.highest_seen logical)) [
      | inl higher ↦
          rw (open_block, higher, admit)
            (accept-stats now (count_ok (record d { highest_seen = logical })) logical oti
              payload_id symbol)
      | inr lower ↦
          rw (open_block, lower, admit)
            (accept-stats now (count_ok d) logical oti payload_id symbol)
    ]
  ]

  located-stats :
      (now : ℕ) (d : Decoder BlockDecoder) (cc : ℕ) (oti : Oti) (payload_id : PayloadId)
      (symbol : List ℕ) (b : Bool) (x y : ℕ)
      → let there : ℕ × Decoder BlockDecoder =
          if b then (x, d) else (y, record d { cursor = y; highest_seen = y; started = true }) in
        let counted : ℕ × Decoder BlockDecoder =
          if b
          then (x, count_gap d cc)
          else (y, record (count_gap d cc) { cursor = y; highest_seen = y; started = true }) in
        StatsAfter
          (after_kind
            (if ltb there.0 there.1.cursor then redundant else accepted)
            (count_gap d cc).istats)
          (admit q now counted.1 counted.0 oti payload_id symbol)
  unfolding count_gap
  located-stats now d cc oti payload_id symbol true x y =
      admit-stats now (count_gap d cc) x oti payload_id symbol
  located-stats now d cc oti payload_id symbol false x y =
      admit-stats now (record (count_gap d cc) { cursor = y; highest_seen = y; started = true }) y
        oti payload_id symbol

  on_frame-stats :
      (now : ℕ) (d : Decoder BlockDecoder) (f : Outcome ParseError (ParsedFrame Oti PayloadId))
      → StatsAfter (after_kind (kind_of d f) (after_gap (gap_of d f) d.istats)) (on_frame q now d f)
  unfolding on_frame on_data on_sane locate count_gap count_noop count_unparseable
  on_frame-stats now d (ok (data_frame cc oti payload_id symbol)) =
      elim (Bool-cases (oti_is_sane q oti)) [
        | inr insane ↦ rw (insane, on_data) refl
        | inl sane ↦
            rw (sane, on_data)
              (located-stats now d cc oti payload_id symbol d.started
                (unwrap_sbn d.cursor (source_block_number payload_id))
                (source_block_number payload_id))
      ]
  on_frame-stats now d (ok (noop_frame cc)) = refl
  on_frame-stats now d (err e) = refl
  on_frame-stats now d panic = tt

  -- The statistics after a received packet, if the decoder does not panic: the losses go up by
  -- the gap of the packet's continuity counter, if it can be parsed, and exactly one of four
  -- counters goes up by one, all modulo 2^64. These count the stuffing packets, the packets that
  -- cannot be parsed or whose OTI is not sane, those of a block before the cursor, and the rest.
  pub on_bytes-stats :
      (o : Options) (now : ℕ) (d : Decoder BlockDecoder) (bytes : List ℕ)
      → let f = parse_packet q bytes o.pid in
        StatsAfter
          (after_kind (kind_of d f) (after_gap (gap_of d f) d.istats))
          (on_bytes q o now d bytes)
  unfolding on_bytes
  on_bytes-stats o now d bytes = on_frame-stats now d (parse_packet q bytes o.pid)
