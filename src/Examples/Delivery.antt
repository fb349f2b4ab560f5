-- ===== src/Examples/Delivery.antt =====
-- Examples of streams that the decoder of raptorq/dec/src/main.rs writes in full.
use live_video.Prelude.{
  ℕ, ◌≤◌, ◌≡◌, refl, true, List, [], ◌∷◌, ◌++◌, replicate, map, concat, some, none, ok, err, arith,
}
use live_video.Prelude.Slices.{slice?}
use live_video.Wire.Header.{bad_sync, parse, read_fields}
use live_video.Wire.Frame.Parse.{
  data_frame, noop_frame, to_header, parse_data, parse_payload, parse_body, parse_packet,
}
use live_video.Enc.Encoder.{EncoderArgs}
use live_video.Enc.Interleave.Merge.{from_source, both_empty}
use live_video.Dec.Oti.{oti_is_sane}
use live_video.Dec.State.{Decoder, Options, start_decoder}
use live_video.Dec.Emit.{Env}
use live_video.Dec.Run.{Turn, Received, packet, nothing, going, run_from}
use live_video.Dec.Transparent.{
  first_result, IsCalm, heard_end, heard_nothing, heard_noop, heard_garbage, heard_old, heard_own,
  IsReception, reception_end, reception_block,
}
use live_video.Dec.Transparent.Blocks.{run_from-IsReception}
use live_video.Link.Segments.{
  group_end, group_own, group_old, carries_end, carries_noop, carries_data,
}
use live_video.Link.Broadcast.{IsBroadcast, broadcast_end, broadcast_block}
use live_video.Link.Delivery.{
  IsPlayed, played_end, played_packet, IsTimely, timely_last, timely_more, run_from-IsBroadcast,
}
use live_video.Examples.Toy.{toy, small_oti, small_block, small_packet}
use live_video.Examples.Codec.{toy-IsCodec}

abbrev options : Options
options = record { pid = 0x100; max_in_flight = 2; timeout = 700; stats_interval = none }

abbrev env : Env
env = record { clock = λ n. 100; write_ok = λ n. true; flush_ok = true }

abbrev turn_with : Received → Turn
turn_with r = record { env = env; received = r; arrival = 5; stats_time = 6; stats_reset = 7 }

turn_with-IsCalm : (r : Received) → IsCalm options 0 (turn_with r)
turn_with-IsCalm r = record {
  stamped = omega arith;
  later = λ n. omega arith;
  prompt = λ n. omega arith;
  writes = λ n. refl;
  flushes = refl;
}

-- The only packet of block `sbn`, a stuffing packet, and one that lost its sync byte.
abbrev data_packet : ℕ → List ℕ
data_packet sbn = 0x47 ∷ 0x01 ∷ 0x00 ∷ 0x17 ∷ 0x01 ∷ (small_oti ++ (sbn ∷ 0 ∷ 0 ∷ 0 ∷ small_block))

abbrev noop_packet : List ℕ
noop_packet = 0x47 ∷ 0x01 ∷ 0x00 ∷ 0x18 ∷ 0x02 ∷ replicate 183 0

abbrev bad_packet : List ℕ
bad_packet = 0x46 ∷ replicate 187 0

data_packet-parsed :
    (sbn : ℕ)
    → parse_packet toy (data_packet sbn) 0x100 ≡ ok (data_frame 7 small_oti (sbn, 0) small_block)
unfolding parse_packet parse slice? to_header read_fields parse_body parse_payload parse_data
data_packet-parsed sbn = refl

noop_packet-parsed : parse_packet toy noop_packet 0x100 ≡ ok (noop_frame 8)
unfolding parse_packet parse slice? to_header read_fields parse_body parse_payload
noop_packet-parsed = refl

bad_packet-parsed : parse_packet toy bad_packet 0x100 ≡ err bad_sync
unfolding parse_packet parse slice? to_header
bad_packet-parsed = refl

first_result-small : (sbn : ℕ) → first_result toy (1, []) (small_packet sbn ∷ []) ≡ some small_block
unfolding first_result
first_result-small sbn = refl

first_result-nothing : first_result toy (1, []) [] ≡ none
unfolding first_result
first_result-nothing = refl

-- Block 0 with noise before it, block 1 behind a late packet of block 0, and a pause.
abbrev first_turns : List Turn
first_turns = turn_with (packet bad_packet) ∷ turn_with (packet (data_packet 0)) ∷ []

abbrev second_turns : List Turn
second_turns =
    turn_with (packet (data_packet 0))
    ∷ turn_with (packet noop_packet)
    ∷ turn_with (packet (data_packet 1))
    ∷ []

small_packets-IsReception :
    IsReception toy options small_oti 0
      (small_block ∷ small_block ∷ [])
      (first_turns ++ (second_turns ++ (turn_with nothing ∷ [])))
small_packets-IsReception =
    reception_block 0 0 small_block (small_block ∷ []) (small_packet 0 ∷ []) first_turns _
      (heard_garbage _ _ _ bad_packet bad_sync (turn_with-IsCalm _) refl bad_packet-parsed (
        heard_own _ _ _ (data_packet 0) 7 (small_packet 0) (turn_with-IsCalm _) refl
          (data_packet-parsed 0) refl heard_end))
      (first_result-small 0)
      (reception_block 1 0 small_block [] (small_packet 1 ∷ []) second_turns _
        (heard_old _ _ _ (data_packet 0) 7 0 (small_packet 0) (turn_with-IsCalm _) refl
          (data_packet-parsed 0) refl (omega arith) (omega arith)
          (heard_noop _ _ _ noop_packet 8 (turn_with-IsCalm _) refl noop_packet-parsed (
            heard_own _ _ _ (data_packet 1) 7 (small_packet 1) (turn_with-IsCalm _) refl
              (data_packet-parsed 1) refl heard_end)))
        (first_result-small 1)
        (reception_end 2 0 [] _ (heard_nothing _ _ _ (turn_with-IsCalm _) refl heard_end)
          first_result-nothing))

small_oti_sane : oti_is_sane toy small_oti ≡ true
unfolding oti_is_sane
small_oti_sane = refl

run_from-IsReception_example :
    (d : Decoder (ℕ × List ℕ)) × (run_from toy options
        (first_turns ++ (second_turns ++ (turn_with nothing ∷ [])))
        (going (start_decoder 0))
      ≡ ok (going d))
    × (d.out ≡ small_block ∷ small_block ∷ [])
    × (d.cursor ≡ 2)
    × (d.highest_seen ≤ 2)
run_from-IsReception_example =
    run_from-IsReception toy options small_oti (omega arith) small_oti_sane (λ p. refl)
      (small_block ∷ small_block ∷ []) (first_turns ++ (second_turns ++ (turn_with nothing ∷ []))) 0
      (omega arith) small_packets-IsReception

-- The same blocks as the encoder sends them, with a repair packet of block 0 behind block 1.
abbrev args : EncoderArgs (List ℕ)
args = record {
  oti = small_oti;
  baseline_repair = 0;
  max_repair = 2;
  adaptive = true;
  horizon = 10;
}

abbrev late_packet : List ℕ
late_packet = 0x47 ∷ 0x01 ∷ 0x00 ∷ 0x19 ∷ 0x01 ∷ (small_oti ++ (0 ∷ 0 ∷ 0 ∷ 1 ∷ replicate 167 0))

late_packet-parsed :
    parse_packet toy late_packet 0x100 ≡ ok (data_frame 9 small_oti (0, 1) (replicate 167 0))
unfolding parse_packet parse slice? to_header read_fields parse_body parse_payload parse_data
late_packet-parsed = refl

abbrev segments : List (List (List ℕ))
segments = (data_packet 0 ∷ []) ∷ (noop_packet ∷ data_packet 1 ∷ []) ∷ (late_packet ∷ []) ∷ []

segments-IsBroadcast : IsBroadcast toy args 0x100 0 (small_block ∷ small_block ∷ []) segments
segments-IsBroadcast =
    broadcast_block 0 small_block _ (small_packet 0 ∷ []) (small_packet 0 ∷ []) _ _
      (group_own (small_packet 0) [] [] (record { numbered = refl; read_back = refl }) group_end)
      (from_source _ [] [] [] both_empty)
      (carries_data [] (small_packet 0) (data_packet 0) [] 7 (data_packet-parsed 0) carries_end)
      (broadcast_block 1 small_block [] (small_packet 1 ∷ []) (small_packet 1 ∷ []) _ _
        (group_own (small_packet 1) [] [] (record { numbered = refl; read_back = refl }) group_end)
        (from_source _ [] [] [] both_empty)
        (carries_noop _ noop_packet _ 8 noop_packet-parsed (
          carries_data [] (small_packet 1) (data_packet 1) [] 7 (data_packet-parsed 1) carries_end))
        (broadcast_end 2 (((0, 1), replicate 167 0) ∷ []) _
          (group_old ((0, 1), replicate 167 0) 0 [] []
            (record { numbered = refl; read_back = refl }) (omega arith) (omega arith) group_end)
          (carries_data [] ((0, 1), replicate 167 0) late_packet [] 9 late_packet-parsed
            carries_end)))

played : (wire : List (List ℕ)) → IsPlayed options 0 wire (map (λ b. turn_with (packet b)) wire)
played [] = played_end
played (b ∷ wire) = played_packet wire b _ _ (turn_with-IsCalm _) refl (played wire)

abbrev all_turns : List Turn
all_turns = map (λ b. turn_with (packet b)) (concat segments)

segments-IsTimely : IsTimely options segments all_turns
segments-IsTimely =
    timely_more 0 (data_packet 0 ∷ []) _ (turn_with (packet (data_packet 0)) ∷ []) _ (played _) (
      timely_more 0 (noop_packet ∷ data_packet 1 ∷ []) _
        (turn_with (packet noop_packet) ∷ turn_with (packet (data_packet 1)) ∷ []) _ (played _)
        (timely_last 0 (late_packet ∷ []) _ (played _)))

run_from-IsBroadcast_example :
    (d : Decoder (ℕ × List ℕ)) × (run_from toy options all_turns (going (start_decoder 0))
      ≡ ok (going d))
    × (d.out ≡ small_block ∷ small_block ∷ [])
run_from-IsBroadcast_example =
    run_from-IsBroadcast toy args options toy-IsCodec (omega arith) (small_block ∷ small_block ∷ [])
      segments all_turns 0 (omega arith) small_oti_sane (omega arith) (refl, (refl, tt))
      segments-IsBroadcast segments-IsTimely
