-- ===== src/Wire/Frame/RoundTrip.antt =====
-- What `parse_packet` makes of the packets that raptorq/common/src/lib.rs builds.
use live_video.Prelude.{
  ℕ, ◌%◌, ◌≡◌, refl, ◌∙◌, ap, List, [], ◌∷◌, ◌++◌, some, ◌==◌, if◌then◌else◌, arith, length,
  length-append, Outcome, ok, err,
}
use mathlib.Core.List.{append_assoc}
use live_video.Prelude.Slices.{slice?, slice?-append, slice?-end}
use live_video.RaptorQ.{RaptorQ}
use live_video.Wire.Header.{TsHeader, ParseError, wrong_pid, write, to_list}
use live_video.Wire.Header.RoundTrip.{parse-write, wire_part}
use live_video.Wire.Frame.Build.{packet_header, build_noop_packet, build_data_packet}
use live_video.Wire.Frame.Parse.{
  ParsedFrame, data_frame, noop_frame, to_header, parse_data, parse_payload, parse_body,
  parse_packet,
}
use live_video.Wire.Frame.Layout.{
  header_list, noop_bytes, noop_bytes-cons, build_noop_packet_lem, data_bytes, Fits,
  build_data_packet_lem,
}

module _ (q : RaptorQ) where
  open q use {
    Oti, PayloadId, Packet, serialize_oti, serialize_id, deserialize_oti, deserialize_id,
    payload_id, symbol,
  }

  parse_packet-header :
      (h : TsHeader) (rest : List ℕ) (pid : ℕ)
      → length rest ≡ 184
      → parse_packet q (to_list (write h) ++ rest) pid
        ≡ parse_body q (to_list (write h) ++ rest) pid (wire_part h)
  unfolding parse_packet to_header
  parse_packet-header h rest pid l =
      rw (l, slice?-append 0 4 [] (to_list (write h)) rest refl refl, parse-write h) refl

  -- The verdict on a packet with the given PID field: the frame, or the mismatch.
  abbrev pub on_pid :
      ℕ → ℕ → ParsedFrame Oti PayloadId → Outcome ParseError (ParsedFrame Oti PayloadId)
  on_pid pid expected frame =
      if pid % 8192 == expected then ok frame else err (wrong_pid (pid % 8192) expected)

  parse_body-header :
      (pid cc expected frame_type : ℕ) (rest : List ℕ)
      → parse_body q
          (header_list pid cc ++ (frame_type ∷ rest))
          expected
          (wire_part (packet_header pid cc))
        ≡ (if pid % 8192 == expected
            then parse_payload q (cc % 16) (frame_type ∷ rest) frame_type
            else err (wrong_pid (pid % 8192) expected))
  unfolding parse_body wire_part packet_header
  parse_body-header pid cc expected frame_type rest = ground arith

  parse_data-bytes :
      (cc : ℕ) (oti : Oti) (pkt : Packet)
      → Fits q oti pkt
      → parse_data q cc (1 ∷ (serialize_oti oti ++ (serialize_id (payload_id pkt) ++ symbol pkt)))
        ≡ ok (
            data_frame cc
              (deserialize_oti (serialize_oti oti))
              (deserialize_id (serialize_id (payload_id pkt)))
              (symbol pkt))
  unfolding parse_data
  parse_data-bytes cc oti pkt f =
      let o = serialize_oti oti in
      let i = serialize_id (payload_id pkt) in
      let whole : (1 ∷ (o ++ i)) ++ symbol pkt ≡ 1 ∷ (o ++ (i ++ symbol pkt)) =
        ap (◌∷◌ 1) (append_assoc o i (symbol pkt)) in
      let last : slice? 17 167 (1 ∷ (o ++ (i ++ symbol pkt))) ≡ some (symbol pkt) = rw (← whole) (
        slice?-end 17 167 (1 ∷ (o ++ i)) (symbol pkt)
          (omega (arith, length-append o i, f.oti_length, f.id_length)) f.symbol_length) in
      rw
        (
          slice?-append 1 12 (1 ∷ []) o (i ++ symbol pkt) refl f.oti_length,
          slice?-append 13 4 (1 ∷ o) i (symbol pkt) (omega (arith, f.oti_length)) f.id_length,
          last,
        )
        refl

  -- A stuffing packet, built over any buffer, is parsed as stuffing with its counter, if the
  -- expected PID is the PID that was given, cut to the 13 bits of the field; otherwise the two
  -- PIDs are reported. It is 188 bytes long.
  pub parse_packet-build_noop_packet :
      (pid cc expected : ℕ) (out : List ℕ)
      → length out ≡ 188
      → (bytes : List ℕ) × (build_noop_packet pid cc out ≡ some bytes)
        × (length bytes ≡ 188)
        × (parse_packet q bytes expected ≡ on_pid pid expected (noop_frame (cc % 16)))
  unfolding parse_payload
  parse_packet-build_noop_packet pid cc expected out h =
      let (rest, e, l) = noop_bytes-cons pid cc in
      let size : length (noop_bytes pid cc) ≡ 188 = rw e (omega (arith, l)) in
      let parsed : parse_packet q (noop_bytes pid cc) expected
          ≡ on_pid pid expected (noop_frame (cc % 16)) =
        rw e (
          parse_packet-header (packet_header pid cc) (2 ∷ rest) expected (omega (arith, l))
          ∙ parse_body-header pid cc expected 2 rest) in
      (noop_bytes pid cc, build_noop_packet_lem pid cc out h, size, parsed)

  -- A data packet, built over any buffer, is parsed as data: the same symbol, the counter, and
  -- what the crate reads back from the OTI and the payload id that it wrote, if the expected PID
  -- is the PID that was given, cut to 13 bits; otherwise the two PIDs are reported. It is 188
  -- bytes long, given that the crate's OTI, payload id and symbol have 12, 4 and 167 bytes.
  pub parse_packet-build_data_packet :
      (pid cc expected : ℕ) (oti : Oti) (pkt : Packet) (out : List ℕ)
      → Fits q oti pkt
      → length out ≡ 188
      → (bytes : List ℕ) × (build_data_packet q pid cc oti pkt out ≡ some bytes)
        × (length bytes ≡ 188)
        × (parse_packet q bytes expected
            ≡ on_pid pid expected (
                data_frame
                  (cc % 16)
                  (deserialize_oti (serialize_oti oti))
                  (deserialize_id (serialize_id (payload_id pkt)))
                  (symbol pkt)))
  unfolding parse_payload
  parse_packet-build_data_packet pid cc expected oti pkt out f h =
      let o = serialize_oti oti in
      let i = serialize_id (payload_id pkt) in
      let rest = o ++ (i ++ symbol pkt) in
      let l : length rest ≡ 183 = omega (
        arith,
        length-append o (i ++ symbol pkt),
        length-append i (symbol pkt),
        f.oti_length,
        f.id_length,
        f.symbol_length,
      ) in
      let parsed : parse_packet q (data_bytes q pid cc oti pkt) expected
          ≡ on_pid pid expected
              (data_frame (cc % 16) (deserialize_oti o) (deserialize_id i) (symbol pkt)) =
        parse_packet-header (packet_header pid cc) (1 ∷ rest) expected (omega (arith, l))
        ∙ parse_body-header pid cc expected 1 rest
        ∙ rw (parse_data-bytes (cc % 16) oti pkt f) refl in
      (
        data_bytes q pid cc oti pkt,
        build_data_packet_lem q pid cc oti pkt out f h,
        omega (arith, l),
        parsed,
      )
