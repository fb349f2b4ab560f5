-- ===== src/Wire/Frame/Soundness.antt =====
-- What `parse_packet` of raptorq/common/src/lib.rs accepts, against a description of the packet
-- in plain arithmetic.
use live_video.Prelude.{
  ℕ, ◌+◌, ◌*◌, ◌/◌, ◌%◌, ◌<◌, ◌≡◌, ◌≢◌, refl, ◌∙◌, Bool, ==_iff, ap, List, [], ◌∷◌, ◌==◌, leb,
  if◌then◌else◌, arith, inl, inr, Bool-cases, true, false, sym, subst, length-take, length-drop,
  not, bit, length, take, drop, Outcome, ok, err,
}
use live_video.Prelude.Slices.{slice?_fits, slice?-append}
use live_video.RaptorQ.{RaptorQ}
use live_video.Wire.Header.{
  ParseError, wrong_length, bad_sync, transport_error, wrong_pid, unknown_frame_type, HeaderBytes,
  IsBytes, parse, read_fields,
}
use live_video.Wire.Header.RoundTrip.{read_fields-Reads}
use live_video.Wire.Frame.Parse.{
  ParsedFrame, data_frame, noop_frame, to_header, parse_data, parse_payload, parse_body,
  parse_packet,
}

abbrev pub AllBytes : List ℕ → Type 0
AllBytes [] = Unit {0}
AllBytes (x ∷ xs) = (x < 256) × AllBytes xs

module _ (q : RaptorQ) where
  open q use {Oti, PayloadId, deserialize_oti, deserialize_id}

  -- The payload of 184 bytes: its first byte, and the other 183.
  abbrev pub payload_reference : ℕ → ℕ → List ℕ → Outcome ParseError (ParsedFrame Oti PayloadId)
  payload_reference cc t rest =
      if t == 2
      then ok (noop_frame cc)
      else if t == 1
      then ok (
          data_frame cc (deserialize_oti (take 12 rest)) (deserialize_id (take 4 (drop 12 rest)))
            (take 167 (drop 16 rest)))
      else err (unknown_frame_type t)

  -- The whole packet, by its bytes.
  abbrev pub packet_reference : List ℕ → ℕ → Outcome ParseError (ParsedFrame Oti PayloadId)
  packet_reference (b0 ∷ b1 ∷ b2 ∷ b3 ∷ t ∷ rest) pid =
      if not (length rest == 183)
      then err (wrong_length (5 + length rest))
      else if not (b0 == 0x47)
      then err bad_sync
      else if leb 128 b1
      then err transport_error
      else if not (b1 % 32 * 256 + b2 == pid)
      then err (wrong_pid (b1 % 32 * 256 + b2) pid)
      else payload_reference (b3 % 16) t rest
  packet_reference bytes pid = err (wrong_length (length bytes))

  parse_payload-reference :
      (cc t : ℕ) (rest : List ℕ)
      → length rest ≡ 183
      → parse_payload q cc (t ∷ rest) t ≡ payload_reference cc t rest
  unfolding parse_payload parse_data
  parse_payload-reference cc t rest l =
      rw
        (
          slice?_fits 1 12 (t ∷ rest) (omega (arith, l)),
          slice?_fits 13 4 (t ∷ rest) (omega (arith, l)),
          slice?_fits 17 167 (t ∷ rest) (omega (arith, l)),
        )
        refl

  tei_test : (b : Bool) (n : ℕ) → n < 256 → bit b ≡ n / 128 → b ≡ leb 128 n
  tei_test b n h e = ground arith

  parse_body-reference :
      (b : HeaderBytes) (t pid : ℕ) (rest : List ℕ)
      → IsBytes b
      → length rest ≡ 183
      → parse_body q (b.b0 ∷ b.b1 ∷ b.b2 ∷ b.b3 ∷ t ∷ rest) pid (read_fields b) ≡ (
          if leb 128 b.b1
          then err transport_error
          else if not (b.b1 % 32 * 256 + b.b2 == pid)
          then err (wrong_pid (b.b1 % 32 * 256 + b.b2) pid)
          else payload_reference (b.b3 % 16) t rest)
  unfolding parse_body
  parse_body-reference b t pid rest bytes l =
      let r = read_fields-Reads b bytes in
      rw
        (
          tei_test (read_fields b).tei b.b1 bytes.b1_fits r.tei_bit,
          r.pid_bits,
          r.counter_bits,
          parse_payload-reference (b.b3 % 16) t rest l,
        )
        refl

  parse_packet-long :
      (b : HeaderBytes) (t pid : ℕ) (rest : List ℕ)
      → IsBytes b
      → length rest ≡ 183
      → parse_packet q (b.b0 ∷ b.b1 ∷ b.b2 ∷ b.b3 ∷ t ∷ rest) pid
        ≡ packet_reference (b.b0 ∷ b.b1 ∷ b.b2 ∷ b.b3 ∷ t ∷ rest) pid
  unfolding parse_packet to_header parse
  parse_packet-long b t pid rest bytes l =
      let hdr = b.b0 ∷ b.b1 ∷ b.b2 ∷ b.b3 ∷ [] in
      elim (Bool-cases (b.b0 == 0x47)) [
        | inl sync ↦
            rw (l, slice?-append 0 4 [] hdr (t ∷ rest) refl refl, sync)
              (parse_body-reference b t pid rest bytes l)
        | inr bad ↦ rw (l, slice?-append 0 4 [] hdr (t ∷ rest) refl refl, bad) refl
      ]

  parse_packet-short :
      (bytes : List ℕ) (pid : ℕ)
      → length bytes ≢ 188
      → parse_packet q bytes pid ≡ err (wrong_length (length bytes))
  unfolding parse_packet
  parse_packet-short bytes pid h = ground arith

  -- On every string of bytes `parse_packet` is the reference: it answers by length, sync byte,
  -- error bit, PID and frame type, tested in this order, and so never panics.
  pub parse_packet-reference :
      (bytes : List ℕ) (pid : ℕ)
      → AllBytes bytes
      → parse_packet q bytes pid ≡ packet_reference bytes pid
  parse_packet-reference (b0 ∷ b1 ∷ b2 ∷ b3 ∷ t ∷ rest) pid h =
      elim (Bool-cases (length rest == 183)) [
        | inl fits ↦
            parse_packet-long (record { b0 = b0; b1 = b1; b2 = b2; b3 = b3 }) t pid rest
              (record { b0_fits = h.0; b1_fits = h.1.0; b2_fits = h.1.1.0; b3_fits = h.1.1.1.0 })
              ((==_iff (length rest) 183).0 fits)
        | inr short ↦ rw short (
            parse_packet-short (b0 ∷ b1 ∷ b2 ∷ b3 ∷ t ∷ rest) pid (λ e. ground arith)
            ∙ ap err (ap wrong_length (omega arith)))
      ]
  parse_packet-reference bytes pid h = parse_packet-short bytes pid (λ e. omega arith)

  -- What a parse can return: an error, stuffing, or data whose symbol has the wire's size.
  pub data Returned (r : Outcome ParseError (ParsedFrame Oti PayloadId)) : Type 0 where
    refused : (e : ParseError) → r ≡ err e → Returned r
    stuffing : (cc : ℕ) → r ≡ ok (noop_frame cc) → Returned r
    carried :
        (cc : ℕ) (oti : Oti) (id : PayloadId) (s : List ℕ)
        → r ≡ ok (data_frame cc oti id s)
        → length s ≡ 167
        → Returned r

  payload_reference-Returned :
      (cc t : ℕ) (rest : List ℕ) → length rest ≡ 183 → Returned (payload_reference cc t rest)
  payload_reference-Returned cc t rest l = elim (Bool-cases (t == 2)) [
    | inl noop ↦ rw noop (stuffing cc refl)
    | inr other ↦ elim (Bool-cases (t == 1)) [
      | inl carries ↦
          let size : length (take 167 (drop 16 rest)) ≡ 167 =
            omega (arith, length-take 167 (drop 16 rest), length-drop 16 rest) in
          rw (other, carries) (carried cc _ _ _ refl size)
      | inr unknown ↦ rw (other, unknown) (refused (unknown_frame_type t) refl)
    ]
  ]

  checked-Returned :
      (b : Bool) (e : ParseError) (r : Outcome ParseError (ParsedFrame Oti PayloadId))
      → Returned r
      → Returned (if b then err e else r)
  checked-Returned true e r h = refused e refl
  checked-Returned false e r h = h

  packet_reference-Returned : (bytes : List ℕ) (pid : ℕ) → Returned (packet_reference bytes pid)
  packet_reference-Returned (b0 ∷ b1 ∷ b2 ∷ b3 ∷ t ∷ rest) pid =
      elim (Bool-cases (length rest == 183)) [
        | inl fits ↦ rw fits (
            checked-Returned _ bad_sync _ (
              checked-Returned _ transport_error _ (
                checked-Returned _ (wrong_pid _ pid) _ (
                  payload_reference-Returned (b3 % 16) t rest
                    ((==_iff (length rest) 183).0 fits)))))
        | inr short ↦ rw short (refused _ refl)
      ]
  packet_reference-Returned bytes pid = refused _ refl

  -- On every string of bytes `parse_packet` returns an error, stuffing, or data with a symbol of
  -- 167 bytes; it never panics.
  pub parse_packet-Returned :
      (bytes : List ℕ) (pid : ℕ) → AllBytes bytes → Returned (parse_packet q bytes pid)
  parse_packet-Returned bytes pid h =
      subst Returned (sym (parse_packet-reference bytes pid h))
        (packet_reference-Returned bytes pid)
