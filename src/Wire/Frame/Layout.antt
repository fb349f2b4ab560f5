-- ===== src/Wire/Frame/Layout.antt =====
-- The bytes of the packets that raptorq/common/src/lib.rs builds.
use mathlib.Core.List.{append_assoc, append-nil}
use live_video.Prelude.{
  ℕ, ◌≡◌, refl, List, [], ◌∷◌, ◌++◌, some, arith, length, drop, replicate, length-append,
  length-drop, length-replicate, length-eq-zero,
}
use live_video.Prelude.Slices.{write_at-append, write_byte-append}
use live_video.RaptorQ.{RaptorQ}
use live_video.Wire.Header.{write, to_list}
use live_video.Wire.Frame.Build.{packet_header, build_noop_packet, build_data_packet}

abbrev pub header_list : ℕ → ℕ → List ℕ
header_list pid cc = to_list (write (packet_header pid cc))

-- A stuffing packet: header, frame type, and bytes of 0xff.
pub noop_bytes : ℕ → ℕ → List ℕ
noop_bytes pid cc = header_list pid cc ++ (2 ∷ replicate 183 0xff)

pub noop_bytes-cons :
    (pid cc : ℕ)
    → (rest : List ℕ) × (noop_bytes pid cc ≡ header_list pid cc ++ (2 ∷ rest)) × (length rest ≡ 183)
unfolding noop_bytes
noop_bytes-cons pid cc = (replicate 183 0xff, refl, length-replicate {A = ℕ} 183 0xff)

pub build_noop_packet_lem :
    (pid cc : ℕ) (out : List ℕ)
    → length out ≡ 188
    → build_noop_packet pid cc out ≡ some (noop_bytes pid cc)
unfolding build_noop_packet noop_bytes
build_noop_packet_lem pid cc out h =
    let front = header_list pid cc ++ (2 ∷ []) in
    let rest = drop 1 (drop 4 out) in
    let rest_length : length rest ≡ 183 =
      omega (arith, length-drop 1 (drop 4 out), length-drop 4 out) in
    rw
      (
        write_at-append 0 4 [] out (header_list pid cc) refl refl (omega arith),
        write_byte-append 4 (header_list pid cc) (drop 4 out) 2 refl
            (omega (arith, length-drop 4 out)),
        rest_length,
      )
      refl

module _ (q : RaptorQ) where
  open q use {Oti, Packet, serialize_oti, serialize_id, payload_id, symbol}

  -- A data packet: header, frame type, OTI, payload id and symbol.
  abbrev pub data_bytes : ℕ → ℕ → Oti → Packet → List ℕ
  data_bytes pid cc oti pkt =
      header_list pid cc
      ++ (1 ∷ (serialize_oti oti ++ (serialize_id (payload_id pkt) ++ symbol pkt)))

  -- The sizes that the crate's types promise.
  pub record Fits (oti : Oti) (pkt : Packet) : Type 0 where
    pub oti_length : length (serialize_oti oti) ≡ 12
    pub id_length : length (serialize_id (payload_id pkt)) ≡ 4
    pub symbol_length : length (symbol pkt) ≡ 167

  pub build_data_packet_lem :
      (pid cc : ℕ) (oti : Oti) (pkt : Packet) (out : List ℕ)
      → Fits oti pkt
      → length out ≡ 188
      → build_data_packet q pid cc oti pkt out ≡ some (data_bytes pid cc oti pkt)
  unfolding build_data_packet
  build_data_packet_lem pid cc oti pkt out f h =
      let hdr = header_list pid cc in
      let o = serialize_oti oti in
      let i = serialize_id (payload_id pkt) in
      let r4 = drop 4 out in
      let r5 = drop 1 r4 in
      let r17 = drop 12 r5 in
      let r21 = drop 4 r17 in
      let l4 : length r4 ≡ 184 = omega (arith, length-drop 4 out) in
      let l5 : length r5 ≡ 183 = omega (arith, length-drop 1 r4) in
      let l17 : length r17 ≡ 171 = omega (arith, length-drop 12 r5) in
      let l21 : length r21 ≡ 167 = omega (arith, length-drop 4 r17) in
      rw
        (
          write_at-append 0 4 [] out hdr refl refl (omega arith),
          write_byte-append 4 hdr r4 1 refl (omega arith),
          write_at-append 5 12 (hdr ++ (1 ∷ [])) r5 o refl f.oti_length (omega arith),
          write_at-append 17 4 ((hdr ++ (1 ∷ [])) ++ o) r17 i (omega (arith, f.oti_length))
              f.id_length (omega arith),
          write_at-append 21 167 (((hdr ++ (1 ∷ [])) ++ o) ++ i) r21 (symbol pkt)
              (omega (arith, f.oti_length, f.id_length, length-append o i)) f.symbol_length
              (omega arith),
          length-eq-zero (drop 167 r21) (omega (arith, length-drop 167 r21)),
        )
        (simp (append-nil, append_assoc))
