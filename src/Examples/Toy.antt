-- ===== src/Examples/Toy.antt =====
-- A stand-in for the `raptorq` crate, for the examples: blocks are decoded when their source
-- symbols arrive in order, and a repair symbol is all zeros.
use live_video.Prelude.{
  ℕ, zero, suc, ◌+◌, ◌*◌, ◌/◌, ◌%◌, ◌≡◌, Bool, true, ◌&&◌, Bool-cases, inl, inr, List, [], ◌∷◌,
  ◌++◌, Option, none, some, ltb, ◌==◌, if◌then◌else◌, length, take, drop, replicate, arith,
}
use live_video.RaptorQ.{RaptorQ}
use live_video.Wire.Frame.Soundness.{AllBytes}

-- The twelve bytes of an OTI, by the block size and the symbol size, each below 2^16.
abbrev pub oti_bytes : ℕ → ℕ → List ℕ
oti_bytes size symbol =
    0
    ∷ 0
    ∷ 0
    ∷ (size / 256 % 256)
    ∷ (size % 256)
    ∷ 0
    ∷ (symbol / 256 % 256)
    ∷ (symbol % 256)
    ∷ 1
    ∷ 0
    ∷ 1
    ∷ 1
    ∷ []

abbrev size_of : List ℕ → ℕ
size_of (a ∷ b ∷ c ∷ d ∷ e ∷ rest) = d * 256 + e
size_of bytes = 0

abbrev symbol_of : List ℕ → ℕ
symbol_of (a ∷ b ∷ c ∷ d ∷ e ∷ f ∷ g ∷ h ∷ rest) = g * 256 + h
symbol_of bytes = 0

abbrev id_of : List ℕ → ℕ × ℕ
id_of (a ∷ b ∷ c ∷ d ∷ []) = (a, (b * 256 + c) * 256 + d)
id_of bytes = (0, 0)

-- The source packets of a block of `n` symbols, from the symbol `i` on.
abbrev pub sources : ℕ → ℕ → ℕ → List ℕ → List ((ℕ × ℕ) × List ℕ)
sources sbn zero i bytes = []
sources sbn (suc n) i bytes = ((sbn, i), take 167 bytes) ∷ sources sbn n (suc i) (drop 167 bytes)

abbrev pub repairs : ℕ → ℕ → ℕ → List ((ℕ × ℕ) × List ℕ)
repairs sbn zero i = []
repairs sbn (suc n) i = ((sbn, i), replicate 167 0) ∷ repairs sbn n (suc i)

-- A decoder holds the number of symbols and the ones that came in order.
abbrev toy_decode : ℕ × List ℕ → (ℕ × ℕ) × List ℕ → (ℕ × List ℕ) × Option (List ℕ)
toy_decode (k, joined) ((sbn, esi), symbol) =
    if esi * 167 == length joined
    then ((k, joined ++ symbol), (if k == suc esi then some (joined ++ symbol) else none))
    else ((k, joined), none)

abbrev pub toy : RaptorQ
toy = record {
  Oti = List ℕ;
  new_oti = λ size symbol blocks sub align. oti_bytes size symbol;
  serialize_oti = λ bytes. bytes;
  deserialize_oti = λ bytes. bytes;
  transfer_length = size_of;
  symbol_size = symbol_of;
  PayloadId = ℕ × ℕ;
  serialize_id = λ i. i.0 % 256 ∷ (i.1 / 65536 % 256) ∷ (i.1 / 256 % 256) ∷ (i.1 % 256) ∷ [];
  deserialize_id = id_of;
  source_block_number = λ i. i.0 % 256;
  encoding_symbol_id = λ i. i.1;
  Packet = (ℕ × ℕ) × List ℕ;
  new_packet = λ i s. (i, s);
  payload_id = λ p. p.0;
  symbol = λ p. p.1;
  BlockEncoder = ℕ × List ℕ;
  new_encoder = λ sbn oti bytes. (sbn, bytes);
  source_packets = λ e. sources e.0 (length e.1 / 167) 0 e.1;
  repair_packets = λ e start n. repairs e.0 n (length e.1 / 167 + start);
  BlockDecoder = ℕ × List ℕ;
  new_decoder = λ sbn oti size. (size / 167, []);
  decode = toy_decode;
}

-- Strings of bytes, decided.
abbrev pub all_bytes : List ℕ → Bool
all_bytes [] = true
all_bytes (x ∷ xs) = ltb x 256 && all_bytes xs

pub all_bytes_sound : (xs : List ℕ) → all_bytes xs ≡ true → AllBytes xs
all_bytes_sound [] h = tt
all_bytes_sound (x ∷ xs) h = elim (Bool-cases (ltb x 256)) [
  | inl fits ↦ (ground arith, all_bytes_sound xs (ground (arith, fits)))
  | inr wide ↦ absurd (ground (arith, wide))
]

-- The OTI of one block of one symbol, a block, and its packet.
abbrev pub small_oti : List ℕ
small_oti = oti_bytes 167 167

abbrev pub small_block : List ℕ
small_block = replicate 167 7

abbrev pub small_packet : ℕ → (ℕ × ℕ) × List ℕ
small_packet sbn = ((sbn, 0), small_block)
