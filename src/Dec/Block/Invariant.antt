-- ===== src/Dec/Block/Invariant.antt =====
-- What holds of every `BlockState` of raptorq/dec/src/main.rs, from `new` through each `ingest`.
use live_video.Prelude.{
  ℕ, ◌*◌, ◌/◌, ◌≤◌, ◌<◌, ◌≡◌, refl, sym, List, [], ◌∷◌, none, some, is_some, arith, length, true,
  false, ◌==◌, if◌then◌else◌, u32,
}
use live_video.Maps.{get, or_insert}
use live_video.RaptorQ.{RaptorQ}
use live_video.Dec.Oti.{oti_is_sane, oti_is_sane_iff}
use live_video.Dec.Block.{BlockState, fresh_block, new_block, record_symbol, ingest}
use live_video.Dec.Block.BestEffort.{Distinct, AllSymbols}

-- Stored symbols have numbers below `k`.
abbrev pub KeysBelow : ℕ → List (ℕ × List ℕ) → Type 0
KeysBelow n [] = Unit {0}
KeysBelow n ((k, s) ∷ m) = (k < n) × KeysBelow n m

-- A block is `k` symbols long, at least one, and its stored symbols are some of these, each of
-- the size of a symbol and stored once.
pub record IsBlock {D : Type 0} (b : BlockState D) : Type 0 where
  pub size : b.block_size ≡ b.k * 167
  pub nonempty : 1 ≤ b.k
  pub sized : AllSymbols b.source_symbols
  pub distinct : Distinct b.source_symbols
  pub source : KeysBelow b.k b.source_symbols

get-or_insert :
    (k j : ℕ) (s : List ℕ) (m : List (ℕ × List ℕ))
    → get j (or_insert k s m)
      ≡ (if is_some (get j m) then get j m else if k == j then some s else none)
unfolding get or_insert
get-or_insert k j s [] = refl
get-or_insert k j s ((i, t) ∷ m) = ground (arith, get-or_insert k j s m)

or_insert-Distinct :
    (k : ℕ) (s : List ℕ) (m : List (ℕ × List ℕ)) → Distinct m → Distinct (or_insert k s m)
unfolding or_insert get
or_insert-Distinct k s [] h = (refl, tt)
or_insert-Distinct k s ((i, t) ∷ m) h =
    ground (arith, get-or_insert k i s m, or_insert-Distinct k s m h.1)

or_insert-AllSymbols :
    (k : ℕ) (s : List ℕ) (m : List (ℕ × List ℕ))
    → length s ≡ 167
    → AllSymbols m
    → AllSymbols (or_insert k s m)
unfolding or_insert
or_insert-AllSymbols k s [] l h = (l, tt)
or_insert-AllSymbols k s ((i, t) ∷ m) l h = ground (arith, or_insert-AllSymbols k s m l h.1)

or_insert-KeysBelow :
    (n k : ℕ) (s : List ℕ) (m : List (ℕ × List ℕ))
    → k < n
    → KeysBelow n m
    → KeysBelow n (or_insert k s m)
unfolding or_insert
or_insert-KeysBelow n k s [] l h = (l, tt)
or_insert-KeysBelow n k s ((i, t) ∷ m) l h = ground (arith, or_insert-KeysBelow n k s m l h.1)

module _ (q : RaptorQ) where
  open q use {
    Oti, Packet, BlockDecoder, transfer_length, payload_id, encoding_symbol_id, symbol, decode,
  }

  -- A sane OTI starts a block without a division by zero, and the block is well-formed.
  pub new_block-IsBlock :
      (sbn : ℕ) (oti : Oti) (now : ℕ)
      → oti_is_sane q oti ≡ true
      → (b : BlockState BlockDecoder) × (new_block q sbn oti now ≡ some b) × IsBlock b
  unfolding new_block fresh_block
  new_block-IsBlock sbn oti now h =
      let (size, whole) = (oti_is_sane_iff q oti).0 h in
      let (n, length_eq, lo, hi) = whole in
      let nonzero : (q.symbol_size oti == 0) ≡ false = ground arith in
      let k_eq : u32 (transfer_length oti / q.symbol_size oti) * 167 ≡ transfer_length oti =
        rw size (omega arith) in
      let k_pos : 1 ≤ u32 (transfer_length oti / q.symbol_size oti) = omega (arith, k_eq) in
      (
        fresh_block q sbn oti now,
        rw nonzero refl,
        record { size = sym k_eq; nonempty = k_pos; sized = tt; distinct = tt; source = tt },
      )

  record_symbol-IsBlock :
      (b : BlockState BlockDecoder) (p : Packet)
      → length (symbol p) ≡ 167
      → IsBlock b
      → IsBlock (record_symbol q b p)
  unfolding record_symbol
  record_symbol-IsBlock b p l v =
      let esi = encoding_symbol_id (payload_id p) in
      ground (
        arith,
        or_insert-AllSymbols esi (symbol p) b.source_symbols l v.sized,
        or_insert-Distinct esi (symbol p) b.source_symbols v.distinct,
        or_insert-KeysBelow b.k esi (symbol p) b.source_symbols,
      )

  -- A packet with a symbol of the wire's size keeps a block well-formed: its size is that of its
  -- symbols, and its stored symbols have distinct numbers below their count and the wire's size.
  pub ingest-IsBlock :
      (b : BlockState BlockDecoder) (p : Packet)
      → length (symbol p) ≡ 167
      → IsBlock b
      → IsBlock (ingest q b p)
  unfolding ingest
  ingest-IsBlock b p l v = ground (arith, record_symbol-IsBlock b p l v)
