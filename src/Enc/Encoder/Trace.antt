-- ===== src/Enc/Encoder/Trace.antt =====
-- What `encoder_thread` of raptorq/enc/src/main.rs may send.
use live_video.Prelude.{
  ℕ, zero, suc, ◌+◌, ◌≤◌, ◌<◌, ◌≡◌, ◌≢◌, refl, ap, List, [], ◌∷◌, ◌++◌, none, some, length,
  get_elem?, u8, arith,
}
use live_video.RaptorQ.{RaptorQ}
use live_video.Enc.Encoder.{EncoderArgs, block_packets, pop}

-- `xs[i] = x`
abbrev pub set {ℓ} : {A : Type ℓ} → List A → ℕ → A → List A
set [] i x = []
set (y ∷ ys) zero x = x ∷ ys
set (y ∷ ys) (suc i) x = y ∷ set ys i x

module _ {A : Type 0} where
  pub get_elem?_lt : (xs : List A) (i : ℕ) (a : A) → get_elem? xs i ≡ some a → i < length xs
  get_elem?_lt [] i a h = cc
  get_elem?_lt (x ∷ xs) zero a h = omega arith
  get_elem?_lt (x ∷ xs) (suc i) a h = omega (arith, get_elem?_lt xs i a h)

  pub get_elem?-append :
      (xs ys : List A) (i : ℕ) (a : A) → get_elem? xs i ≡ some a → get_elem? (xs ++ ys) i ≡ some a
  get_elem?-append [] ys i a h = cc
  get_elem?-append (x ∷ xs) ys zero a h = h
  get_elem?-append (x ∷ xs) ys (suc i) a h = get_elem?-append xs ys i a h

  pub get_elem?-end :
      (xs : List A) (a : A) (n : ℕ) → n ≡ length xs → get_elem? (xs ++ (a ∷ [])) n ≡ some a
  get_elem?-end [] a zero h = refl
  get_elem?-end [] a (suc n) h = absurd (omega arith)
  get_elem?-end (x ∷ xs) a zero h = absurd (omega arith)
  get_elem?-end (x ∷ xs) a (suc n) h = get_elem?-end xs a n (omega arith)

  pub length-set : (xs : List A) (i : ℕ) (a : A) → length (set xs i a) ≡ length xs
  length-set [] i a = refl
  length-set (x ∷ xs) zero a = refl
  length-set (x ∷ xs) (suc i) a = ap suc (length-set xs i a)

  pub get_elem?-set :
      (xs : List A) (i : ℕ) (a b : A) → get_elem? xs i ≡ some b → get_elem? (set xs i a) i ≡ some a
  get_elem?-set [] i a b h = cc
  get_elem?-set (x ∷ xs) zero a b h = refl
  get_elem?-set (x ∷ xs) (suc i) a b h = get_elem?-set xs i a b h

  pub get_elem?-set-ne :
      (xs : List A) (i j : ℕ) (a : A) → i ≢ j → get_elem? (set xs i a) j ≡ get_elem? xs j
  get_elem?-set-ne [] i j a h = refl
  get_elem?-set-ne (x ∷ xs) zero zero a h = absurd (h refl)
  get_elem?-set-ne (x ∷ xs) zero (suc j) a h = refl
  get_elem?-set-ne (x ∷ xs) (suc i) zero a h = refl
  get_elem?-set-ne (x ∷ xs) (suc i) (suc j) a h = get_elem?-set-ne xs i j a (λ e. h (ap suc e))

module _ (q : RaptorQ) where
  open q use {Oti, Packet, BlockEncoder, new_encoder, repair_packets}

  -- The encoder of the block with index `n` among all blocks.
  abbrev pub encoder_of : EncoderArgs Oti → ℕ → List ℕ → BlockEncoder
  encoder_of a n b = new_encoder (u8 n) a.oti b

  -- What may have been sent for the blocks `bs`, where `ids` has the next unused repair number
  -- of each block: a block's own packets come in the order of the blocks, and a further repair
  -- packet of one of the last 64 blocks has that block's next number, which is below the ceiling.
  pub data IsTrace (a : EncoderArgs Oti) : List (List ℕ) → List ℕ → List Packet → Type 0 where
    trace_start : IsTrace a [] [] []
    trace_block :
        (bs : List (List ℕ)) (ids : List ℕ) (out : List Packet) (b : List ℕ)
        → IsTrace a bs ids out
        → IsTrace a
            (bs ++ (b ∷ []))
            (ids ++ (a.baseline_repair ∷ []))
            (out ++ block_packets q a (encoder_of a (length bs) b))
    trace_extra :
        (bs : List (List ℕ)) (ids : List ℕ) (out : List Packet) (n id : ℕ) (b : List ℕ) (p : Packet)
        → get_elem? bs n ≡ some b
        → get_elem? ids n ≡ some id
        → length bs ≤ n + 64
        → id < a.max_repair
        → pop (repair_packets (encoder_of a n b) id 1) ≡ some p
        → IsTrace a bs ids out
        → IsTrace a bs (set ids n (suc id)) (out ++ (p ∷ []))
    -- The number is used up although the crate gave no packet.
    trace_missing :
        (bs : List (List ℕ)) (ids : List ℕ) (out : List Packet) (n id : ℕ) (b : List ℕ)
        → get_elem? bs n ≡ some b
        → get_elem? ids n ≡ some id
        → id < a.max_repair
        → pop (repair_packets (encoder_of a n b) id 1) ≡ none
        → IsTrace a bs ids out
        → IsTrace a bs (set ids n (suc id)) out

  -- What is sent of a block when the channel closes.
  pub data IsPart (a : EncoderArgs Oti) (bs : List (List ℕ)) : List Packet → Type 0 where
    no_part : IsPart a bs []
    part_of_block :
        (b : List ℕ) (part rest : List Packet)
        → part ++ rest ≡ block_packets q a (encoder_of a (length bs) b)
        → IsPart a bs part
