-- ===== src/Dec/Block/BestEffort.antt =====
-- `best_effort` of raptorq/dec/src/main.rs against the block put together symbol by symbol.
use mathlib.Core.List.{append_assoc}
use native.Mathlib.Nat.{zero-add, add-zero, suc-add}
use live_video.Prelude.{
  ℕ, zero, suc, ◌+◌, ◌*◌, ◌≤◌, ◌<◌, ◌≡◌, refl, ap, ap₂, ◌∙◌, List, [], ◌∷◌, ◌++◌, none, some, ◌==◌,
  if◌then◌else◌, arith, length, replicate, length-append, length-replicate, replicate-add, inl, inr,
  Bool-cases, leb, drop-append, ==_iff, true, subst, ◌-◌,
}
use native.Mathlib.Decide.{dec_lt}
use live_video.Prelude.Slices.{write_at, write_at-append}
use live_video.Maps.{get}
use live_video.Dec.Block.{BlockState, place_symbol, place_symbols, best_effort}

-- The symbols number `i`, ..., `i + n - 1`, one after the other.
unfoldable pub assemble : (ℕ → List ℕ) → ℕ → ℕ → List ℕ
assemble f i zero = []
assemble f i (suc n) = f i ++ assemble f (suc i) n

-- One symbol of zeros.
unfoldable pub zero_symbol : List ℕ
zero_symbol = replicate 167 0

length-zero_symbol : length zero_symbol ≡ 167
unfolding zero_symbol
length-zero_symbol = length-replicate {A = ℕ} 167 0

-- The stored symbol, or zeros where it is missing.
abbrev pub symbol_or : (ℕ → List ℕ) → List (ℕ × List ℕ) → ℕ → List ℕ
symbol_or f symbols i = elim (get i symbols) [ some s ↦ s | none ↦ f i ]

abbrev put : (ℕ → List ℕ) → ℕ → List ℕ → ℕ → List ℕ
put f k s i = if k == i then s else f i

assemble_ext :
    (f g : ℕ → List ℕ) (i n : ℕ)
    → ((j : ℕ) → i ≤ j → j < i + n → f j ≡ g j)
    → assemble f i n ≡ assemble g i n
unfolding assemble
assemble_ext f g i zero h = refl
assemble_ext f g i (suc n) h =
    ap₂ ◌++◌ (h i (omega arith) (omega arith))
      (assemble_ext f g (suc i) n (λ j lo hi. h j (omega arith) (omega arith)))

abbrev IsSymbol : (ℕ → List ℕ) → Type 0
IsSymbol f = (i : ℕ) → length (f i) ≡ 167

length-assemble : (f : ℕ → List ℕ) → IsSymbol f → (i n : ℕ) → length (assemble f i n) ≡ n * 167
unfolding assemble
length-assemble f h i zero = omega arith
length-assemble f h i (suc n) =
    omega (arith, length-append (f i) (assemble f (suc i) n), h i, length-assemble f h (suc i) n)

assemble-add :
    (f : ℕ → List ℕ) (i m n : ℕ) → assemble f i (m + n) ≡ assemble f i m ++ assemble f (i + m) n
unfolding assemble
assemble-add f i zero n = rw (zero-add, add-zero)
assemble-add f i (suc m) n =
    let shift : suc i + m ≡ i + suc m = omega arith in
    rw (suc-add, append_assoc, ← shift) (ap (◌++◌ (f i)) (assemble-add f (suc i) m n))

-- Zeros are an assembly of zero symbols.
replicate-assemble : (i n : ℕ) → replicate (n * 167) 0 ≡ assemble (λ _. zero_symbol) i n
unfolding assemble zero_symbol
replicate-assemble i zero = refl
replicate-assemble i (suc n) =
    let size : suc n * 167 ≡ 167 + n * 167 = omega arith in
    rw size (
      replicate-add {A = ℕ} 167 (n * 167) 0
      ∙ ap (◌++◌ (replicate 167 0)) (replicate-assemble (suc i) n))

-- A block split around its symbol number `k`.
assemble_split :
    (f : ℕ → List ℕ) (k r : ℕ)
    → assemble f 0 (k + suc r) ≡ assemble f 0 k ++ (f k ++ assemble f (suc k) r)
assemble_split f k r =
    assemble-add f 0 k (suc r)
    ∙ ap (λ j. assemble f 0 k ++ assemble f j (suc r)) (zero-add k)
    ∙ unfold assemble in refl

-- Writing one symbol into an assembled block.
write_at-assemble :
    (f : ℕ → List ℕ) (k r : ℕ) (s : List ℕ)
    → IsSymbol f
    → length s ≡ 167
    → write_at (k * 167) 167 (assemble f 0 (k + suc r)) s
      ≡ some (assemble (put f k s) 0 (k + suc r))
write_at-assemble f k r s hf hs =
    let before : assemble f 0 k ≡ assemble (put f k s) 0 k =
      assemble_ext f (put f k s) 0 k (λ j lo hi. ground arith) in
    let behind : assemble f (suc k) r ≡ assemble (put f k s) (suc k) r =
      assemble_ext f (put f k s) (suc k) r (λ j lo hi. ground arith) in
    let here : put f k s k ≡ s = ground arith in
    rw
      (
        assemble_split f k r,
        assemble_split (put f k s) k r,
        write_at-append (k * 167) 167 (assemble f 0 k) (f k ++ assemble f (suc k) r) s
            (length-assemble f hf 0 k) hs
            (omega (arith, length-append (f k) (assemble f (suc k) r), hf k)),
        drop-append 167 (f k) (assemble f (suc k) r) (hf k),
        here,
        append_assoc,
        before,
        behind,
      )
      refl

-- No key occurs twice.
abbrev pub Distinct : List (ℕ × List ℕ) → Type 0
Distinct [] = Unit {0}
Distinct ((k, s) ∷ m) = (get k m ≡ none) × Distinct m

-- Every stored symbol has the size of a symbol.
abbrev pub AllSymbols : List (ℕ × List ℕ) → Type 0
AllSymbols [] = Unit {0}
AllSymbols ((k, s) ∷ m) = (length s ≡ 167) × AllSymbols m

abbrev zeros : ℕ → List ℕ
zeros i = zero_symbol

put-IsSymbol :
    (f : ℕ → List ℕ) (k : ℕ) (s : List ℕ) → IsSymbol f → length s ≡ 167 → IsSymbol (put f k s)
put-IsSymbol f k s hf hs i = ground (arith, hf i)

symbol_or-put :
    (f : ℕ → List ℕ) (k i : ℕ) (s : List ℕ) (m : List (ℕ × List ℕ))
    → get k m ≡ none
    → symbol_or (put f k s) m i ≡ symbol_or f ((k, s) ∷ m) i
unfolding get
symbol_or-put f k i s m h = elim (Bool-cases (k == i)) [
  | inl here ↦
      let same : k ≡ i = (==_iff k i).0 here in
      let missing : get i m ≡ none = subst (λ j. get j m ≡ none) same h in ground (arith, missing)
  | inr there ↦ ground arith
]

symbol_or-skip :
    (f : ℕ → List ℕ) (k i : ℕ) (s : List ℕ) (m : List (ℕ × List ℕ))
    → i < k
    → symbol_or f m i ≡ symbol_or f ((k, s) ∷ m) i
unfolding get
symbol_or-skip f k i s m h = ground arith

place_symbol_in :
    (f : ℕ → List ℕ) (n k : ℕ) (s : List ℕ)
    → IsSymbol f
    → length s ≡ 167
    → k < n
    → place_symbol (n * 167) k s (assemble f 0 n) ≡ some (assemble (put f k s) 0 n)
unfolding place_symbol
place_symbol_in f n k s hf hs h =
    let bounds : leb (k * 167 + 167) (n * 167) ≡ true = ground arith in
    let size : k + suc (n - suc k) ≡ n = omega arith in
    rw bounds (
      subst (λ j. write_at (k * 167) 167 (assemble f 0 j) s ≡ some (assemble (put f k s) 0 j)) size
        (write_at-assemble f k (n - suc k) s hf hs))

place_symbol_out : (n k : ℕ) (s out : List ℕ) → n ≤ k → place_symbol (n * 167) k s out ≡ some out
unfolding place_symbol
place_symbol_out n k s out h = ground arith

place_symbols-assemble :
    (f : ℕ → List ℕ) (n : ℕ) (m : List (ℕ × List ℕ))
    → IsSymbol f
    → AllSymbols m
    → Distinct m
    → place_symbols (n * 167) m (assemble f 0 n) ≡ some (assemble (symbol_or f m) 0 n)
unfolding place_symbols get
place_symbols-assemble f n [] hf hm hd = refl
place_symbols-assemble f n ((k, s) ∷ m) hf hm hd = elim (dec_lt k n) [
  | yes fits ↦ rw (place_symbol_in f n k s hf hm.0 fits) (
      place_symbols-assemble (put f k s) n m (put-IsSymbol f k s hf hm.0) hm.1 hd.1
      ∙ ap some (assemble_ext _ _ 0 n (λ j lo hi. symbol_or-put f k j s m hd.0)))
  | no out ↦ rw (place_symbol_out n k s (assemble f 0 n) (omega arith)) (
      place_symbols-assemble f n m hf hm.1 hd.1
      ∙ ap some (assemble_ext _ _ 0 n (λ j lo hi. symbol_or-skip f k j s m (omega arith))))
]

-- For a block of `n` symbols whose stored symbols have 167 bytes and distinct numbers, a best-
-- effort emission does not panic: it is the stored symbols at their places, with zeros for those
-- that are missing, whatever the order in which the map lists its entries.
pub best_effort_lem :
    {D : Type 0} (b : BlockState D) (n : ℕ)
    → b.block_size ≡ n * 167
    → AllSymbols b.source_symbols
    → Distinct b.source_symbols
    → best_effort b ≡ some (assemble (symbol_or (λ _. zero_symbol) b.source_symbols) 0 n)
unfolding best_effort
best_effort_lem b n size symbols distinct =
    rw (size, replicate-assemble 0 n)
      (place_symbols-assemble zeros n b.source_symbols (λ i. length-zero_symbol) symbols distinct)
