-- ===== src/Enc/Reader/Blocks.antt =====
-- Which blocks `reader_thread` of raptorq/enc/src/main.rs sends, while the encoder takes them.
use mathlib.Core.List.{append_assoc, append-nil}
use live_video.Prelude.{
  ℕ, suc, ◌+◌, ◌-◌, ◌≤◌, ◌<◌, ◌≡◌, refl, sym, ◌∙◌, ap, ap₂, Bool, true, ◌&&◌, List, [], ◌∷◌, ◌++◌,
  ltb, leb, ◌==◌, Bool-cases, inl, inr, length, take, drop, min, concat, concat-append,
  length-append, length-take, length-drop, length-replicate, length-eq-zero, take-append, take_all,
  drop-append, take-append-drop, replicate, arith,
}
use live_video.Prelude.Slices.{write_at}
use live_video.Wire.Frame.Build.{fill_from}
use live_video.Dec.Reader.{Read, delivers, interrupted, failed}
use live_video.Dec.Reader.Ending.{AllDeliver}
use live_video.Enc.Reader.{
  BlockReader, Progress, running, closed, broken, start_reader, at_end, send_full, after_read,
  read_turn, reader_thread,
}

abbrev pub AllLength : ℕ → List (List ℕ) → Type 0
AllLength n [] = Unit {0}
AllLength n (b ∷ bs) = (length b ≡ n) × AllLength n bs

AllLength-append :
    (n : ℕ) (bs : List (List ℕ)) (b : List ℕ)
    → AllLength n bs
    → length b ≡ n
    → AllLength n (bs ++ (b ∷ []))
AllLength-append n [] b h e = (e, tt)
AllLength-append n (x ∷ bs) b h e = (h.0, AllLength-append n bs b h.1 e)

-- What has been sent, what is held and what is to come make up the input.
pub record IsReading (size : ℕ) (input : List ℕ) (r : BlockReader) : Type 0 where
  pub whole : length r.block ≡ size
  pub room : r.filled < size
  pub split : concat r.sent ++ (take r.filled r.block ++ r.stdin) ≡ input
  pub blocks : AllLength size r.sent

-- The blocks sent are the input, cut into pieces of the block size, with zeros at the end.
pub record IsCut (size : ℕ) (input : List ℕ) (r : BlockReader) : Type 0 where
  pub padding : ℕ
  pub short : padding < size
  pub joined : concat r.sent ≡ input ++ replicate padding 0
  pub blocks : AllLength size r.sent

always : ℕ → Bool
always n = true

at_end-IsCut :
    (size : ℕ) (input : List ℕ) (r : BlockReader)
    → r.stdin ≡ []
    → IsReading size input r
    → IsCut size input (at_end always r)
unfolding at_end fill_from always
at_end-IsCut size input r last w = elim (Bool-cases (ltb 0 r.filled)) [
  | inr nothing ↦
      let none_held : r.filled ≡ 0 = ground arith in
      let tail : take r.filled r.block ++ r.stdin ≡ [] =
        ap₂ ◌++◌ (ap (λ n. take n r.block) none_held) last in
      rw nothing (record {
        padding = 0;
        short = omega (arith, w.room);
        joined =
            sym (append-nil (concat r.sent))
            ∙ ap (concat r.sent ++◌) (sym tail)
            ∙ w.split
            ∙ sym (append-nil input);
        blocks = w.blocks;
      })
  | inl held ↦
      let some_held : 0 < r.filled = ground arith in
      let head : List ℕ = take r.filled r.block in
      let zeros : List ℕ = replicate (length r.block - r.filled) 0 in
      let tail : head ++ r.stdin ≡ head = ap (head ++◌) last ∙ append-nil head in
      rw held (record {
        padding = length r.block - r.filled;
        short = omega (arith, w.whole, w.room);
        joined =
            concat-append r.sent ((head ++ zeros) ∷ [])
            ∙ ap (concat r.sent ++◌) (append-nil (head ++ zeros))
            ∙ sym (append_assoc (concat r.sent) head zeros)
            ∙ ap (λ x. x ++ zeros) (ap (concat r.sent ++◌) (sym tail) ∙ w.split);
        blocks = AllLength-append size r.sent (head ++ zeros) w.blocks (
            omega (
              arith,
              w.whole,
              w.room,
              length-append head zeros,
              length-take r.filled r.block,
              length-replicate {A = ℕ} (length r.block - r.filled) 0,
            ));
      })
]

data TurnResult (size : ℕ) (input : List ℕ) (left : ℕ) : Progress → Type 0 where
  turn_ends : (r : BlockReader) → IsCut size input r → TurnResult size input left (closed r)
  turn_goes :
      (r : BlockReader)
      → IsReading size input r
      → length r.stdin < left
      → TurnResult size input left (running r)

send_full_lem :
    (size : ℕ) (input : List ℕ) (left : ℕ) (r : BlockReader)
    → 0 < size
    → length r.block ≡ size
    → r.filled ≤ size
    → concat r.sent ++ (take r.filled r.block ++ r.stdin) ≡ input
    → AllLength size r.sent
    → length r.stdin < left
    → TurnResult size input left (send_full always size r)
unfolding send_full always
send_full_lem size input left r pos whole room split blocks less =
    elim (Bool-cases (r.filled == size)) [
      | inr partial ↦ rw partial (
          turn_goes r
            (record { whole = whole; room = ground arith; split = split; blocks = blocks }) less)
      | inl full ↦
          let at : r.filled ≡ length r.block = ground arith in
          let held : take r.filled r.block ≡ r.block =
            ap (λ n. take n r.block) at ∙ take_all (length r.block) r.block refl in
          rw full (
            turn_goes _
              (record {
                whole = length-replicate {A = ℕ} size 0;
                room = pos;
                split =
                    ap (λ x. x ++ r.stdin)
                      (concat-append r.sent (r.block ∷ [])
                        ∙ ap (concat r.sent ++◌) (append-nil r.block ∙ sym held))
                    ∙ append_assoc (concat r.sent) (take r.filled r.block) r.stdin
                    ∙ split;
                blocks = AllLength-append size r.sent r.block blocks whole;
              })
              less)
    ]

after_read_lem :
    (size : ℕ) (input : List ℕ) (r : BlockReader) (bytes rest : List ℕ)
    → IsReading size input r
    → bytes ++ rest ≡ r.stdin
    → r.filled + length bytes ≤ size
    → ((bytes ≡ []) → r.stdin ≡ [])
    → TurnResult size input (length r.stdin) (after_read always size r bytes)
unfolding after_read write_at
after_read_lem size input r [] rest w split fits last =
    turn_ends _ (at_end-IsCut size input r (last refl) w)
after_read_lem size input r (b ∷ bs) rest w split fits last =
    let n : ℕ = suc (length bs) in
    let head : List ℕ = take r.filled r.block in
    let tail : List ℕ = drop (r.filled + n) r.block in
    let buf : List ℕ = head ++ ((b ∷ bs) ++ tail) in
    let head_len : length head ≡ r.filled = omega (arith, length-take r.filled r.block, w.whole) in
    let tail_len : length tail ≡ size - (r.filled + n) =
      omega (arith, length-drop (r.filled + n) r.block, w.whole) in
    let buf_len : length buf ≡ size = omega (
      arith,
      length-append head ((b ∷ bs) ++ tail),
      length-append (b ∷ bs) tail,
      head_len,
      tail_len,
    ) in
    let front : take (r.filled + n) buf ≡ head ++ (b ∷ bs) =
      ap (take (r.filled + n)) (sym (append_assoc head (b ∷ bs) tail))
      ∙ take-append (r.filled + n) (head ++ (b ∷ bs)) tail
          (omega (arith, length-append head (b ∷ bs), head_len)) in
    let ahead : drop n r.stdin ≡ rest =
      ap (drop n) (sym split) ∙ drop-append n (b ∷ bs) rest refl in
    let ok_write : (leb (r.filled + n) (length r.block) && (n == n)) ≡ true =
      ground (arith, w.whole) in
    let seen : concat r.sent ++ (take (r.filled + n) buf ++ drop n r.stdin) ≡ input =
      ap (concat r.sent ++◌)
        (ap₂ ◌++◌ front ahead ∙ append_assoc head (b ∷ bs) rest ∙ ap (head ++◌) split)
      ∙ w.split in
    rw (ok_write, after_read)
      (send_full_lem size input (length r.stdin)
        (record r { stdin = drop n r.stdin; block = buf; filled = r.filled + n })
        (omega (arith, w.room)) buf_len fits seen w.blocks
        (omega (arith, length-drop n r.stdin, ap length split, length-append (b ∷ bs) rest)))

-- Where the reader may stand while its sends succeed.
pub data ReadingResult (size : ℕ) (input : List ℕ) : Progress → Type 0 where
  still_reading : (r : BlockReader) → IsReading size input r → ReadingResult size input (running r)
  has_cut : (r : BlockReader) → IsCut size input r → ReadingResult size input (closed r)
  read_failed : (r : BlockReader) → AllLength size r.sent → ReadingResult size input (broken r)

pub start_reader-IsReading :
    (size : ℕ) (input : List ℕ) → 0 < size → IsReading size input (start_reader size input)
unfolding start_reader
start_reader-IsReading size input pos = record {
  whole = length-replicate {A = ℕ} size 0;
  room = pos;
  split = refl;
  blocks = tt;
}

delivers_lem :
    (size : ℕ) (input : List ℕ) (n : ℕ) (r : BlockReader)
    → IsReading size input r
    → TurnResult size input (length r.stdin) (read_turn always size (delivers n) r)
unfolding read_turn
delivers_lem size input n r w =
    let m : ℕ = min (suc n) (length r.block - r.filled) in
    after_read_lem size input r (take m r.stdin) (drop m r.stdin) w (take-append-drop m r.stdin)
      (omega (arith, length-take m r.stdin, w.whole, w.room))
      (λ e.
        length-eq-zero r.stdin (omega (arith, w.whole, w.room, length-take m r.stdin, ap length e)))

pub read_turn-ReadingResult :
    (size : ℕ) (input : List ℕ) (e : Read) (r : BlockReader)
    → IsReading size input r
    → ReadingResult size input (read_turn (λ n. true) size e r)
unfolding read_turn always
read_turn-ReadingResult size input (delivers n) r w = go _ (delivers_lem size input n r w)
  where
    go : (p : Progress) → TurnResult size input (length r.stdin) p → ReadingResult size input p
    go p (turn_ends end cut) = has_cut end cut
    go p (turn_goes r' w' less) = still_reading r' w'
read_turn-ReadingResult size input interrupted r w = still_reading r w
read_turn-ReadingResult size input failed r w = read_failed r w.blocks

run_lem :
    (size : ℕ) (input : List ℕ) (ts : List Read) (r : BlockReader)
    → IsReading size input r
    → AllDeliver ts
    → length r.stdin < length ts
    → (end : BlockReader) × (reader_thread always size ts (running r) ≡ closed end)
      × IsCut size input end
unfolding reader_thread
run_lem size input [] r w h enough = absurd (omega arith)
run_lem size input (interrupted ∷ ts) r w h enough = absurd h
run_lem size input (failed ∷ ts) r w h enough = absurd h
run_lem size input (delivers n ∷ ts) r w h enough =
    go _ (delivers_lem size input n r w) (λ r' w' less. run_lem size input ts r' w' h (omega arith))
  where
    go :
        (p : Progress)
        → TurnResult size input (length r.stdin) p
        → ((r' : BlockReader)
            → IsReading size input r'
            → length r'.stdin < length r.stdin
            → (end : BlockReader) × (reader_thread always size ts (running r') ≡ closed end)
              × IsCut size input end)
        → (end : BlockReader) × (reader_thread always size ts p ≡ closed end) × IsCut size input end
    go p (turn_ends end cut) next = (end, stay ts, cut)
      where
        stay : (ts : List Read) → reader_thread always size ts (closed end) ≡ closed end
        stay [] = refl
        stay (t ∷ ts) = refl
    go p (turn_goes r' w' less) next = next r' w' less

-- For a positive block size, reads that all deliver, and sends that succeed, the reader returns
-- `Ok` after at most one read more than there are bytes. The blocks that it has sent each have
-- the block size, and together they are the input followed by less than a block of zeros.
pub reader_thread-IsCut :
    (size : ℕ) (input : List ℕ) (ts : List Read)
    → 0 < size
    → AllDeliver ts
    → length input < length ts
    → (end : BlockReader) × (reader_thread (λ n. true) size ts (running (start_reader size input))
        ≡ closed end)
      × IsCut size input end
unfolding always start_reader
reader_thread-IsCut size input ts pos h enough =
    run_lem size input ts (start_reader size input) (start_reader-IsReading size input pos) h enough
