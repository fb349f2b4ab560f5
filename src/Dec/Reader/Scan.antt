-- ===== src/Dec/Reader/Scan.antt =====
-- What `reader_thread` of raptorq/dec/src/main.rs sends: a scan of the whole stream, byte by byte.
use mathlib.Core.List.{append_assoc}
use live_video.Prelude.{
  ℕ, suc, ◌+◌, ◌≤◌, ◌<◌, ◌≡◌, refl, ◌∙◌, ap, Bool, false, not, List, [], ◌∷◌, ◌++◌, arith, ◌==◌,
  if◌then◌else◌, length, take, length-append,
}
use live_video.Dec.Reader.{Reader, Standing, running, closed, broken, begins_with}

-- The bytes held back and the packets found.
pub record Scan : Type 0 where
  pub held : List ℕ
  pub found : List (List ℕ)

abbrev pub tail_of : List ℕ → List ℕ
tail_of [] = []
tail_of (x ∷ xs) = xs

-- 188 bytes are a packet, if they begin with the sync byte; otherwise the first is given up.
abbrev pub settle_held : Scan → Scan
settle_held s =
    if not (length s.held == 188)
    then s
    else if begins_with 0x47 s.held
    then record { held = []; found = s.found ++ (s.held ∷ []) }
    else record s { held = tail_of s.held }

abbrev pub take_byte : Scan → ℕ → Scan
take_byte s b = settle_held (record s { held = s.held ++ (b ∷ []) })

unfoldable pub scan : Scan → List ℕ → Scan
scan s [] = s
scan s (b ∷ bs) = scan (take_byte s b) bs

abbrev pub empty_scan : Scan
empty_scan = record { held = []; found = [] }

pub scan-append : (s : Scan) (xs ys : List ℕ) → scan s (xs ++ ys) ≡ scan (scan s xs) ys
unfolding scan
scan-append s [] ys = refl
scan-append s (x ∷ xs) ys = scan-append (take_byte s x) xs ys

pub settle_held_short : (s : Scan) → length s.held < 188 → settle_held s ≡ s
settle_held_short s h = let short : (length s.held == 188) ≡ false = ground arith in rw short refl

-- A chunk that does not overfill the buffer is settled once, at its end.
pub scan_chunk :
    (s : Scan) (b : ℕ) (bs : List ℕ)
    → length s.held + suc (length bs) ≤ 188
    → scan s (b ∷ bs) ≡ settle_held (record s { held = s.held ++ (b ∷ bs) })
unfolding scan
scan_chunk s b [] h = refl
scan_chunk s b (c ∷ bs) h =
    let one : Scan = record s { held = s.held ++ (b ∷ []) } in
    let grown : length one.held ≡ length s.held + 1 = length-append s.held (b ∷ []) in
    let short : take_byte s b ≡ one = settle_held_short one (omega arith) in
    ap (λ x. scan x (c ∷ bs)) short
    ∙ scan_chunk one c bs (omega arith)
    ∙ ap (λ held. settle_held (record s { held = held })) (append_assoc s.held (b ∷ []) (c ∷ bs))

-- The reader has consumed a prefix of the input, and stands where the scan of it stands.
pub record IsScanned (input : List ℕ) (found : List (List ℕ)) (r : Reader) : Type 0 where
  pub consumed : List ℕ
  pub split : consumed ++ r.stdin ≡ input
  pub whole : length r.scratch ≡ 188
  pub room : r.filled ≤ 188
  pub scanned : scan empty_scan consumed ≡ record { held = take r.filled r.scratch; found = found }

-- What a run comes to: it goes on, has stopped at the end of the input or because a packet could
-- not be sent, which is then the last one found, or has stopped on a read error.
pub data ReaderResult (accepts : ℕ → Bool) (input : List ℕ) : Standing → Type 0 where
  reader_runs :
      (r : Reader)
      → IsScanned input r.sent r
      → r.filled < 188
      → ReaderResult accepts input (running r)
  reader_ends :
      (r : Reader) → IsScanned input r.sent r → r.stdin ≡ [] → ReaderResult accepts input (closed r)
  reader_refused :
      (r : Reader)
      → (consumed : List ℕ) → consumed ++ r.stdin ≡ input
      → scan empty_scan consumed ≡ record { held = []; found = r.sent ++ (r.scratch ∷ []) }
      → accepts (length r.sent) ≡ false
      → ReaderResult accepts input (closed r)
  reader_breaks : (r : Reader) → IsScanned input r.sent r → ReaderResult accepts input (broken r)
