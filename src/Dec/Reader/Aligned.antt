-- ===== src/Dec/Reader/Aligned.antt =====
-- `reader_thread` of raptorq/dec/src/main.rs on a stream that is a sequence of packets.
use mathlib.Core.Bool.{false≢true}
use mathlib.Core.List.{append_assoc, append-nil}
use live_video.Prelude.{
  ℕ, ◌<◌, ◌≡◌, refl, sym, ◌∙◌, ap, subst, true, List, [], ◌∷◌, ◌++◌, arith, ◌==◌, length, concat,
}
use live_video.Dec.Reader.{
  Standing, Reader, Read, running, closed, start_reader, begins_with, run_reader,
}
use live_video.Dec.Reader.Scan.{
  Scan, scan, empty_scan, scan_chunk, scan-append, ReaderResult, reader_runs, reader_breaks,
  reader_ends, reader_refused,
}
use live_video.Dec.Reader.Ending.{AllDeliver, run_reader-closed}
use live_video.Dec.Reader.Chunks.{run_reader-ReaderResult}

-- 188 bytes that begin with the sync byte.
abbrev pub IsPacket : List ℕ → Type 0
IsPacket p = (length p ≡ 188) × (begins_with 0x47 p ≡ true)

abbrev pub AllPackets : List (List ℕ) → Type 0
AllPackets [] = Unit {0}
AllPackets (p ∷ ps) = IsPacket p × AllPackets ps

scan_packet :
    (found : List (List ℕ)) (p : List ℕ)
    → IsPacket p
    → scan (record { held = []; found = found }) p ≡ record { held = []; found = found ++ (p ∷ []) }
scan_packet found [] h = absurd (false≢true h.1)
scan_packet found (b ∷ bs) h =
    let full : (length (b ∷ bs) == 188) ≡ true = ground (arith, h.0) in
    scan_chunk (record { held = []; found = found }) b bs (omega (arith, h.0)) ∙ rw (full, h.1) refl

scan-concat :
    (found ps : List (List ℕ))
    → AllPackets ps
    → scan (record { held = []; found = found }) (concat ps)
      ≡ record { held = []; found = found ++ ps }
unfolding scan
scan-concat found [] h = ap (λ f. record { held = []; found = f }) (sym (append-nil found))
scan-concat found (p ∷ ps) h =
    scan-append (record { held = []; found = found }) p (concat ps)
    ∙ ap (λ s. scan s (concat ps)) (scan_packet found p h.0)
    ∙ scan-concat (found ++ (p ∷ [])) ps h.1
    ∙ ap (λ f. record { held = []; found = f }) (append_assoc found (p ∷ []) ps)

abbrev sent_by : Standing → List (List ℕ)
sent_by (closed r) = r.sent
sent_by s = []

-- What a stopped reader has sent, where every send succeeds.
closed_lem :
    (ps : List (List ℕ)) (r : Reader)
    → AllPackets ps
    → (s : Standing) → ReaderResult (λ n. true) (concat ps) s
    → s ≡ closed r
    → r.sent ≡ ps
closed_lem ps r h s (reader_runs x w few) e = cc
closed_lem ps r h s (reader_breaks x w) e = cc
closed_lem ps r h s (reader_refused x c split e' refused) e = absurd (false≢true (sym refused))
closed_lem ps r h s (reader_ends x w last) e =
    let whole : w.consumed ≡ concat ps =
      sym (append-nil w.consumed) ∙ ap (w.consumed ++◌) (sym last) ∙ w.split in
    sym (ap sent_by e)
    ∙ ap Scan.found (sym w.scanned ∙ ap (scan empty_scan) whole ∙ scan-concat [] ps h)

-- On a stream of whole packets, in reads of any size that all deliver, a reader whose sends
-- succeed returns `Ok` after at most one read more than there are bytes, and has sent exactly
-- those packets.
pub run_reader-concat :
    (ts : List Read) (ps : List (List ℕ))
    → AllPackets ps
    → AllDeliver ts
    → length (concat ps) < length ts
    → (r : Reader) × (run_reader (λ n. true) ts (running (start_reader (concat ps))) ≡ closed r)
      × (r.sent ≡ ps)
run_reader-concat ts ps h reads enough =
    let (r, e) = run_reader-closed (λ n. true) ts (concat ps) reads enough in
    (
      r,
      e,
      closed_lem ps r h (closed r)
          (subst (ReaderResult (λ n. true) (concat ps)) e
            (run_reader-ReaderResult (λ n. true) (concat ps) ts))
          refl,
    )
