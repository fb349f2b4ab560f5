-- ===== src/Examples/Streams.antt =====
-- Examples for the reader threads of raptorq/enc/src/main.rs and raptorq/dec/src/main.rs.
use live_video.Prelude.{ℕ, zero, suc, ◌≡◌, refl, true, List, [], ◌∷◌, replicate, concat, arith}
use live_video.Dec.Reader.{
  Reader, Read, delivers, interrupted, running, closed, start_reader, run_reader,
}
use live_video.Dec.Reader.Scan.{ReaderResult}
use live_video.Dec.Reader.Chunks.{run_reader-ReaderResult}
use live_video.Dec.Reader.Ending.{AllDeliver, run_reader-closed}
use live_video.Dec.Reader.Aligned.{run_reader-concat}
use live_video.Enc.Reader as Blocks
use live_video.Enc.Reader.Blocks.{IsCut, reader_thread-IsCut}

-- Noise before a packet, in two reads with an interruption between them.
abbrev ts_packet : List ℕ
ts_packet = 0x47 ∷ replicate 187 1

abbrev noisy : List ℕ
noisy = 9 ∷ 8 ∷ ts_packet

abbrev reads : List Read
reads = delivers 187 ∷ interrupted ∷ delivers 100 ∷ delivers 0 ∷ []

run_reader-ReaderResult_example :
    ReaderResult (λ n. true) noisy (run_reader (λ n. true) reads (running (start_reader noisy)))
run_reader-ReaderResult_example = run_reader-ReaderResult (λ n. true) noisy reads

-- Three bytes, in reads of one byte.
run_reader-closed_example :
    (r : Reader) × (run_reader
        (λ n. true)
        (delivers 0 ∷ delivers 0 ∷ delivers 0 ∷ delivers 0 ∷ [])
        (running (start_reader (1 ∷ 2 ∷ 3 ∷ [])))
      ≡ closed r)
run_reader-closed_example =
    run_reader-closed (λ n. true) (delivers 0 ∷ delivers 0 ∷ delivers 0 ∷ delivers 0 ∷ [])
      (1 ∷ 2 ∷ 3 ∷ []) tt (omega arith)

abbrev two_packets : List (List ℕ)
two_packets = ts_packet ∷ ts_packet ∷ []

all_deliver : (n : ℕ) → AllDeliver (replicate n (delivers 6))
all_deliver zero = tt
all_deliver (suc n) = all_deliver n

run_reader-concat_example :
    (r : Reader) × (run_reader
        (λ n. true)
        (replicate 377 (delivers 6))
        (running (start_reader (concat two_packets)))
      ≡ closed r)
    × (r.sent ≡ two_packets)
run_reader-concat_example =
    run_reader-concat (replicate 377 (delivers 6)) two_packets ((refl, refl), ((refl, refl), tt))
      (all_deliver 377) (omega arith)

-- Five bytes in blocks of two.
reader_thread-IsCut_example :
    (end : Blocks.BlockReader) × (Blocks.reader_thread
        (λ n. true)
        2
        (replicate 6 (delivers 3))
        (Blocks.running (Blocks.start_reader 2 (1 ∷ 2 ∷ 3 ∷ 4 ∷ 5 ∷ [])))
      ≡ Blocks.closed end)
    × IsCut 2 (1 ∷ 2 ∷ 3 ∷ 4 ∷ 5 ∷ []) end
reader_thread-IsCut_example =
    reader_thread-IsCut 2 (1 ∷ 2 ∷ 3 ∷ 4 ∷ 5 ∷ []) (replicate 6 (delivers 3)) (omega arith)
      (all_deliver 6) (omega arith)
