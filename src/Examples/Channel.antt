-- ===== src/Examples/Channel.antt =====
-- An example for the link between raptorq/enc/src/main.rs and raptorq/dec/src/main.rs.
use live_video.Prelude.{
  ℕ, zero, suc, ◌≡◌, refl, true, List, [], ◌∷◌, concat, length, replicate, arith,
}
use live_video.Dec.Reader.{Reader, delivers, running, closed, start_reader, run_reader}
use live_video.Dec.Reader.Ending.{AllDeliver}
use live_video.Enc.Writer as Writer
use live_video.Prelude.Slices.{write_at, write_byte}
use live_video.Wire.Frame.Build.{build_data_packet, build_noop_packet}
use live_video.Wire.Frame.Layout.{Fits}
use live_video.Link.{written, IsCarried, writer_thread-run_reader}
use live_video.Examples.Toy.{toy, small_oti, small_packet}

abbrev tick_of : Writer.Fetch ((ℕ × ℕ) × List ℕ) → Writer.Tick ((ℕ × ℕ) × List ℕ)
tick_of f = record { fetch = f; written = true; elapsed = 100 }

abbrev two_ticks : List (Writer.Tick ((ℕ × ℕ) × List ℕ))
two_ticks = tick_of (Writer.packet (small_packet 0)) ∷ tick_of Writer.empty ∷ []

abbrev sent_bytes : List (List ℕ)
sent_bytes =
    written toy 0x100 1000000 small_oti (omega arith)
      (Writer.writer_thread toy 0x100 1000000 small_oti two_ticks (Writer.start_phase 1000000))

small_packet-Fits : Fits toy small_oti (small_packet 0)
small_packet-Fits = record { oti_length = refl; id_length = refl; symbol_length = refl }

all_reads : (n : ℕ) → AllDeliver (replicate n (delivers 50))
all_reads zero = tt
all_reads (suc n) = all_reads n

sent_length : length (concat sent_bytes) ≡ 376
unfolding Writer.writer_thread build_data_packet write_at Writer.start_writer Writer.start_phase
    write_byte build_noop_packet
sent_length = refl

writer_thread-run_reader_example :
    (r : Reader) × (run_reader
        (λ n. true)
        (replicate 377 (delivers 50))
        (running (start_reader (concat sent_bytes)))
      ≡ closed r)
    × (r.sent ≡ sent_bytes)
    × IsCarried toy 0x100 1000000 small_oti (omega arith) (small_packet 0 ∷ []) r.sent
writer_thread-run_reader_example =
    writer_thread-run_reader toy 0x100 1000000 small_oti (omega arith) two_ticks
      (replicate 377 (delivers 50)) (omega arith) (small_packet-Fits, tt) (all_reads 377)
      (omega (arith, sent_length))
