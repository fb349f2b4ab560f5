-- ===== src/Dec/Process/Sends.antt =====
-- A turn of `reader_thread` in raptorq/dec/src/main.rs sends one packet at most.
use mathlib.Core.List.{append-nil}
use live_video.Prelude.{
  ℕ, suc, ◌+◌, ◌-◌, ◌≤◌, ◌≡◌, refl, sym, Bool, false, List, [], ◌∷◌, ◌++◌, Option, none, some, ◌==◌,
  inl, inr, Bool-cases, length, drop, arith,
}
use live_video.Prelude.Slices.{write_at}
use live_video.Dec.Reader.{
  Reader, Read, delivers, interrupted, failed, Standing, exhausted, skip_byte, send_packet,
  begins_with, drain, after_read, read_turn, read_bytes,
}
use live_video.Dec.Process.{sent_of}

module _ (accepts : ℕ → Bool) where
  -- What is sent on top of `xs`.
  pub data Sends (xs : List (List ℕ)) (s : Standing) : Type 0 where
    sends_spent : s ≡ exhausted → Sends xs s
    sends :
        (new : List (List ℕ))
        → sent_of s ≡ xs ++ new
        → length new ≤ 1
        → (accepts (length xs) ≡ false → new ≡ [])
        → Sends xs s

  drain-Sends : (r : Reader) → Sends r.sent (drain accepts 2 r)
  unfolding drain skip_byte send_packet sent_of
  drain-Sends r = elim (Bool-cases (r.filled == 188)) [
    | inr partial ↦ rw partial (sends [] (sym (append-nil r.sent)) (omega arith) (λ _. refl))
    | inl full ↦ elim (Bool-cases (begins_with 0x47 r.scratch)) [
      | inl sync ↦ elim (Bool-cases (accepts (length r.sent))) [
        | inl taken ↦ rw (full, sync, taken) (sends (r.scratch ∷ []) refl (omega arith) (λ h. cc))
        | inr refused ↦
            rw (full, sync, refused) (sends [] (sym (append-nil r.sent)) (omega arith) (λ _. refl))
      ]
      | inr junk ↦
          let below : (r.filled - 1 == 188) ≡ false = ground arith in
          rw (full, junk, below) (sends [] (sym (append-nil r.sent)) (omega arith) (λ _. refl))
    ]
  ]

  after_read-Sends : (r : Reader) (bytes : List ℕ) → Sends r.sent (after_read accepts r bytes)
  unfolding after_read sent_of
  after_read-Sends r [] = sends [] (sym (append-nil r.sent)) (omega arith) (λ _. refl)
  after_read-Sends r (b ∷ bs) = written (write_at r.filled (suc (length bs)) r.scratch (b ∷ bs))
    where
      written :
          (w : Option (List ℕ))
          → Sends r.sent (elim w as (λ x. Standing) [
            | none ↦ exhausted
            | some scratch ↦ drain accepts 2 (record r {
              stdin = drop (suc (length bs)) r.stdin;
              scratch = scratch;
              filled = r.filled + suc (length bs);
            })
          ])
      written none = sends_spent refl
      written (some scratch) = drain-Sends _

  pub read_turn-Sends : (e : Read) (r : Reader) → Sends r.sent (read_turn accepts e r)
  unfolding read_turn sent_of
  read_turn-Sends (delivers n) r = after_read-Sends r (read_bytes n r)
  read_turn-Sends interrupted r = sends [] (sym (append-nil r.sent)) (omega arith) (λ _. refl)
  read_turn-Sends failed r = sends [] (sym (append-nil r.sent)) (omega arith) (λ _. refl)
