-- ===== src/Prelude/Slices.antt =====
-- Slices of byte arrays with their bounds checks: `none` is the panic of a failed check.
use Prim.Native.Nat.{ℕ, ◌+◌, ◌≤◌}
use mathlib.Core.Path.{◌≡◌, refl}
use mathlib.Core.Bool.{true, ◌&&◌}
use mathlib.Core.Option.{Option, none, some}
use mathlib.Core.List.{List, [], ◌∷◌, ◌++◌, append_assoc}
use native.Mathlib.Omega.{arith}
use live_video.Prelude.Tests.{leb, ◌==◌, if◌then◌else◌}
use live_video.Prelude.Lists.{
  length, take, drop, length-append, length-drop, length-take, take-append, take_all, drop-append,
  drop-drop,
}

infixl 5 ◌>>=◌
abbrev pub ◌>>=◌ {ℓ κ} : {A : Type ℓ} {B : Type κ} → Option A → (A → Option B) → Option B
none >>= f = none
some a >>= f = f a

module _ {ℓ} {A : Type ℓ} where
  -- `xs[off .. off + n]`.
  unfoldable pub slice? : ℕ → ℕ → List A → Option (List A)
  slice? off n xs = if leb (off + n) (length xs) then some (take n (drop off xs)) else none

  -- `out[off .. off + n].copy_from_slice(src)`.
  unfoldable pub write_at : ℕ → ℕ → List A → List A → Option (List A)
  write_at off n out src =
      if leb (off + n) (length out) && (length src == n)
      then some (take off out ++ (src ++ drop (off + n) out))
      else none

  -- `out[off] = v`.
  unfoldable pub write_byte : ℕ → List A → A → Option (List A)
  unfolding write_at
  write_byte off out v = write_at off 1 out (v ∷ [])

  -- A write behind a finished prefix extends the prefix.
  pub write_at-append :
      (off n : ℕ) (done rest src : List A)
      → length done ≡ off
      → length src ≡ n
      → n ≤ length rest
      → write_at off n (done ++ rest) src ≡ some ((done ++ src) ++ drop n rest)
  unfolding write_at
  write_at-append off n done rest src d s r =
      let fits : (leb (off + n) (length (done ++ rest)) && (length src == n)) ≡ true =
        ground (arith, length-append done rest) in
      rw
        (
          fits,
          take-append off done rest d,
          ← drop-drop n off (done ++ rest),
          drop-append off done rest d,
          append_assoc done src (drop n rest),
        )
        refl

  pub write_byte-append :
      (off : ℕ) (done rest : List A) (v : A)
      → length done ≡ off
      → 1 ≤ length rest
      → write_byte off (done ++ rest) v ≡ some ((done ++ (v ∷ [])) ++ drop 1 rest)
  unfolding write_byte
  write_byte-append off done rest v d r = write_at-append off 1 done rest (v ∷ []) d refl r

  pub slice?-append :
      (off n : ℕ) (done mid rest : List A)
      → length done ≡ off
      → length mid ≡ n
      → slice? off n (done ++ (mid ++ rest)) ≡ some mid
  unfolding slice?
  slice?-append off n done mid rest d m =
      let fits : leb (off + n) (length (done ++ (mid ++ rest))) ≡ true =
        ground (arith, length-append done (mid ++ rest), length-append mid rest) in
      rw (fits, drop-append off done (mid ++ rest) d, take-append n mid rest m) refl

  -- Slicing the tail of a list.
  pub slice?-end :
      (off n : ℕ) (done mid : List A)
      → length done ≡ off
      → length mid ≡ n
      → slice? off n (done ++ mid) ≡ some mid
  unfolding slice?
  slice?-end off n done mid d m =
      let fits : leb (off + n) (length (done ++ mid)) ≡ true =
        ground (arith, length-append done mid) in
      rw (fits, drop-append off done mid d, take_all n mid m) refl

  pub slice?_fits :
      (off n : ℕ) (xs : List A)
      → off + n ≤ length xs
      → slice? off n xs ≡ some (take n (drop off xs))
  unfolding slice?
  slice?_fits off n xs h = ground arith

  -- A slice within bounds is there, and has the length asked for.
  pub slice?_total :
      (off n : ℕ) (xs : List A)
      → off + n ≤ length xs
      → (ys : List A) × (slice? off n xs ≡ some ys) × (length ys ≡ n)
  unfolding slice?
  slice?_total off n xs h = (
    take n (drop off xs),
    ground arith,
    omega (arith, length-take n (drop off xs), length-drop off xs),
  )
