-- ===== src/Examples/Codec.antt =====
-- The stand-in crate keeps the laws that raptorq/enc/src/main.rs and raptorq/dec/src/main.rs rely
-- on.
use mathlib.Core.List.{append_assoc}
use live_video.Prelude.{
  ℕ, zero, suc, ◌+◌, ◌*◌, ◌/◌, ◌^◌, ◌≤◌, ◌<◌, ◌≡◌, refl, ◌∙◌, ap, ap₂, subst, true, false, List, [],
  ◌∷◌, ◌++◌, some, ◌==◌, ==_iff, length, length-append, length-take, length-drop, take, drop,
  replicate, take_all, take-append-drop, arith,
}
use live_video.Enc.Interleave.Merge.{IsMerge, both_empty, from_source, from_repair}
use live_video.Dec.Transparent.{first_result}
use live_video.Link.Segments.{IsNumbered, AllNumbered, IsCodec}
use live_video.Examples.Toy.{toy, sources, repairs, small_oti}

numbered :
    (sbn esi : ℕ) (s : List ℕ) → sbn < 256 → esi < 2 ^ 24 → IsNumbered toy sbn ((sbn, esi), s)
numbered sbn esi s byte low = record {
  numbered = omega arith;
  read_back = ap₂ (λ (x y : ℕ). (x, y)) (omega arith) (omega arith);
}

sources-AllNumbered :
    (sbn n i : ℕ) (bytes : List ℕ)
    → sbn < 256
    → i + n ≤ 2 ^ 24
    → AllNumbered toy sbn (sources sbn n i bytes)
sources-AllNumbered sbn zero i bytes byte low = tt
sources-AllNumbered sbn (suc n) i bytes byte low = (
  numbered sbn i (take 167 bytes) byte (omega arith),
  sources-AllNumbered sbn n (suc i) (drop 167 bytes) byte (omega arith),
)

repairs-AllNumbered :
    (sbn n i : ℕ) → sbn < 256 → i + n ≤ 2 ^ 24 → AllNumbered toy sbn (repairs sbn n i)
repairs-AllNumbered sbn zero i byte low = tt
repairs-AllNumbered sbn (suc n) i byte low =
    (numbered sbn i _ byte (omega arith), repairs-AllNumbered sbn n (suc i) byte (omega arith))

above_differs : (a b : ℕ) → a < b → (b == a) ≡ false
above_differs a b less = ground arith

-- Repair packets tell the stand-in nothing, source packets in order give the block.
merge-first_result :
    (sbn k i n r j : ℕ) (joined bytes : List ℕ) (ss rs ps : List ((ℕ × ℕ) × List ℕ))
    → i + suc n ≡ k
    → k ≤ j
    → length joined ≡ i * 167
    → length bytes ≡ suc n * 167
    → sources sbn (suc n) i bytes ≡ ss
    → repairs sbn r j ≡ rs
    → IsMerge ss rs ps
    → first_result toy (k, joined) ps ≡ some (joined ++ bytes)
unfolding first_result
merge-first_result sbn k i n r j joined bytes ss rs ps at far l m es er both_empty = cc
merge-first_result sbn k i n zero j joined bytes ss rs ps at far l m es er
      (from_repair y xs ys zs g) =
    cc
merge-first_result sbn k i n (suc r) j joined bytes ss rs ps at far l m es er
      (from_repair y xs ys zs g) =
    let skips : (j * 167 == length joined) ≡ false =
      above_differs (length joined) (j * 167) (omega arith) in
    let same : ((sbn, j), replicate 167 0) ≡ y = cc in
    let others : repairs sbn r (suc j) ≡ ys = cc in
    subst (λ x. first_result toy (k, joined) (x ∷ zs) ≡ some (joined ++ bytes)) same
      (rw skips (
        merge-first_result sbn k i n r (suc j) joined bytes xs ys zs at (omega arith) l m es others
          g))
merge-first_result sbn k i zero r j joined bytes ss rs ps at far l m es er
      (from_source x xs ys zs g) =
    let next : (i * 167 == length joined) ≡ true =
      (==_iff (i * 167) (length joined)).1 (omega arith) in
    let last : (k == suc i) ≡ true = (==_iff k (suc i)).1 (omega arith) in
    let same : ((sbn, i), take 167 bytes) ≡ x = cc in
    subst (λ x. first_result toy (k, joined) (x ∷ zs) ≡ some (joined ++ bytes)) same
      (rw (next, last) (ap (λ x. some (joined ++ x)) (take_all 167 bytes (omega arith))))
merge-first_result sbn k i (suc n) r j joined bytes ss rs ps at far l m es er
      (from_source x xs ys zs g) =
    let next : (i * 167 == length joined) ≡ true =
      (==_iff (i * 167) (length joined)).1 (omega arith) in
    let more : (k == suc i) ≡ false = above_differs (suc i) k (omega arith) in
    let same : ((sbn, i), take 167 bytes) ≡ x = cc in
    let others : sources sbn (suc n) (suc i) (drop 167 bytes) ≡ xs = cc in
    subst (λ x. first_result toy (k, joined) (x ∷ zs) ≡ some (joined ++ bytes)) same
      (rw (next, more)
        (merge-first_result sbn k (suc i) n r j (joined ++ take 167 bytes) (drop 167 bytes) xs ys zs
            (omega arith) far
            (omega (arith, length-append joined (take 167 bytes), length-take 167 bytes))
            (omega (arith, length-drop 167 bytes)) others er g
          ∙ ap some (
              append_assoc joined (take 167 bytes) (drop 167 bytes)
              ∙ ap (λ x. joined ++ x) (take-append-drop 167 bytes))))

one_symbol : (b : List ℕ) → length b ≡ 167 → length b / 167 ≡ 1
one_symbol b full = omega arith

pub toy-IsCodec : IsCodec toy small_oti
toy-IsCodec = record {
  reads_oti = refl;
  keeps = λ p. refl;
  sources =
      λ sbn b byte full. rw (one_symbol b full) (sources-AllNumbered sbn 1 0 b byte (omega arith));
  repairs = λ sbn start n b byte full few.
      rw (one_symbol b full) (repairs-AllNumbered sbn n (1 + start) byte (omega arith));
  decodes = λ sbn n b ps byte full few m.
      merge-first_result sbn 1 0 0 n 1 [] b _ _ ps (omega arith) (omega arith) refl full refl refl
        (subst (λ k. IsMerge (sources sbn k 0 b) (repairs sbn n (k + 0)) ps) (one_symbol b full) m);
}
