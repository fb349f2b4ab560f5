-- ===== src/Maps/Laws.antt =====
-- Laws of the maps: lookups, the order of keys, and what holds of every entry.
use live_video.Prelude.{
  ℕ, ◌≤◌, ◌<◌, ◌≡◌, ◌≢◌, refl, List, [], ◌∷◌, none, some, ◌==◌, if◌then◌else◌, arith, suc, inl, inr,
  Bool-cases,
}
use live_video.Maps.{get, insert, remove, last_key}

module _ {ℓ} {V : Type ℓ} where
  pub get-insert :
      (k j : ℕ) (v : V) (m : List (ℕ × V))
      → get j (insert k v m) ≡ (if k == j then some v else get j m)
  unfolding get insert
  get-insert k j v [] = refl
  get-insert k j v ((i, w) ∷ m) = ground (arith, get-insert k j v m)

  -- The keys ascend, and are all at least `lo`.
  abbrev pub Ascends : ℕ → List (ℕ × V) → Type 0
  Ascends lo [] = Unit {0}
  Ascends lo ((j, v) ∷ m) = (lo ≤ j) × Ascends (suc j) m

  pub Ascends-mono : {lo hi : ℕ} (m : List (ℕ × V)) → lo ≤ hi → Ascends hi m → Ascends lo m
  Ascends-mono [] h a = tt
  Ascends-mono ((j, v) ∷ m) h a = (omega arith, a.1)

  pub get_below : (k lo : ℕ) (m : List (ℕ × V)) → Ascends lo m → k < lo → get k m ≡ none
  unfolding get
  get_below k lo [] a h = refl
  get_below k lo ((j, v) ∷ m) a h = ground (arith, get_below k (suc j) m a.1)

  pub insert-Ascends :
      (lo k : ℕ) (v : V) (m : List (ℕ × V)) → lo ≤ k → Ascends lo m → Ascends lo (insert k v m)
  unfolding insert
  insert-Ascends lo k v [] h a = (h, tt)
  insert-Ascends lo k v ((j, w) ∷ m) h a = ground (arith, insert-Ascends (suc j) k v m)

  pub remove-Ascends : (lo k : ℕ) (m : List (ℕ × V)) → Ascends lo m → Ascends lo (remove k m)
  unfolding remove
  remove-Ascends lo k [] a = tt
  remove-Ascends lo k ((j, v) ∷ m) a =
      ground (arith, remove-Ascends (suc j) k m a.1, Ascends-mono {lo = lo} {hi = suc j} m)

  -- Without its first key the rest starts above it.
  pub remove-Ascends_first :
      (lo : ℕ) (m : List (ℕ × V)) → Ascends lo m → Ascends (suc lo) (remove lo m)
  unfolding remove
  remove-Ascends_first lo [] a = tt
  remove-Ascends_first lo ((j, v) ∷ m) a =
      ground (arith, remove-Ascends lo lo m, remove-Ascends (suc j) lo m a.1)

  pub get-remove_ne : (k j : ℕ) (m : List (ℕ × V)) → j ≢ k → get j (remove k m) ≡ get j m
  unfolding get remove
  get-remove_ne k j [] h = refl
  get-remove_ne k j ((i, v) ∷ m) h = ground (arith, get-remove_ne k j m h)

  pub remove_absent : (k : ℕ) (m : List (ℕ × V)) → get k m ≡ none → remove k m ≡ m
  unfolding get remove
  remove_absent k [] h = refl
  remove_absent k ((j, v) ∷ m) h = ground (arith, remove_absent k m)

  -- A property of every entry.
  abbrev pub AllEntries {κ} : (ℕ → V → Type κ) → List (ℕ × V) → Type κ
  AllEntries P [] = Unit
  AllEntries P ((j, v) ∷ m) = P j v × AllEntries P m

  pub get-AllEntries {κ} :
      (P : ℕ → V → Type κ) (k : ℕ) (v : V) (m : List (ℕ × V))
      → AllEntries P m
      → get k m ≡ some v
      → P k v
  unfolding get
  get-AllEntries P k v [] a e = absurd (ground arith)
  get-AllEntries P k v ((j, w) ∷ m) a e = ground (arith, get-AllEntries P k v m a.1)

  pub insert-AllEntries {κ} :
      (P : ℕ → V → Type κ) (k : ℕ) (v : V) (m : List (ℕ × V))
      → P k v
      → AllEntries P m
      → AllEntries P (insert k v m)
  unfolding insert
  insert-AllEntries P k v [] p a = (p, tt)
  insert-AllEntries P k v ((j, w) ∷ m) p a = ground (arith, insert-AllEntries P k v m p a.1)

  pub AllEntries-mono {κ μ} :
      (P : ℕ → V → Type κ) (Q : ℕ → V → Type μ) (m : List (ℕ × V))
      → ((j : ℕ) (v : V) → P j v → Q j v)
      → AllEntries P m
      → AllEntries Q m
  AllEntries-mono P Q [] h a = tt
  AllEntries-mono P Q ((j, v) ∷ m) h a = (h j v a.0, AllEntries-mono P Q m h a.1)

  pub remove-AllEntries {κ} :
      (P : ℕ → V → Type κ) (k : ℕ) (m : List (ℕ × V)) → AllEntries P m → AllEntries P (remove k m)
  unfolding remove
  remove-AllEntries P k [] a = tt
  remove-AllEntries P k ((j, w) ∷ m) a = ground (arith, remove-AllEntries P k m a.1)

  -- The last key is the key of an entry.
  pub get-last_key :
      (lo k : ℕ) (m : List (ℕ × V))
      → Ascends lo m
      → last_key m ≡ some k
      → (v : V) × (get k m ≡ some v)
  unfolding get last_key
  get-last_key lo k [] a e = absurd (ground arith)
  get-last_key lo k ((j, v) ∷ []) a e = (v, ground arith)
  get-last_key lo k ((j, v) ∷ p ∷ m) a e =
      let (w, found) = get-last_key (suc j) k (p ∷ m) a.1 e in
      (w, ground (arith, get_below k (suc j) (p ∷ m) a.1))

  -- No entry lies behind the last key.
  pub last_key_greatest :
      (lo j : ℕ) (v : V) (m : List (ℕ × V))
      → Ascends lo m
      → get j m ≡ some v
      → (k : ℕ) × (last_key m ≡ some k) × (j ≤ k)
  unfolding get last_key
  last_key_greatest lo j v [] a e = absurd (ground arith)
  last_key_greatest lo j v ((i, w) ∷ []) a e = (i, refl, ground arith)
  last_key_greatest lo j v ((i, w) ∷ (h, u) ∷ m) a e =
      let (k, last, below) = last_key_greatest (suc i) h u ((h, u) ∷ m) a.1 (ground arith) in
      let rest = last_key_greatest (suc i) j v ((h, u) ∷ m) a.1 in
      elim (Bool-cases (i == j)) [
        | inl here ↦ (k, last, ground arith)
        | inr there ↦ rest (ground arith)
      ]
