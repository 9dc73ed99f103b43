-- ===== src/Prelude/Map.antt =====
-- std::map with uint64_t keys: an association list in ascending order of its keys.
use Prim.Native.Nat.{ℕ, suc, ◌+◌, ◌≤◌, ◌<◌}
use mathlib.Core.Path.{◌≡◌, refl}
use mathlib.Core.List.{List, [], ◌∷◌, map}
use mathlib.Core.Option.{Option, none, some}
use mathlib.Core.Logic.{inl, inr}
use native.Mathlib.Nat.{add_comm}
use native.Mathlib.Omega.{arith}
use myqueue.Prelude.Tests.{if◌then◌else◌, ltb, ◌==◌, Bool-cases}

module _ {ℓ} {V : Type ℓ} where
  unfoldable pub find : ℕ → List (ℕ × V) → Option V
  find k [] = none
  find k ((j, v) ∷ m) = if j == k then some v else find k m

  -- `m[k] = v`
  unfoldable pub put : ℕ → V → List (ℕ × V) → List (ℕ × V)
  put k v [] = (k, v) ∷ []
  put k v ((j, w) ∷ m) =
      if ltb k j then (k, v) ∷ (j, w) ∷ m else if j == k then (k, v) ∷ m else (j, w) ∷ put k v m

  unfoldable pub erase : ℕ → List (ℕ × V) → List (ℕ × V)
  erase k [] = []
  erase k ((j, w) ∷ m) = if j == k then erase k m else (j, w) ∷ erase k m

  abbrev pub values : List (ℕ × V) → List V
  values = map (λ p. p.1)

  -- The keys ascend strictly, from `lo` on.
  abbrev pub Asc : ℕ → List (ℕ × V) → Type 0
  Asc lo [] = Unit
  Asc lo ((k, v) ∷ m) = (lo ≤ k) × Asc (suc k) m

  pub find-put :
      (j k : ℕ) (v : V) (m : List (ℕ × V))
      → find j (put k v m) ≡ (if k == j then some v else find j m)
  unfolding find put
  find-put j k v [] = refl
  find-put j k v ((i, w) ∷ m) = ground (arith, find-put j k v m)

  pub find-erase :
      (j k : ℕ) (m : List (ℕ × V)) → find j (erase k m) ≡ (if k == j then none else find j m)
  unfolding find erase
  find-erase j k [] = ground arith
  find-erase j k ((i, w) ∷ m) = ground (arith, find-erase j k m)

  pub find_below : (k lo : ℕ) (m : List (ℕ × V)) → Asc lo m → k < lo → find k m ≡ none
  unfolding find
  find_below k lo [] a h = refl
  find_below k lo ((i, w) ∷ m) a h = ground (arith, find_below k (suc i) m a.1)

  pub put-Asc : (k lo : ℕ) (v : V) (m : List (ℕ × V)) → lo ≤ k → Asc lo m → Asc lo (put k v m)
  unfolding put
  put-Asc k lo v [] h a = (h, tt)
  put-Asc k lo v ((i, w) ∷ m) h a = ground (arith, put-Asc k (suc i) v m)

  Asc-mono : (lo hi : ℕ) (m : List (ℕ × V)) → lo ≤ hi → Asc hi m → Asc lo m
  Asc-mono lo hi [] h a = tt
  Asc-mono lo hi ((i, w) ∷ m) h a = (omega arith, a.1)

  pub erase-Asc : (k lo : ℕ) (m : List (ℕ × V)) → Asc lo m → Asc lo (erase k m)
  unfolding erase
  erase-Asc k lo [] a = tt
  erase-Asc k lo ((i, w) ∷ m) a =
      ground (arith, erase-Asc k (suc i) m a.1, Asc-mono lo (suc i) (erase k m))

  -- An entry that is erased may be overwritten before.
  pub erase-put : (k : ℕ) (v : V) (m : List (ℕ × V)) → erase k (put k v m) ≡ erase k m
  unfolding erase put
  erase-put k v [] = ground arith
  erase-put k v ((i, w) ∷ m) = ground (arith, erase-put k v m)

-- Sums over the values, which count what the entries hold.
module _ {ℓ} {V : Type ℓ} (f : V → ℕ) where
  unfoldable pub total : List (ℕ × V) → ℕ
  total [] = 0
  total ((k, v) ∷ m) = f v + total m

  abbrev pub at : Option V → ℕ
  at none = 0
  at (some v) = f v

  pub total-put :
      (k lo : ℕ) (v : V) (m : List (ℕ × V))
      → Asc lo m
      → total (put k v m) + at (find k m) ≡ total m + f v
  unfolding total put find
  total-put k lo v [] a = omega arith
  total-put k lo v ((i, w) ∷ m) a =
      ground (arith, total-put k (suc i) v m a.1, find_below k (suc i) m a.1)

  erase_below : (k lo : ℕ) (m : List (ℕ × V)) → Asc lo m → k < lo → erase k m ≡ m
  unfolding erase
  erase_below k lo [] a h = refl
  erase_below k lo ((i, w) ∷ m) a h = ground (arith, erase_below k (suc i) m a.1)

  pub total-erase :
      (k lo : ℕ) (m : List (ℕ × V)) → Asc lo m → total (erase k m) + at (find k m) ≡ total m
  unfolding total erase find
  total-erase k lo [] a = omega arith
  total-erase k lo ((i, w) ∷ m) a = elim (Bool-cases (i == k)) [
    | inl hit ↦ rw hit (rw (erase_below k (suc i) m a.1 (ground arith)) (add_comm (total m) (f w)))
    | inr miss ↦ rw miss (omega (arith, total-erase k (suc i) m a.1))
  ]

  pub at-le-total : (k : ℕ) (m : List (ℕ × V)) → at (find k m) ≤ total m
  unfolding total find
  at-le-total k [] = omega arith
  at-le-total k ((i, w) ∷ m) = ground (arith, at-le-total k m)
