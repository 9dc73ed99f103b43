-- ===== src/Prelude/Set.antt =====
-- std::set<int>: an ascending list without repetition, as iteration gives it.
use mathlib.Core.Path.{◌≡◌, refl}
use mathlib.Core.Bool.{Bool, false, not, ◌&&◌, ◌||◌}
use mathlib.Core.List.{List, [], ◌∷◌}
use native.Mathlib.Omega.{arith}
use myqueue.Prelude.Tests.{if◌then◌else◌}
use myqueue.Prelude.Int.{ℤ, eqb, ltz, eqb_of_eqb}

-- `s.count(i) > 0`, and membership in a std::vector<int>.
unfoldable pub contains : ℤ → List ℤ → Bool
contains i [] = false
contains i (x ∷ s) = eqb x i || contains i s

unfoldable pub insert : ℤ → List ℤ → List ℤ
insert i [] = i ∷ []
insert i (x ∷ s) = if ltz i x then i ∷ x ∷ s else if eqb i x then x ∷ s else x ∷ insert i s

unfoldable pub erase : ℤ → List ℤ → List ℤ
erase i [] = []
erase i (x ∷ s) = if eqb x i then erase i s else x ∷ erase i s

-- `for (int id : ids) s.insert(id)`
unfoldable pub insert_all : List ℤ → List ℤ → List ℤ
unfolding insert
insert_all [] s = s
insert_all (i ∷ is) s = insert_all is (insert i s)

-- `for (int id : ids) s.erase(id)`
unfoldable pub erase_all : List ℤ → List ℤ → List ℤ
unfolding erase
erase_all [] s = s
erase_all (i ∷ is) s = erase_all is (erase i s)

pub contains-insert : (j i : ℤ) (s : List ℤ) → contains j (insert i s) ≡ (eqb i j || contains j s)
unfolding contains insert
contains-insert j i [] = refl
contains-insert j i (x ∷ s) = ground (arith, contains-insert j i s, eqb_of_eqb i x j)

pub contains-erase :
    (j i : ℤ) (s : List ℤ) → contains j (erase i s) ≡ (contains j s && not (eqb i j))
unfolding contains erase
contains-erase j i [] = refl
contains-erase j i (x ∷ s) = ground (arith, contains-erase j i s, eqb_of_eqb x i j)

pub contains-insert_all :
    (j : ℤ) (is s : List ℤ) → contains j (insert_all is s) ≡ (contains j is || contains j s)
unfolding contains insert_all
contains-insert_all j [] s = refl
contains-insert_all j (i ∷ is) s =
    ground (arith, contains-insert_all j is (insert i s), contains-insert j i s)

pub contains-erase_all :
    (j : ℤ) (is s : List ℤ) → contains j (erase_all is s) ≡ (contains j s && not (contains j is))
unfolding contains erase_all
contains-erase_all j [] s = ground arith
contains-erase_all j (i ∷ is) s =
    ground (arith, contains-erase_all j is (erase i s), contains-erase j i s)
