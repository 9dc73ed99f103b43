-- ===== src/Prelude/Int.antt =====
-- Signed numbers: the C++ `int` and `pid_t`. The program stores and compares them and makes no
-- arithmetic on them that could leave their range, so no width is written out.
use Prim.Native.Nat.{ℕ, zero, suc}
use mathlib.Core.Path.{◌≡◌, refl, ap}
use mathlib.Core.Logic.{◌↔◌}
use mathlib.Core.Bool.{Bool, true, false, not, ◌&&◌}
use mathlib.Core.List.{List, [], ◌∷◌}
use native.Mathlib.Omega.{arith}
use native.Mathlib.Decide.{ℕ_discrete}
use myqueue.Prelude.Tests.{ltb, ◌==◌}

-- `negsuc n` is -(n + 1).
pub data ℤ : Type 0 where
  pos : ℕ → ℤ
  negsuc : ℕ → ℤ

abbrev pub negate : ℕ → ℤ
negate zero = pos 0
negate (suc n) = negsuc n

abbrev pub eqb : ℤ → ℤ → Bool
eqb (pos a) (pos b) = a == b
eqb (pos a) (negsuc b) = false
eqb (negsuc a) (pos b) = false
eqb (negsuc a) (negsuc b) = a == b

abbrev pub ltz : ℤ → ℤ → Bool
ltz (pos a) (pos b) = ltb a b
ltz (pos a) (negsuc b) = false
ltz (negsuc a) (pos b) = true
ltz (negsuc a) (negsuc b) = ltb b a

abbrev pub lez : ℤ → ℤ → Bool
lez a b = not (ltz b a)

pub ℤ-discrete : Discrete ℤ
ℤ-discrete = hlevel ℕ_discrete

pub eqb_iff : (a b : ℤ) → (eqb a b ≡ true) ↔ (a ≡ b)
eqb_iff (pos a) (pos b) = ground arith
eqb_iff (pos a) (negsuc b) = ground arith
eqb_iff (negsuc a) (pos b) = ground arith
eqb_iff (negsuc a) (negsuc b) = ground arith

pub eqb_self : (a : ℤ) → eqb a a ≡ true
eqb_self a = (eqb_iff a a).1 refl

pub eqb_of_eqb : (a b c : ℤ) → eqb a b ≡ true → eqb b c ≡ eqb a c
eqb_of_eqb a b c h = ap (λ x. eqb x c) (ground (arith, eqb_iff a b))

pub eqb_comm : (a b : ℤ) → eqb a b ≡ eqb b a
eqb_comm (pos a) (pos b) = ground arith
eqb_comm (pos a) (negsuc b) = refl
eqb_comm (negsuc a) (pos b) = refl
eqb_comm (negsuc a) (negsuc b) = ground arith

pub ltz-pos : (a b : ℕ) → ltz (pos a) (pos b) ≡ ltb a b
ltz-pos a b = refl

-- `operator==` of std::vector<int>.
unfoldable pub ints_eq : List ℤ → List ℤ → Bool
ints_eq [] [] = true
ints_eq [] (b ∷ bs) = false
ints_eq (a ∷ as') [] = false
ints_eq (a ∷ as') (b ∷ bs) = eqb a b && ints_eq as' bs

pub ints_eq_iff : (a b : List ℤ) → (ints_eq a b ≡ true) ↔ (a ≡ b)
unfolding ints_eq
ints_eq_iff [] [] = ground arith
ints_eq_iff [] (b ∷ bs) = ground arith
ints_eq_iff (a ∷ as') [] = ground arith
ints_eq_iff (a ∷ as') (b ∷ bs) = ground (arith, ints_eq_iff as' bs, eqb_iff a b)
