-- ===== src/Prelude/Members.antt =====
-- Boolean facts about all elements of a list, through appending, filtering and permuting.
use mathlib.Core.Path.{◌≡◌, refl, ap, ◌∙◌}
use mathlib.Core.Bool.{Bool, true, ◌||◌, Bool-set}
use mathlib.Core.List.{
  List, [], ◌∷◌, ◌++◌, Mem, Perm, mem-cons, mem-cons_self, mem-cons_of_mem, not-mem-nil,
}
use mathlib.Core.List.Perm
use mathlib.Core.Logic.Or
use native.Mathlib.Omega.{arith}
use myqueue.Prelude.Tests.{if_ind}
use myqueue.Prelude.Lists.{All, keep}
use myqueue.Prelude.Int.{ℤ}
use myqueue.Prelude.Set.{contains}

module _ {ℓ} {A : Type ℓ} where
  pub All-append {κ} : (P : A → Type κ) (xs ys : List A) → All P xs → All P ys → All P (xs ++ ys)
  All-append P [] ys hx hy = hy
  All-append P (x ∷ xs) ys hx hy = (hx.0, All-append P xs ys hx.1 hy)

  pub All-map {κ μ} :
      {P : A → Type κ} {Q : A → Type μ} (f : (x : A) → P x → Q x) (xs : List A)
      → All P xs
      → All Q xs
  All-map f [] h = tt
  All-map f (x ∷ xs) h = (f x h.0, All-map f xs h.1)

  pub All-zip {κ μ} :
      (P : A → Type κ) (Q : A → Type μ) (xs : List A)
      → All P xs
      → All Q xs
      → All (λ x. P x × Q x) xs
  All-zip P Q [] h k = tt
  All-zip P Q (x ∷ xs) h k = ((h.0, k.0), All-zip P Q xs h.1 k.1)

  pub All-keep {κ} : (P : A → Type κ) (p : A → Bool) (xs : List A) → All P xs → All P (keep p xs)
  All-keep P p [] h = tt
  All-keep P p (x ∷ xs) h =
      if_ind (All P) (p x) (λ _. (h.0, All-keep P p xs h.1)) (λ _. All-keep P p xs h.1)

  pub keep_passes : (p : A → Bool) (xs : List A) → All (λ x. p x ≡ true) (keep p xs)
  keep_passes p [] = tt
  keep_passes p (x ∷ xs) =
      if_ind (All (λ y. p y ≡ true)) (p x) (λ e. (e, keep_passes p xs)) (λ _. keep_passes p xs)

  module _ (p : A → Bool) (b : Bool) where
    pub All-at : (x : A) (xs : List A) → All (λ y. p y ≡ b) xs → Mem x xs → p x ≡ b
    All-at x [] h m = absurd (not-mem-nil m)
    All-at x (y ∷ xs) h m =
        Or.elim (Bool-set _ _) (mem-cons.0 m) (λ e. ap p e ∙ h.0) (λ r. All-at x xs h.1 r)

    pub All-from : (xs : List A) → ((x : A) → Mem x xs → p x ≡ b) → All (λ y. p y ≡ b) xs
    All-from [] h = tt
    All-from (x ∷ xs) h = (h x mem-cons_self, All-from xs (λ y m. h y (mem-cons_of_mem x m)))

    pub All-perm : (xs ys : List A) → Perm xs ys → All (λ y. p y ≡ b) ys → All (λ y. p y ≡ b) xs
    All-perm xs ys e h = All-from xs (λ x m. All-at x ys h ((Perm.mem_iff e).0 m))

pub contains-append :
    (j : ℤ) (xs ys : List ℤ) → contains j (xs ++ ys) ≡ (contains j xs || contains j ys)
unfolding contains
contains-append j [] ys = refl
contains-append j (x ∷ xs) ys = ground (arith, contains-append j xs ys)
