-- ===== src/Prelude/Decimal.antt =====
-- std::to_string of integers, and the lists of them with commas in between.
use Prim.Native.Nat.{ℕ, zero, suc, ◌+◌, ◌-◌, ◌*◌, ◌/◌, ◌%◌, ◌^◌, ◌<◌, ◌≤◌}
use mathlib.Core.Path.{◌≡◌, refl, ap, ◌∙◌, sym, subst}
use mathlib.Core.Bool.{Bool, true, false}
use mathlib.Core.List.{List, [], ◌∷◌, ◌++◌, map, append-nil}
use mathlib.Core.Option.{some}
use native.Mathlib.Omega.{arith}
use myqueue.Prelude.Tests.{if◌then◌else◌, ltb, ◌==◌, if_ind}
use myqueue.Prelude.Lists.{All}
use myqueue.Prelude.Int.{ℤ, pos, negsuc}
use myqueue.Prelude.Parse.{
  digits_from, skip_space, stoi, split_on, push_front, signed, magnitude, is_digit, is_space,
}
use myqueue.Prelude.Text.{Bytes}

-- The digits in front of `acc`, at most as many as the fuel says.
unfoldable pub digits_to : ℕ → ℕ → Bytes → Bytes
digits_to zero n acc = acc
digits_to (suc fuel) n acc =
    let more = digits_to fuel (n / 10) ((b'0' + n % 10) ∷ acc) in
    if ltb n 10 then (b'0' + n) ∷ acc else more

-- A number of 64 bits has 20 digits at most.
unfoldable pub decimal : ℕ → Bytes
decimal n = digits_to 20 n []

unfoldable pub int_to_string : ℤ → Bytes
int_to_string (pos n) = decimal n
int_to_string (negsuc n) = b'-' ∷ decimal (suc n)

-- `for (i = 0; ...) { if (i > 0) s += ","; s += std::to_string(is[i]); }`, from the second round on.
unfoldable pub join_more : List ℤ → Bytes
join_more [] = []
join_more (i ∷ is) = b',' ∷ (int_to_string i ++ join_more is)

unfoldable pub join_ints : List ℤ → Bytes
join_ints [] = []
join_ints (i ∷ is) = int_to_string i ++ join_more is

-- The range of int.
abbrev pub IsInt32 : ℤ → Type 0
IsInt32 (pos n) = n < 2 ^ 31
IsInt32 (negsuc n) = n < 2 ^ 31

-- A text of digits and signs, without a comma.
abbrev pub Plain : Bytes → Type 0
Plain = All (λ c. b',' < c)

digits_to-Plain : (fuel n : ℕ) (acc : Bytes) → Plain acc → Plain (digits_to fuel n acc)
unfolding digits_to
digits_to-Plain zero n acc h = h
digits_to-Plain (suc fuel) n acc h =
    if_ind Plain (ltb n 10) (λ e. (omega arith, h))
      (λ e. digits_to-Plain fuel (n / 10) _ (omega arith, h))

digit_step :
    (a d : ℕ) (s : Bytes) → d < 10 → digits_from a ((b'0' + d) ∷ s) ≡ digits_from (a * 10 + d) s
unfolding digits_from
digit_step a d s h =
    let e : is_digit (b'0' + d) ≡ true = ground arith in
    let f : b'0' + d - b'0' ≡ d = omega arith in
    rw (e, digits_from) (ap (λ k. digits_from (a * 10 + k) s) f)

digits_from-digits_to :
    (fuel n : ℕ) (acc : Bytes)
    → n < 10 ^ fuel
    → digits_from 0 (digits_to fuel n acc) ≡ digits_from n acc
unfolding digits_to digits_from
digits_from-digits_to zero n acc h = ap (λ k. digits_from k acc) (omega arith)
digits_from-digits_to (suc fuel) n acc h =
    if_ind (λ t. digits_from 0 t ≡ digits_from n acc) (ltb n 10)
      (λ e. digit_step 0 n acc (ground arith) ∙ ap (λ k. digits_from k acc) (omega arith))
      (λ e.
        digits_from-digits_to fuel (n / 10) ((b'0' + n % 10) ∷ acc) (omega arith)
        ∙ digit_step (n / 10) (n % 10) acc (omega arith)
        ∙ ap (λ k. digits_from k acc) (omega arith))

-- The text of a number begins with a digit.
Leads : Bytes → Type 0
Leads s = (c : ℕ) × ((r : Bytes) × ((s ≡ c ∷ r) × ((b'0' ≤ c) × (c ≤ b'9'))))

digits_to-Leads : (fuel n : ℕ) (acc : Bytes) → Leads (digits_to (suc fuel) n acc)
unfolding digits_to Leads
digits_to-Leads zero n acc =
    if_ind Leads (ltb n 10) (λ e. (b'0' + n, (acc, (refl, (omega arith, ground arith)))))
      (λ e. (b'0' + n % 10, (acc, (refl, (omega arith, omega arith)))))
digits_to-Leads (suc fuel) n acc =
    if_ind Leads (ltb n 10) (λ e. (b'0' + n, (acc, (refl, (omega arith, ground arith)))))
      (λ e. digits_to-Leads fuel (n / 10) ((b'0' + n % 10) ∷ acc))

module _ (s : Bytes) (n : ℕ) (l : Leads s) (d : digits_from 0 s ≡ (n, [])) where
  magnitude_read : (neg : Bool) → magnitude neg s ≡ some (neg, n, [])
  unfolding Leads
  magnitude_read neg =
      let (c, (r, (e, (lo, hi)))) = l in
      let dig : is_digit c ≡ true = ground arith in
      rw (e, dig) (ap (λ (p : ℕ × Bytes). some (neg, p.0, p.1)) (ap (digits_from 0) (sym e) ∙ d))

  -- Without a sign in front.
  signed_read : signed (skip_space s) ≡ some (false, n, [])
  unfolding skip_space Leads
  signed_read =
      let (c, (r, (e, (lo, hi)))) = l in
      let sp : is_space c ≡ false = ground arith in
      let minus : (c == b'-') ≡ false = ground arith in
      let plus : (c == b'+') ≡ false = ground arith in
      rw (e, skip_space, sp, minus, plus) (ap (magnitude false) (sym e) ∙ magnitude_read false)

decimal-Leads : (n : ℕ) → Leads (decimal n)
unfolding decimal
decimal-Leads n = digits_to-Leads 19 n []

digits_from-decimal : (n : ℕ) → n < 2 ^ 64 → digits_from 0 (decimal n) ≡ (n, [])
unfolding decimal digits_from
digits_from-decimal n h = digits_from-digits_to 20 n [] (omega arith)

ltb_of : (a b : ℕ) → a < b → ltb a b ≡ true
ltb_of a b h = ground arith

pub stoi-int_to_string : (i : ℤ) → IsInt32 i → stoi (int_to_string i) ≡ some i
unfolding stoi int_to_string skip_space
stoi-int_to_string (pos n) h =
    rw (signed_read (decimal n) n (decimal-Leads n) (digits_from-decimal n (omega arith)), stoi)
      (rw (ltb_of n (2 ^ 31) h) refl)
stoi-int_to_string (negsuc n) h =
    rw
      (
        magnitude_read (decimal (suc n)) (suc n) (decimal-Leads (suc n))
            (digits_from-decimal (suc n) (omega arith)) true,
        stoi,
      )
      (ground arith)

pub int_to_string-Plain : (i : ℤ) → Plain (int_to_string i)
unfolding int_to_string decimal
int_to_string-Plain (pos n) = digits_to-Plain 20 n [] tt
int_to_string-Plain (negsuc n) = (omega arith, digits_to-Plain 20 (suc n) [] tt)

pub int_to_string-cons : (i : ℤ) → (c : ℕ) × ((r : Bytes) × (int_to_string i ≡ c ∷ r))
unfolding int_to_string Leads
int_to_string-cons (pos n) = let (c, (r, (e, h))) = decimal-Leads n in (c, (r, e))
int_to_string-cons (negsuc n) = (b'-', (decimal (suc n), refl))

-- std::getline with a comma, on texts without one.
split_front : (w rest : Bytes) → Plain w → split_on b',' (w ++ b',' ∷ rest) ≡ w ∷ split_on b',' rest
unfolding split_on push_front
split_front [] rest h = refl
split_front (c ∷ w) rest h =
    let e : (c == b',') ≡ false = ground arith in rw (e, split_front w rest h.1) refl

split_last : (c : ℕ) (w : Bytes) → Plain (c ∷ w) → split_on b',' (c ∷ w) ≡ (c ∷ w) ∷ []
unfolding split_on push_front
split_last c [] h = let e : (c == b',') ≡ false = ground arith in rw e refl
split_last c (d ∷ w) h =
    let e : (c == b',') ≡ false = ground arith in rw (e, split_last d w h.1) refl

pub split-join_ints : (is : List ℤ) → split_on b',' (join_ints is) ≡ map int_to_string is
unfolding join_ints join_more split_on
split-join_ints [] = refl
split-join_ints (i ∷ []) =
    let (c, (r, e)) = int_to_string-cons i in
    rw (append-nil (int_to_string i), e) (split_last c r (subst Plain e (int_to_string-Plain i)))
split-join_ints (i ∷ j ∷ is) =
    split_front (int_to_string i) (int_to_string j ++ join_more is) (int_to_string-Plain i)
    ∙ ap (◌∷◌ (int_to_string i)) (split-join_ints (j ∷ is))
