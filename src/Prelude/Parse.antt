-- ===== src/Prelude/Parse.antt =====
-- What the program uses of the standard library on texts: searches of std::string, std::getline, the
-- std::sto* family and the extraction of unsigned numbers from a stream.
use Prim.Native.Nat.{ℕ, suc, ◌+◌, ◌-◌, ◌*◌, ◌%◌, ◌^◌}
use mathlib.Core.Bool.{Bool, true, false, ◌&&◌, ◌||◌}
use mathlib.Core.List.{List, [], ◌∷◌}
use mathlib.Core.Option
use mathlib.Core.Option.{Option, none, some}
use myqueue.Prelude.Tests.{if◌then◌else◌, ltb, leb, ◌==◌}
use myqueue.Prelude.Lists.{take, drop}
use myqueue.Prelude.Int.{ℤ, pos, negsuc}
use myqueue.Prelude.Text.{Bytes}

one_of : Bytes → ℕ → Bool
one_of [] c = false
one_of (d ∷ ds) c = d == c || one_of ds c

-- `s.find(c)`
unfoldable pub index_of : ℕ → Bytes → Option ℕ
index_of c [] = none
index_of c (d ∷ s) = if d == c then some 0 else Option.map (λ i. suc i) (index_of c s)

-- `s.find_first_not_of(cs)`
unfoldable pub find_first_not_of : Bytes → Bytes → Option ℕ
unfolding one_of
find_first_not_of cs [] = none
find_first_not_of cs (d ∷ s) =
    if one_of cs d then Option.map (λ i. suc i) (find_first_not_of cs s) else some 0

-- `s.find_last_not_of(cs)`
unfoldable pub find_last_not_of : Bytes → Bytes → Option ℕ
unfolding one_of
find_last_not_of cs [] = none
find_last_not_of cs (d ∷ s) = elim (find_last_not_of cs s) [
  | some i ↦ some (suc i)
  | none ↦ if one_of cs d then none else some 0
]

-- `s.substr(pos, n)`, for a position in the text.
abbrev pub substr : Bytes → ℕ → ℕ → Bytes
substr s i n = take n (drop i s)

unfoldable pub push_front : ℕ → List Bytes → List Bytes
push_front c [] = (c ∷ []) ∷ []
push_front c (l ∷ ls) = (c ∷ l) ∷ ls

-- The results of std::getline with this delimiter, until it fails: what follows the last delimiter is
-- a line only if it is not empty.
unfoldable pub split_on : ℕ → Bytes → List Bytes
unfolding push_front
split_on d [] = []
split_on d (c ∷ s) = if c == d then [] ∷ split_on d s else push_front c (split_on d s)

abbrev pub is_digit : ℕ → Bool
is_digit c = leb b'0' c && leb c b'9'

abbrev pub is_space : ℕ → Bool
is_space c = c == 32 || leb 9 c && leb c 13

unfoldable pub skip_space : Bytes → Bytes
skip_space [] = []
skip_space (c ∷ s) = if is_space c then skip_space s else c ∷ s

-- The value of the leading digits, after the digits that `acc` stands for, and what follows them.
unfoldable pub digits_from : ℕ → Bytes → ℕ × Bytes
digits_from acc [] = (acc, [])
digits_from acc (c ∷ s) = elim (is_digit c) [
  | true ↦ digits_from (acc * 10 + (c - b'0')) s
  | false ↦ (acc, c ∷ s)
]

-- A number in decimal as strtol and strtoull read it: whether there is a minus sign, the absolute
-- value and the rest. `none` if there is no digit.
abbrev pub magnitude : Bool → Bytes → Option (Bool × ℕ × Bytes)
magnitude neg [] = none
magnitude neg (c ∷ s) =
    if is_digit c then some (let (v, r) = digits_from 0 (c ∷ s) in (neg, v, r)) else none

abbrev pub signed : Bytes → Option (Bool × ℕ × Bytes)
signed [] = none
signed (c ∷ s) =
    if c == b'-'
    then magnitude true s
    else if c == b'+'
    then magnitude false s
    else magnitude false (c ∷ s)

-- `std::stoull` and `std::stoul` of a 64-bit machine; `none` is the exception. A minus sign is taken,
-- and the value is negated modulo 2^64.
unfoldable pub stoull : Bytes → Option ℕ
unfolding skip_space digits_from
stoull s = elim (signed (skip_space s)) [
  | none ↦ none
  | some (neg, v, r) ↦
      if ltb v (2 ^ 64) then some (if neg then (2 ^ 64 - v) % 2 ^ 64 else v) else none
]

abbrev pub to_int : Bool → ℕ → ℤ
to_int false v = pos v
to_int true v = if v == 0 then pos 0 else negsuc (v - 1)

-- `std::stoi`; `none` is the exception.
unfoldable pub stoi : Bytes → Option ℤ
unfolding skip_space digits_from
stoi s = elim (signed (skip_space s)) [
  | none ↦ none
  | some (neg, v, r) ↦
      if (if neg then leb v (2 ^ 31) else ltb v (2 ^ 31)) then some (to_int neg v) else none
]

-- A stream, or `none` once it has failed.
abbrev pub Stream : Type 0
Stream = Option Bytes

-- `stream >> x` for an unsigned long long `x`: the new value of `x` and the stream. A stream that has
-- failed leaves `x`; a failure sets `x` to 0, or to the largest value if the number is too large.
unfoldable pub extract_ull : Stream → ℕ → ℕ × Stream
unfolding skip_space digits_from
extract_ull none x = (x, none)
extract_ull (some s) x = elim (signed (skip_space s)) [
  | none ↦ (0, none)
  | some (neg, v, r) ↦
      if ltb v (2 ^ 64)
      then (if neg then (2 ^ 64 - v) % 2 ^ 64 else v, some r)
      else (2 ^ 64 - 1, none)
]

-- `stream >> word`: the leading non-blank characters.
unfoldable pub word : Bytes → Bytes × Bytes
word [] = ([], [])
word (c ∷ s) = if is_space c then ([], c ∷ s) else let (w, r) = word s in (c ∷ w, r)
