-- ===== src/Tests/Values.antt =====
-- A concrete library of values in place of json.hpp, and a concrete calendar. A value is a list of
-- texts: a leaf, the elements of an array, or keys and values in turn.
use myqueue.Prelude.{
  ℕ, zero, suc, ◌<◌, ◌≡◌, refl, ap, ap₂, ◌∙◌, Bool, true, false, Option, none, some, List, [], ◌∷◌,
  map, is_empty, length, arith, bit, if◌then◌else◌, ◌==◌,
}
use myqueue.Prelude.Int.{ℤ, pos, negsuc}
use myqueue.Prelude.Text.{Bytes, text, text_eq}
use myqueue.Json.{Json, JsonLaws, Calendar, IsCalendar}

abbrev pub Value : Type 0
Value = List Bytes

-- Each text is shifted by one and ended by 0.
unfoldable pub encode_one : Bytes → Bytes → Bytes
encode_one [] rest = 0 ∷ rest
encode_one (b ∷ bs) rest = suc b ∷ encode_one bs rest

unfoldable pub encode : Value → Bytes
encode [] = []
encode (s ∷ v) = encode_one s (encode v)

unfoldable pub push : ℕ → Value → Value
push b [] = (b ∷ []) ∷ []
push b (s ∷ v) = (b ∷ s) ∷ v

unfoldable pub decode : Bytes → Value
decode [] = []
decode (zero ∷ bs) = [] ∷ decode bs
decode (suc b ∷ bs) = push b (decode bs)

decode-encode_one : (s rest : Bytes) → decode (encode_one s rest) ≡ s ∷ decode rest
unfolding decode encode_one push
decode-encode_one [] rest = refl
decode-encode_one (b ∷ s) rest = ap (push b) (decode-encode_one s rest)

decode-encode : (v : Value) → decode (encode v) ≡ v
unfolding decode encode
decode-encode [] = refl
decode-encode (s ∷ v) = decode-encode_one s (encode v) ∙ ap (◌∷◌ s) (decode-encode v)

unfoldable pub int_text : ℤ → Bytes
int_text (pos n) = 0 ∷ n ∷ []
int_text (negsuc n) = 1 ∷ n ∷ []

pub text_int : Bytes → ℤ
text_int (zero ∷ n ∷ s) = pos n
text_int (suc k ∷ n ∷ s) = negsuc n
text_int s = pos 0

text_int-int_text : (i : ℤ) → text_int (int_text i) ≡ i
unfolding text_int int_text
text_int-int_text (pos n) = refl
text_int-int_text (negsuc n) = refl

ints_back : (is : List ℤ) → map text_int (map int_text is) ≡ is
ints_back [] = refl
ints_back (i ∷ is) = ap₂ ◌∷◌ (text_int-int_text i) (ints_back is)

values_back : (vs : List Value) → map decode (map encode vs) ≡ vs
values_back [] = refl
values_back (v ∷ vs) = ap₂ ◌∷◌ (decode-encode v) (values_back vs)

pub lookup : Bytes → Value → Option Value
lookup j [] = none
lookup j (k ∷ []) = none
lookup j (k ∷ v ∷ o) = if text_eq k j then some (decode v) else lookup j o

pub head_text : Value → Option Bytes
head_text [] = none
head_text (s ∷ v) = some s

pub uint_of : Value → Option ℕ
uint_of ((n ∷ s) ∷ v) = some n
uint_of v = none

pub int_of : Value → Option ℤ
int_of (s ∷ v) = some (text_int s)
int_of [] = none

pub first_number : Bytes → ℕ
first_number [] = 0
first_number (n ∷ s) = n

pub bool_of : Value → Option Bool
bool_of ((n ∷ s) ∷ v) = some (n == 1)
bool_of v = none

-- A text has one entry, and an object an even number of them.
pub is_one : Value → Bool
is_one (s ∷ []) = true
is_one _ = false

pub is_even : Value → Bool
is_even [] = true
is_even (s ∷ []) = false
is_even (k ∷ s ∷ v) = is_even v

pub bool_text : Bytes → Option Bool
bool_text (n ∷ []) = some (n == 1)
bool_text _ = none

pub bools_of : Value → Option (List Bool)
bools_of [] = some []
bools_of (s ∷ v) = elim (bool_text s) [
  | none ↦ none
  | some b ↦ elim (bools_of v) [ none ↦ none | some bs ↦ some (b ∷ bs) ]
]

unfoldable pub dump_of : Value → Bytes
dump_of [] = text "{}"
dump_of (s ∷ v) = encode (s ∷ v)

unfoldable pub parse_of : Bytes → Option Value
parse_of s = if text_eq s (text "{}") then some [] else some (decode s)

abbrev pub values_json : Json Value
values_json = record {
  of_uint = λ n. (n ∷ []) ∷ [];
  of_int = λ i. int_text i ∷ [];
  of_int64 = λ i. int_text i ∷ [];
  of_double = λ d. (d ∷ []) ∷ [];
  of_text = λ s. s ∷ [];
  of_bool = λ b. (bit b ∷ []) ∷ [];
  of_ints = map int_text;
  of_uints = map (λ n. n ∷ []);
  of_bools = map (λ b. bit b ∷ []);
  null = [];
  array = map encode;
  object = [];
  set = λ k v o. k ∷ encode v ∷ o;
  at = lookup;
  get_uint = uint_of;
  get_int = int_of;
  get_int64 = int_of;
  get_double = uint_of;
  get_text = head_text;
  get_bool = bool_of;
  get_ints = λ v. some (map text_int v);
  get_uints = λ v. some (map first_number v);
  get_bools = bools_of;
  elements = map decode;
  is_null = is_empty;
  is_string = is_one;
  is_object = is_even;
  dump = dump_of;
  dump_indented = dump_of;
  parse = parse_of;
}

uints_back : (ns : List ℕ) → map first_number (map (λ n. n ∷ []) ns) ≡ ns
unfolding first_number
uints_back [] = refl
uints_back (n ∷ ns) = ap (◌∷◌ n) (uints_back ns)

bool_back : (b : Bool) → bool_of ((bit b ∷ []) ∷ []) ≡ some b
unfolding bool_of
bool_back true = refl
bool_back false = refl

set_back :
    (j k : Bytes) (v o : Value)
    → lookup j (k ∷ encode v ∷ o) ≡ (if text_eq k j then some v else lookup j o)
unfolding lookup
set_back j k v o = ap (λ w. if text_eq k j then some w else lookup j o) (decode-encode v)

bools_back : (bs : List Bool) → bools_of (map (λ b. bit b ∷ []) bs) ≡ some bs
unfolding bools_of bool_text
bools_back [] = refl
bools_back (true ∷ bs) = rw (bools_back bs) refl
bools_back (false ∷ bs) = rw (bools_back bs) refl

no_bool : (k s : Bytes) (o : Value) → bool_text (encode (k ∷ s ∷ o)) ≡ none
unfolding bool_text encode encode_one
no_bool [] [] o = refl
no_bool [] (b ∷ s) o = refl
no_bool (b ∷ []) s o = refl
no_bool (b ∷ c ∷ k) s o = refl

no_bools : (k s : Bytes) (o vs : Value) → bools_of (encode (k ∷ s ∷ o) ∷ vs) ≡ none
unfolding bools_of
no_bools k s o vs = rw (no_bool k s o, bools_of) refl

encode_some : (k s : Bytes) (o : Value) → 0 < length (encode (k ∷ s ∷ o))
unfolding encode encode_one
encode_some [] s o = omega arith
encode_some (b ∷ k) s o = omega arith

no_braces : (s : Bytes) (v : Value) → text_eq (encode (s ∷ v)) (text "{}") ≡ false
unfolding encode encode_one text_eq
no_braces [] v = refl
no_braces (b ∷ []) v = ground arith
no_braces (b ∷ c ∷ []) v = ground arith
no_braces (b ∷ c ∷ d ∷ s) v = ground arith

parse_back : (v : Value) → parse_of (dump_of v) ≡ some v
unfolding parse_of dump_of text_eq
parse_back [] = refl
parse_back (s ∷ v) = rw (no_braces s v) (ap some (decode-encode (s ∷ v)))

even_not_one : (v : Value) → is_even v ≡ true → is_one v ≡ false
unfolding is_even is_one
even_not_one [] h = refl
even_not_one (s ∷ []) h = cc
even_not_one (k ∷ s ∷ v) h = refl

pub values_laws : JsonLaws values_json
unfolding uint_of head_text int_of is_one is_even lookup dump_of
values_laws = record {
  get_uint-of_uint = λ n h. refl;
  get_int-of_int = λ i. ap some (text_int-int_text i);
  get_int64-of_int64 = λ i h. ap some (text_int-int_text i);
  get_double-of_double = λ d h. refl;
  get_text-of_text = λ s. refl;
  get_bool-of_bool = bool_back;
  get_ints-of_ints = λ is. ap some (ints_back is);
  get_uints-of_uints = λ ns h. ap some (uints_back ns);
  get_bools-of_bools = bools_back;
  get_bools-object = λ k v o vs h. no_bools k (encode v) o (map encode vs);
  elements-array = values_back;
  is_null-null = refl;
  is_null-of_text = λ s. refl;
  is_string-of_text = λ s. refl;
  is_string_of-is_object = even_not_one;
  is_object-object = refl;
  is_object-set = λ k v o h. h;
  at-object = λ k. refl;
  at-set = set_back;
  dump-object = refl;
  dump_some = λ k v o. encode_some k (encode v) o;
  parse-dump = parse_back;
  parse-dump_indented = parse_back;
}

-- The seconds stand in the text as they are.
pub seconds_text : Bytes → Option ℕ
seconds_text [] = none
seconds_text (n ∷ s) = some n

abbrev pub plain_calendar : Calendar
plain_calendar = record { print_time = λ s. s ∷ []; read_time = seconds_text }

pub plain_IsCalendar : IsCalendar plain_calendar
unfolding seconds_text
plain_IsCalendar s = refl
