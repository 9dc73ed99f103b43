-- ===== src/Json.antt =====
-- json.hpp, the library that the program calls: its values, texts and conversions are parameters.
-- `none` is a json::exception. The laws are what its documentation promises for texts in UTF-8, for
-- numbers in the range of their C++ type and for finite doubles, which are bit patterns.
use myqueue.Prelude.{
  ℕ, ◌^◌, ◌/◌, ◌%◌, ◌<◌, ◌≡◌, Bool, true, false, Option, none, some, List, ◌∷◌, All, length,
  if◌then◌else◌,
}
use myqueue.Prelude.Int.{ℤ, pos, negsuc}
use myqueue.Prelude.Text.{Bytes, text, text_eq}

pub record Json (Value : Type 0) : Type 0 where
  pub of_uint : ℕ → Value
  pub of_int : ℤ → Value
  pub of_int64 : ℤ → Value
  pub of_double : ℕ → Value
  pub of_text : Bytes → Value
  pub of_bool : Bool → Value
  pub of_ints : List ℤ → Value
  pub of_uints : List ℕ → Value
  pub of_bools : List Bool → Value
  pub null : Value
  pub array : List Value → Value
  pub object : Value
  pub set : Bytes → Value → Value → Value
  pub at : Bytes → Value → Option Value
  pub get_uint : Value → Option ℕ
  pub get_int : Value → Option ℤ
  pub get_int64 : Value → Option ℤ
  pub get_double : Value → Option ℕ
  pub get_text : Value → Option Bytes
  pub get_bool : Value → Option Bool
  pub get_ints : Value → Option (List ℤ)
  pub get_uints : Value → Option (List ℕ)
  pub get_bools : Value → Option (List Bool)
  pub elements : Value → List Value
  pub is_null : Value → Bool
  pub is_string : Value → Bool
  pub is_object : Value → Bool
  pub dump : Value → Bytes
  pub dump_indented : Value → Bytes
  pub parse : Bytes → Option Value

-- The range of int64_t.
abbrev pub IsInt64 : ℤ → Type 0
IsInt64 (pos n) = n < 2 ^ 63
IsInt64 (negsuc n) = n < 2 ^ 63

-- The exponent of a double that is finite.
abbrev pub IsFinite : ℕ → Type 0
IsFinite d = d / 2 ^ 52 % 2 ^ 11 < 2047

pub record JsonLaws {Value : Type 0} (json : Json Value) : Type 0 where
  pub get_uint-of_uint : (n : ℕ) → n < 2 ^ 64 → json.get_uint (json.of_uint n) ≡ some n
  pub get_int-of_int : (i : ℤ) → json.get_int (json.of_int i) ≡ some i
  pub get_int64-of_int64 : (i : ℤ) → IsInt64 i → json.get_int64 (json.of_int64 i) ≡ some i
  pub get_double-of_double : (d : ℕ) → IsFinite d → json.get_double (json.of_double d) ≡ some d
  pub get_text-of_text : (s : Bytes) → json.get_text (json.of_text s) ≡ some s
  pub get_bool-of_bool : (b : Bool) → json.get_bool (json.of_bool b) ≡ some b
  pub get_ints-of_ints : (is : List ℤ) → json.get_ints (json.of_ints is) ≡ some is
  pub get_uints-of_uints :
      (ns : List ℕ) → All (λ n. n < 2 ^ 64) ns → json.get_uints (json.of_uints ns) ≡ some ns
  pub get_bools-of_bools : (bs : List Bool) → json.get_bools (json.of_bools bs) ≡ some bs
  -- An object is no boolean: a list with one in front is no list of booleans.
  pub get_bools-object :
      (k : Bytes) (v o : Value) (vs : List Value)
      → json.is_object o ≡ true
      → json.get_bools (json.array (json.set k v o ∷ vs)) ≡ none
  pub elements-array : (vs : List Value) → json.elements (json.array vs) ≡ vs
  pub is_null-null : json.is_null json.null ≡ true
  pub is_null-of_text : (s : Bytes) → json.is_null (json.of_text s) ≡ false
  pub is_string-of_text : (s : Bytes) → json.is_string (json.of_text s) ≡ true
  pub is_string_of-is_object : (v : Value) → json.is_object v ≡ true → json.is_string v ≡ false
  pub is_object-object : json.is_object json.object ≡ true
  pub is_object-set :
      (k : Bytes) (v o : Value) → json.is_object o ≡ true → json.is_object (json.set k v o) ≡ true
  pub at-object : (k : Bytes) → json.at k json.object ≡ none
  pub at-set :
      (j k : Bytes) (v o : Value)
      → json.at j (json.set k v o) ≡ (if text_eq k j then some v else json.at j o)
  pub dump-object : json.dump json.object ≡ text "{}"
  pub dump_some : (k : Bytes) (v o : Value) → 0 < length (json.dump (json.set k v o))
  pub parse-dump : (v : Value) → json.parse (json.dump v) ≡ some v
  pub parse-dump_indented : (v : Value) → json.parse (json.dump_indented v) ≡ some v

-- gmtime_r with std::put_time, and std::get_time with timegm, in the format of ISO 8601: they print
-- and read a count of seconds.
pub record Calendar : Type 0 where
  pub print_time : ℕ → Bytes
  pub read_time : Bytes → Option ℕ

abbrev pub IsCalendar : Calendar → Type 0
IsCalendar c = (s : ℕ) → c.read_time (c.print_time s) ≡ some s

-- What a deserialiser throws: MyQueueException with FILE_PARSE_ERROR, std::invalid_argument or
-- std::runtime_error.
pub data Thrown : Type 0 where
  parse_error invalid_argument runtime_error : Thrown

pub data Result {ℓ} (A : Type ℓ) : Type ℓ where
  ok : A → Result A
  err : Thrown → Result A

infixl 5 ◌>>=◌
abbrev pub ◌>>=◌ {ℓ κ} : {A : Type ℓ} {B : Type κ} → Result A → (A → Result B) → Result B
ok a >>= f = f a
err e >>= f = err e

abbrev pub or_throw {ℓ} : {A : Type ℓ} → Thrown → Option A → Result A
or_throw e none = err e
or_throw e (some a) = ok a
