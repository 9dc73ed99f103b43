-- ===== src/Queue/IdRange.antt =====
-- TaskQueue::parseIdRange of src/core/task_queue.cpp. Its loop counts a uint64_t up to `end`, so it
-- runs on fuel; `none` means that the fuel ran out.
use myqueue.Prelude.{
  ℕ, zero, suc, ◌+◌, ◌-◌, ◌%◌, ◌<◌, ◌≡◌, refl, ◌&&◌, Option, none, some, List, [], ◌∷◌, ◌++◌,
  length, if◌then◌else◌, ltb, leb, arith, drop, Bool-cases, inl, inr, ap, ◌∙◌,
}
use myqueue.Prelude.Text.{Bytes}
use myqueue.Prelude.Parse.{index_of, stoull, substr}
use myqueue.Queue.{u64_mod}
use mathlib.Core.List.{append-nil, append_assoc}

-- `for (uint64_t i = start; i <= end; ++i) ids.push_back(i)`
id_loop : ℕ → ℕ → ℕ → List ℕ → Option (List ℕ)
id_loop zero i end ids = none
id_loop (suc fuel) i end ids =
    let more = id_loop fuel ((i + 1) % u64_mod) end (ids ++ i ∷ []) in
    if leb i end then more else some ids

-- A failed std::stoull leaves the list empty.
id_range : ℕ → Option ℕ → Option ℕ → Option (List ℕ)
id_range fuel none end = some []
id_range fuel (some start) none = some []
id_range fuel (some start) (some end) =
    let ids = id_loop fuel start end [] in if leb start end then ids else some []

unfoldable pub single_id : Option ℕ → List ℕ
single_id none = []
single_id (some id) = id ∷ []

-- `dash_pos != npos && dash_pos > 0 && dash_pos < range_str.length() - 1`
unfoldable pub range_dash : Bytes → Option ℕ
range_dash s = elim (index_of b'-' s) [
  | none ↦ none
  | some d ↦ if ltb 0 d && ltb d (length s - 1) then some d else none
]

unfoldable pub parse_id_range : ℕ → Bytes → Option (List ℕ)
unfolding id_loop id_range single_id range_dash
parse_id_range fuel s = elim (range_dash s) [
  | some d ↦ id_range fuel (stoull (substr s 0 d)) (stoull (drop (d + 1) s))
  | none ↦ some (single_id (stoull s))
]

-- The ids from `i` on, `n` of them.
abbrev pub from : ℕ → ℕ → List ℕ
from i zero = []
from i (suc n) = i ∷ from (suc i) n

next_id_value : (i : ℕ) → suc i < u64_mod → (i + 1) % u64_mod ≡ suc i
next_id_value i h = omega arith

id_loop-from :
    (n fuel i end : ℕ) (ids : List ℕ)
    → i + n ≡ suc end
    → n < fuel
    → suc end < u64_mod
    → id_loop fuel i end ids ≡ some (ids ++ from i n)
unfolding id_loop
id_loop-from n zero i end ids e f b = elim f [ ]
id_loop-from zero (suc fuel) i end ids e f b = ground (arith, append-nil ids)
id_loop-from (suc n) (suc fuel) i end ids e f b = elim (Bool-cases (leb i end)) [
  | inr q ↦ absurd (ground arith)
  | inl q ↦
      rw (q, next_id_value i (omega arith))
        (id_loop-from n fuel (suc i) end (ids ++ i ∷ []) (omega arith) (omega arith) b
          ∙ ap some (append_assoc ids (i ∷ []) (from (suc i) n)))
]

-- At the largest uint64_t the counter wraps round below the limit, so the loop never ends.
id_loop_endless :
    (fuel i : ℕ) (ids : List ℕ) → i < u64_mod → id_loop fuel i (u64_mod - 1) ids ≡ none
unfolding id_loop
id_loop_endless zero i ids h = refl
id_loop_endless (suc fuel) i ids h =
    ground (arith, id_loop_endless fuel ((i + 1) % u64_mod) (ids ++ i ∷ []) (omega arith))

-- A range of two numbers, neither of them the largest uint64_t: the loop ends once there is more fuel
-- than ids, with the ids from the first number to the second in order, none if the second is smaller.
pub parse_id_range-from :
    (fuel start end d : ℕ) (s : Bytes)
    → range_dash s ≡ some d
    → stoull (substr s 0 d) ≡ some start
    → stoull (drop (d + 1) s) ≡ some end
    → suc end < u64_mod
    → suc end - start < fuel
    → parse_id_range fuel s ≡ some (from start (suc end - start))
unfolding parse_id_range
parse_id_range-from fuel start end d s r a b room f = elim (Bool-cases (leb start end)) [
  | inl q ↦
      rw (r, a, b, parse_id_range)
        (rw q (id_loop-from (suc end - start) fuel start end [] (ground arith) f room))
  | inr q ↦ rw (r, a, b, parse_id_range) (rw q (ground arith))
]

endless_range :
    (fuel start : ℕ) → start < u64_mod → id_range fuel (some start) (some (u64_mod - 1)) ≡ none
unfolding id_range
endless_range fuel start room = ground (arith, id_loop_endless fuel start [] room)

-- A range that ends at the largest uint64_t never returns, whatever the fuel.
pub parse_id_range_endless :
    (fuel start d : ℕ) (s : Bytes)
    → range_dash s ≡ some d
    → stoull (substr s 0 d) ≡ some start
    → stoull (drop (d + 1) s) ≡ some (u64_mod - 1)
    → start < u64_mod
    → parse_id_range fuel s ≡ none
unfolding parse_id_range
parse_id_range_endless fuel start d s r a b room =
    rw (r, a, b, parse_id_range) (endless_range fuel start room)
