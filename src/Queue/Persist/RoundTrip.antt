-- ===== src/Queue/Persist/RoundTrip.antt =====
-- A queue read back from the file that it was saved in.
use mathlib.Core.List.{append-nil, append_assoc}
use myqueue.Prelude.{
  ℕ, suc, ◌^◌, ◌≤◌, ◌<◌, ◌≡◌, refl, sym, ap, ◌∙◌, Bool, true, false, some, List, [], ◌∷◌, ◌++◌, map,
  is_empty, if◌then◌else◌, arith, All,
}
use myqueue.Prelude.Map.{put, values, Asc}
use myqueue.Prelude.Text.{Bytes, text, text_eq, text_eq_iff}
use myqueue.Json.{Json, JsonLaws, Calendar, IsCalendar, ok}
use myqueue.Task.{Task}
use myqueue.Task.Record.{to_json, task_value}
use myqueue.Task.RoundTrip.{cut_times, from_json-to_json, field_read}
use myqueue.Queue.{TaskQueue}
use myqueue.Queue.Invariant.{IsValid, Keyed}
use myqueue.Queue.Persist.{
  Files, get_tasks_file_path, write_file, task_values, queue_value, save, load_tasks, read_queue,
  load,
}

abbrev pub cut_entries : List (ℕ × Task) → List (ℕ × Task)
cut_entries = map (λ (k, t). (k, cut_times t))

-- All keys are below `k`.
abbrev Under : ℕ → List (ℕ × Task) → Type 0
Under k = All (λ e. e.0 < k)

put_last : (k : ℕ) (t : Task) (m : List (ℕ × Task)) → Under k m → put k t m ≡ m ++ (k, t) ∷ []
unfolding put
put_last k t [] h = refl
put_last k t ((i, u) ∷ m) h = ground (arith, put_last k t m h.1)

Under-snoc :
    (k k' : ℕ) (t : Task) (m : List (ℕ × Task)) → Under k m → k < k' → Under k' (m ++ (k, t) ∷ [])
Under-snoc k k' t [] h l = (l, tt)
Under-snoc k k' t (e ∷ m) h l = (omega arith, Under-snoc k k' t m h.1 l)

Under-mono : (k k' : ℕ) (m : List (ℕ × Task)) → k ≤ k' → Under k m → Under k' m
Under-mono k k' [] l h = tt
Under-mono k k' (e ∷ m) l h = (omega arith, Under-mono k k' m l h.1)

module _ {Value : Type 0} (json : Json Value) (calendar : Calendar) (L : JsonLaws json)
    (C : IsCalendar calendar) where
  task_values-map :
      (ts : List Task) → task_values json calendar ts ≡ some (map (task_value json calendar) ts)
  unfolding task_values to_json
  task_values-map [] = refl
  task_values-map (t ∷ ts) =
      ground (arith, L.parse-dump (task_value json calendar t), task_values-map ts)

  load_tasks-append :
      (n lo : ℕ) (acc m : List (ℕ × Task))
      → n < 2 ^ 64
      → Under lo acc
      → Asc lo m
      → Keyed n m
      → load_tasks json calendar acc (map (task_value json calendar) (values m))
        ≡ ok (acc ++ cut_entries m)
  unfolding load_tasks to_json
  load_tasks-append n lo acc [] b u a k = ap ok (sym (append-nil acc))
  load_tasks-append n lo acc ((i, t) ∷ m) b u a k =
      let rest = map (task_value json calendar) (values m) in
      rw (← to_json_lem t, (from_json-to_json json calendar t L C (omega arith)).0)
        (ap (λ m'. load_tasks json calendar m' rest)
            (ap (λ j. put j (cut_times t) acc) k.0
              ∙ put_last i (cut_times t) acc (Under-mono lo i acc a.0 u))
          ∙ load_tasks-append n (suc i) (acc ++ (i, cut_times t) ∷ []) m b
              (Under-snoc i (suc i) (cut_times t) acc (Under-mono lo i acc a.0 u) (omega arith)) a.1
              k.2
          ∙ ap ok (append_assoc acc ((i, cut_times t) ∷ []) (cut_entries m)))
    where
      to_json_lem : (t : Task) → to_json json calendar t ≡ json.dump (task_value json calendar t)
      to_json_lem t = refl

  module _ (q : TaskQueue) (v : IsValid q) (room : q.next_id < 2 ^ 64) where
    abbrev saved : Value
    saved = queue_value json calendar q (map (task_value json calendar) (values q.tasks))

    at-next_id : json.at (text "next_id") saved ≡ some (json.of_uint q.next_id)
    unfolding queue_value text_eq
    at-next_id = simp L.at-set

    at-tasks :
        json.at (text "tasks") saved
        ≡ some (json.array (map (task_value json calendar) (values q.tasks)))
    unfolding queue_value text_eq
    at-tasks = simp L.at-set

    read_queue-saved :
        read_queue json calendar (json.dump_indented saved) ≡ ok (q.next_id, cut_entries q.tasks)
    unfolding read_queue
    read_queue-saved = rw (
      L.parse-dump_indented saved,
      field_read json calendar L C (text "next_id") json.get_uint saved _ _ at-next_id
          (L.get_uint-of_uint q.next_id room),
      at-tasks,
      L.elements-array (map (task_value json calendar) (values q.tasks)),
      load_tasks-append q.next_id 0 [] q.tasks room tt v.ascending v.keyed,
    )

    saved_file :
        (can_write : Bytes → Bool) (files : Files)
        → is_empty q.data_dir ≡ false
        → can_write (get_tasks_file_path q) ≡ true
        → save json calendar can_write q files (get_tasks_file_path q)
          ≡ some (json.dump_indented saved)
    unfolding save write_file
    saved_file can_write files named opens =
        rw (named, task_values-map (values q.tasks), opens)
          (rw ((text_eq_iff (get_tasks_file_path q) (get_tasks_file_path q)).1 refl) refl)

path_of_dir :
    (p q : TaskQueue) → p.data_dir ≡ q.data_dir → get_tasks_file_path p ≡ get_tasks_file_path q
unfolding get_tasks_file_path
path_of_dir p q e = ap (λ dir. if is_empty dir then [] else dir ++ text "/tasks.json") e

load_found :
    {Value : Type 0} (json : Json Value) (calendar : Calendar) (q : TaskQueue) (files : Files)
    (content : Bytes) (next_id : ℕ) (m : List (ℕ × Task))
    → is_empty q.data_dir ≡ false
    → files (get_tasks_file_path q) ≡ some content
    → read_queue json calendar content ≡ ok (next_id, m)
    → load json calendar q files ≡ record q { tasks = m; next_id = next_id }
unfolding load
load_found json calendar q files content next_id m named there reads =
    rw (named, there, reads, load) refl

-- A well-formed queue with a directory and a next id below 2^64, saved to a file that opens and loaded
-- by a queue with the same directory, comes back with its next id and all its tasks, their times cut to
-- whole seconds. The JSON library and the calendar keep their laws.
pub load-save :
    {Value : Type 0} (json : Json Value) (calendar : Calendar) (can_write : Bytes → Bool)
    (q fresh : TaskQueue) (files : Files)
    → JsonLaws json
    → IsCalendar calendar
    → IsValid q
    → q.next_id < 2 ^ 64
    → is_empty q.data_dir ≡ false
    → fresh.data_dir ≡ q.data_dir
    → can_write (get_tasks_file_path q) ≡ true
    → load json calendar fresh (save json calendar can_write q files)
      ≡ record q { tasks = cut_entries q.tasks }
load-save json calendar can_write q fresh files L C v room named same opens =
    load_found json calendar fresh _ _ q.next_id (cut_entries q.tasks) (ap is_empty same ∙ named)
      (ap (save json calendar can_write q files) (path_of_dir fresh q same)
        ∙ saved_file json calendar L C q v room can_write files named opens)
      (read_queue-saved json calendar L C q v room)
    ∙ ap (λ dir. record q { data_dir = dir; tasks = cut_entries q.tasks }) same
