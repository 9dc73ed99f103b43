-- ===== src/Queue/Batch.antt =====
-- submitBatch, submitBatchFromFile and parseWorkdirsFile of src/core/task_queue.cpp. Whether stat finds
-- a directory under a path is a parameter.
use myqueue.Prelude.{
  ℕ, zero, suc, ◌+◌, ◌<◌, ◌≡◌, refl, ap, ◌∙◌, Bool, true, false, Option, none, some, List, [], ◌∷◌,
  length, is_empty, drop, take, nth, All, if◌then◌else◌, ◌==◌, arith, Option-cases, inl, inr,
}
use myqueue.Prelude.Int.{ℤ}
use myqueue.Prelude.Map.{find, find-put}
use myqueue.Prelude.Parse.{find_first_not_of, find_last_not_of, split_on}
use myqueue.Prelude.Text.{Bytes}
use myqueue.Queue.{TaskQueue, u64_mod, submit, submit_batch, batch_request, new_task, SubmitRequest}
use myqueue.Queue.Requests.{PendingFor, new_task-PendingFor}
use myqueue.Task.{Task}
use myqueue.Queue.IdRange.{from}
use myqueue.Queue.Persist.{Files}

-- " \t" and " \t\r\n".
abbrev blanks : Bytes
blanks = 32 ∷ 9 ∷ []

abbrev blanks_and_ends : Bytes
blanks_and_ends = 32 ∷ 9 ∷ 13 ∷ 10 ∷ []

-- The rest of a line without the blanks at its end, or as it is if it has nothing else.
trim_end : Bytes → Bytes
trim_end line = elim (find_last_not_of blanks_and_ends line) [
  | none ↦ line
  | some end ↦ take (end + 1) line
]

abbrev is_comment : Bytes → Bool
is_comment [] = false
is_comment (c ∷ s) = c == b'#'

-- The directory that a line names; `none` for each `continue`.
unfoldable pub line_dir : Bytes → Option Bytes
unfolding trim_end
line_dir line = elim (find_first_not_of blanks line) [
  | none ↦ none
  | some start ↦
      let dir = trim_end (drop start line) in
      if is_empty dir then none else if is_comment dir then none else some dir
]

abbrev add_dir : Bool → Bytes → List Bytes × List Bytes → List Bytes × List Bytes
add_dir true dir (valid, invalid) = (dir ∷ valid, invalid)
add_dir false dir (valid, invalid) = (valid, dir ∷ invalid)

module _ (is_directory : Bytes → Bool) where
  -- The valid directories that the lines name, and the others.
  unfoldable pub parse_lines : List Bytes → List Bytes × List Bytes
  parse_lines [] = ([], [])
  parse_lines (line ∷ lines) =
      let rest = parse_lines lines in
      elim (line_dir line) [ none ↦ rest | some dir ↦ add_dir (is_directory dir) dir rest ]

  unfoldable pub parse_workdirs_file : Files → Bytes → List Bytes × List Bytes
  unfolding parse_lines
  parse_workdirs_file files filepath = elim (files filepath) [
    | none ↦ ([], [])
    | some content ↦ parse_lines (split_on 10 content)
  ]

  -- The ids of the tasks, the directories that are none, and the queue.
  unfoldable pub submit_batch_from_file :
      TaskQueue → Files → Bytes → Bytes → ℤ → ℤ → (ℕ → ℕ) → (List ℕ × List Bytes) × TaskQueue
  submit_batch_from_file q files script workdirs_file ncpu ngpu clock =
      let (valid, invalid) = parse_workdirs_file files workdirs_file in
      let (ids, q') = submit_batch q script valid ncpu ngpu clock in ((ids, invalid), q')

  add_dir_sorted :
      (b : Bool) (dir : Bytes) (rest : List Bytes × List Bytes)
      → is_directory dir ≡ b
      → All (λ d. is_directory d ≡ true) rest.0 × All (λ d. is_directory d ≡ false) rest.1
      → let (valid, invalid) = add_dir b dir rest in
        All (λ d. is_directory d ≡ true) valid × All (λ d. is_directory d ≡ false) invalid
  add_dir_sorted true dir (valid, invalid) e h = ((e, h.0), h.1)
  add_dir_sorted false dir (valid, invalid) e h = (h.0, (e, h.1))

  parse_lines_sorted :
      (lines : List Bytes)
      → All (λ d. is_directory d ≡ true) (parse_lines lines).0
        × All (λ d. is_directory d ≡ false) (parse_lines lines).1
  unfolding parse_lines
  parse_lines_sorted [] = (tt, tt)
  parse_lines_sorted (line ∷ lines) =
      let h = parse_lines_sorted lines in
      elim (Option-cases (line_dir line)) [
        | inl e ↦ rw (e, parse_lines) h
        | inr (dir, e) ↦
            rw (e, parse_lines) (add_dir_sorted (is_directory dir) dir (parse_lines lines) refl h)
      ]

module _ (script : Bytes) (ncpu ngpu : ℤ) where
  next_id_submit :
      (q : TaskQueue) (req : SubmitRequest) (now : ℕ)
      → suc q.next_id < u64_mod
      → (submit q req now).1.next_id ≡ suc q.next_id
  unfolding submit
  next_id_submit q req now room = omega arith

  submit_batch_below :
      (q : TaskQueue) (ws : List Bytes) (clock : ℕ → ℕ) (k : ℕ)
      → q.next_id + length ws < u64_mod
      → k < q.next_id
      → find k (submit_batch q script ws ncpu ngpu clock).1.tasks ≡ find k q.tasks
  unfolding submit_batch submit
  submit_batch_below q [] clock k room h = refl
  submit_batch_below q (w ∷ ws) clock k room h =
      let req = batch_request script ncpu ngpu w in
      let q' = (submit q req (clock 0)).1 in
      let n = next_id_submit q req (clock 0) (omega arith) in
      submit_batch_below q' ws (λ i. clock (suc i)) k (omega (arith, n)) (omega (arith, n))
      ∙ find-put k q.next_id (new_task q.next_id req (clock 0)) q.tasks
      ∙ ground arith

  submit_batch-from :
      (q : TaskQueue) (ws : List Bytes) (clock : ℕ → ℕ)
      → q.next_id + length ws < u64_mod
      → (submit_batch q script ws ncpu ngpu clock).0 ≡ from q.next_id (length ws)
  unfolding submit_batch submit
  submit_batch-from q [] clock room = refl
  submit_batch-from q (w ∷ ws) clock room =
      let req = batch_request script ncpu ngpu w in
      let q' = (submit q req (clock 0)).1 in
      let n = next_id_submit q req (clock 0) (omega arith) in
      ap (◌∷◌ q.next_id) (
        submit_batch-from q' ws (λ i. clock (suc i)) (omega (arith, n))
        ∙ ap (λ k. from k (length ws)) n)

  submit_batch_found :
      (q : TaskQueue) (ws : List Bytes) (clock : ℕ → ℕ) (i k : ℕ) (w : Bytes)
      → q.next_id + length ws < u64_mod
      → k ≡ q.next_id + i
      → nth i ws ≡ some w
      → find k (submit_batch q script ws ncpu ngpu clock).1.tasks
        ≡ some (new_task k (batch_request script ncpu ngpu w) (clock i))
  unfolding submit_batch submit
  submit_batch_found q [] clock i k w room h e = absurd (ground arith)
  submit_batch_found q (v ∷ ws) clock zero k w room h e =
      let req = batch_request script ncpu ngpu v in
      let q' = (submit q req (clock 0)).1 in
      let n = next_id_submit q req (clock 0) (omega arith) in
      submit_batch_below q' ws (λ i. clock (suc i)) k (omega (arith, n)) (omega (arith, n, h))
      ∙ find-put k q.next_id (new_task q.next_id req (clock 0)) q.tasks
      ∙ ground arith
  submit_batch_found q (v ∷ ws) clock (suc i) k w room h e =
      let req = batch_request script ncpu ngpu v in
      let q' = (submit q req (clock 0)).1 in
      let n = next_id_submit q req (clock 0) (omega arith) in
      submit_batch_found q' ws (λ i. clock (suc i)) i k w (omega (arith, n)) (omega (arith, n, h)) e

-- A batch of tasks, while ids are left for them all: the ids that it returns count up from the next id,
-- no task that was in the queue under an id below it changes, and under the i-th id stands a pending
-- task, submitted at the i-th time, with the script, in the i-th directory, for the numbers of CPUs and
-- GPUs of the batch, that names none of them and no log file.
pub submit_batch_lem :
    (q : TaskQueue) (script : Bytes) (ws : List Bytes) (ncpu ngpu : ℤ) (clock : ℕ → ℕ)
    → q.next_id + length ws < u64_mod
    → let (ids, q') = submit_batch q script ws ncpu ngpu clock in
      (ids ≡ from q.next_id (length ws))
      × (((k : ℕ) → k < q.next_id → find k q'.tasks ≡ find k q.tasks)
          × ((i : ℕ) (w : Bytes)
              → nth i ws ≡ some w
              → (t : Task) × (find (q.next_id + i) q'.tasks ≡ some t)
                × PendingFor
                    (q.next_id + i)
                    (record {
                      script_path = script;
                      workdir = w;
                      ncpu = ncpu;
                      ngpu = ngpu;
                      specific_cpus = [];
                      specific_gpus = [];
                      log_file = [];
                    })
                    (clock i)
                    t))
submit_batch_lem q script ws ncpu ngpu clock room = (
  submit_batch-from script ncpu ngpu q ws clock room,
  (
    λ k h. submit_batch_below script ncpu ngpu q ws clock k room h,
    λ i w e.
        let id = q.next_id + i in
        let req = batch_request script ncpu ngpu w in
        (
          new_task id req (clock i),
          submit_batch_found script ncpu ngpu q ws clock i id w room refl e,
          new_task-PendingFor id req (clock i),
        ),
  ),
)

-- What parseWorkdirsFile returns as valid are directories, and what it returns as invalid are none.
pub parse_workdirs_file_sorted :
    (is_directory : Bytes → Bool) (files : Files) (filepath : Bytes)
    → let (valid, invalid) = parse_workdirs_file is_directory files filepath in
      All (λ d. is_directory d ≡ true) valid × All (λ d. is_directory d ≡ false) invalid
unfolding parse_workdirs_file
parse_workdirs_file_sorted is_directory files filepath = elim (Option-cases (files filepath)) [
  | inl e ↦ rw (e, parse_workdirs_file) (tt, tt)
  | inr (content, e) ↦
      rw (e, parse_workdirs_file) (parse_lines_sorted is_directory (split_on 10 content))
]
