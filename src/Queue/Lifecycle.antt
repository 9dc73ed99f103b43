-- ===== src/Queue/Lifecycle.antt =====
-- Histories of calls of task_queue.cpp: how the entry of one id moves through them.
use myqueue.Prelude.{
  ℕ, suc, ◌+◌, ◌≤◌, ◌<◌, ◌≡◌, Option, none, some, List, [], ◌∷◌, length, arith, inl, inr,
}
use myqueue.Prelude.Int.{ℤ}
use myqueue.Prelude.Map.{find, find-put, find-erase}
use myqueue.Task.{Task, TaskStatus, pending, running, completed, failed}
use myqueue.Queue.Cases.{
  set_task_running_cases, set_task_completed_cases, set_task_failed_cases, delete_task_cases,
}
use myqueue.Queue.Invariant.{
  IsValid, submit-IsValid, set_task_running-IsValid, set_task_completed-IsValid,
  set_task_failed-IsValid, delete_task-IsValid,
}
use myqueue.Queue.{
  TaskQueue, SubmitRequest, u64_mod, new_task, submit, set_task_running, started, finished, ended,
  set_task_completed, set_task_failed, delete_task,
}

-- The calls that change the map, each at a time.
pub data Call : Type 0 where
  submits : SubmitRequest → Call
  starts : (id : ℕ) → (pid : ℤ) → (cpus gpus : List ℤ) → Call
  completes : (id : ℕ) → (exit_code : ℤ) → Call
  fails deletes : (id : ℕ) → Call

unfoldable pub step : TaskQueue → ℕ × Call → TaskQueue
step q (now, submits req) = (submit q req now).1
step q (now, starts id pid cpus gpus) = (set_task_running q id pid cpus gpus now).1
step q (now, completes id code) = (set_task_completed q id code now).1
step q (now, fails id) = (set_task_failed q id now).1
step q (now, deletes id) = (delete_task q id now).1

unfoldable pub run : TaskQueue → List (ℕ × Call) → TaskQueue
run q [] = q
run q (c ∷ cs) = run (step q c) cs

-- What a client asked for never changes while its task is in the map.
pub record SameJob (t t' : Task) : Type 0 where
  pub id : t'.id ≡ t.id
  pub script_path : t'.script_path ≡ t.script_path
  pub workdir : t'.workdir ≡ t.workdir
  pub ncpu : t'.ncpu ≡ t.ncpu
  pub ngpu : t'.ngpu ≡ t.ngpu
  pub specific_cpus : t'.specific_cpus ≡ t.specific_cpus
  pub specific_gpus : t'.specific_gpus ≡ t.specific_gpus
  pub submit_time : t'.submit_time ≡ t.submit_time

-- The edges of the task's state machine.
pub data Edge : TaskStatus → TaskStatus → Type 0 where
  start : Edge pending running
  finish : Edge running completed
  fail_pending : Edge pending failed
  fail_running : Edge running failed

-- How one id's entry may change in one call.
pub data Change (o o' : Option Task) : Type 0 where
  same : o' ≡ o → Change o o'
  created : (t : Task) → o ≡ none → o' ≡ some t → t.status ≡ pending → Change o o'
  moved :
      (t t' : Task)
      → o ≡ some t
      → o' ≡ some t'
      → SameJob t t'
      → Edge t.status t'.status
      → Change o o'
  erased : (t : Task) → o ≡ some t → o' ≡ none → Change o o'

-- Ids go up by at most one in a call, while there is room.
pub step-next_id :
    (q : TaskQueue) (c : ℕ × Call)
    → suc q.next_id < u64_mod
    → (q.next_id ≤ (step q c).next_id) × ((step q c).next_id ≤ suc q.next_id)
unfolding step submit
step-next_id q (now, submits req) room = (omega arith, omega arith)
step-next_id q (now, starts id pid cpus gpus) room =
    ground (arith, set_task_running_cases q id pid cpus gpus now)
step-next_id q (now, completes id code) room =
    ground (arith, set_task_completed_cases q id code now)
step-next_id q (now, fails id) room = ground (arith, set_task_failed_cases q id now)
step-next_id q (now, deletes id) room = ground (arith, delete_task_cases q id now)

step-IsValid :
    (q : TaskQueue) (c : ℕ × Call) → suc q.next_id < u64_mod → IsValid q → IsValid (step q c)
unfolding step
step-IsValid q (now, submits req) room v = submit-IsValid q req now room v
step-IsValid q (now, starts id pid cpus gpus) room v =
    set_task_running-IsValid q id now v pid cpus gpus
step-IsValid q (now, completes id code) room v = set_task_completed-IsValid q id now v code
step-IsValid q (now, fails id) room v = set_task_failed-IsValid q id now v
step-IsValid q (now, deletes id) room v = delete_task-IsValid q id now v

-- After any history of calls that is shorter than the ids that are left, a well-formed queue is well
-- formed: its keys ascend, are the ids of their tasks, and are below the next id.
pub run-IsValid :
    (q : TaskQueue) (cs : List (ℕ × Call))
    → q.next_id + length cs < u64_mod
    → IsValid q
    → IsValid (run q cs)
unfolding run
run-IsValid q [] room v = v
run-IsValid q (c ∷ cs) room v =
    run-IsValid (step q c) cs (omega (arith, step-next_id q c (omega arith)))
      (step-IsValid q c (omega arith) v)

step-find_gone :
    (q : TaskQueue) (c : ℕ × Call) (id : ℕ)
    → id < q.next_id
    → find id q.tasks ≡ none
    → find id (step q c).tasks ≡ none
unfolding step submit
step-find_gone q (now, submits req) id used gone =
    ground (arith, find-put id q.next_id (new_task q.next_id req now) q.tasks)
step-find_gone q (now, starts k pid cpus gpus) id used gone =
    elim (set_task_running_cases q k pid cpus gpus now) [
      | inl e ↦ ground arith
      | inr (t, f, s, e) ↦ ground (arith, find-put id k (started t pid cpus gpus now) q.tasks)
    ]
step-find_gone q (now, completes k code) id used gone =
    elim (set_task_completed_cases q k code now) [
      | inl e ↦ ground arith
      | inr (t, f, s, e) ↦ ground (arith, find-put id k (finished t code now) q.tasks)
    ]
step-find_gone q (now, fails k) id used gone = elim (set_task_failed_cases q k now) [
  | inl e ↦ ground arith
  | inr (t, f, s, e) ↦ ground (arith, find-put id k (ended failed t now) q.tasks)
]
step-find_gone q (now, deletes k) id used gone =
    ground (arith, delete_task_cases q k now, find-erase id k q.tasks)

-- An id that was given out and is not in the map never comes back, in any history that is shorter than
-- the ids that are left.
pub run-find_gone :
    (q : TaskQueue) (cs : List (ℕ × Call)) (id : ℕ)
    → q.next_id + length cs < u64_mod
    → id < q.next_id
    → find id q.tasks ≡ none
    → find id (run q cs).tasks ≡ none
unfolding run
run-find_gone q [] id room used gone = gone
run-find_gone q (c ∷ cs) id room used gone =
    run-find_gone (step q c) cs id (omega (arith, step-next_id q c (omega arith)))
      (omega (arith, step-next_id q c (omega arith))) (step-find_gone q c id used gone)
