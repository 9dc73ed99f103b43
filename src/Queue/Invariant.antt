-- ===== src/Queue/Invariant.antt =====
-- The well-formedness of the map, through each operation of task_queue.cpp.
use myqueue.Prelude.{ℕ, suc, ◌≤◌, ◌<◌, ◌≡◌, refl, none, some, List, [], ◌∷◌, arith, inl, inr}
use myqueue.Prelude.Int.{ℤ}
use myqueue.Prelude.Map.{find, put, erase, Asc, put-Asc, erase-Asc}
use myqueue.Prelude.Text.{Bytes}
use myqueue.Task.{Task}
use myqueue.Queue.Cases.{
  set_task_running_cases, set_task_completed_cases, set_task_failed_cases, delete_task_cases,
}
use myqueue.Queue.{
  TaskQueue, SubmitRequest, u64_mod, new_queue, new_task, submit, set_task_running,
  set_task_completed, set_task_failed, delete_task, clear,
}

-- Each entry stands under its task's id, below the bound.
abbrev pub Keyed : ℕ → List (ℕ × Task) → Type 0
Keyed n [] = Unit {0}
Keyed n ((k, t) ∷ m) = (t.id ≡ k) × (k < n) × Keyed n m

pub record IsValid (q : TaskQueue) : Type 0 where
  pub ascending : Asc 0 q.tasks
  pub keyed : Keyed q.next_id q.tasks

pub Keyed-mono : (n n' : ℕ) (m : List (ℕ × Task)) → n ≤ n' → Keyed n m → Keyed n' m
Keyed-mono n n' [] h k = tt
Keyed-mono n n' ((i, t) ∷ m) h k = (k.0, omega arith, Keyed-mono n n' m h k.2)

put-Keyed :
    (n k : ℕ) (t : Task) (m : List (ℕ × Task)) → t.id ≡ k → k < n → Keyed n m → Keyed n (put k t m)
unfolding put
put-Keyed n k t [] e h a = (e, h, tt)
put-Keyed n k t ((i, w) ∷ m) e h a = ground (arith, put-Keyed n k t m e h a.2)

erase-Keyed : (n k : ℕ) (m : List (ℕ × Task)) → Keyed n m → Keyed n (erase k m)
unfolding erase
erase-Keyed n k [] a = tt
erase-Keyed n k ((i, w) ∷ m) a = ground (arith, erase-Keyed n k m a.2)

pub find-Keyed :
    (n k : ℕ) (t : Task) (m : List (ℕ × Task))
    → Keyed n m
    → find k m ≡ some t
    → (t.id ≡ k) × (k < n)
unfolding find
find-Keyed n k t [] a e = cc
find-Keyed n k t ((i, w) ∷ m) a e = ground (arith, find-Keyed n k t m a.2)

-- No id at or above the bound is in use.
pub find_above : (n k : ℕ) (m : List (ℕ × Task)) → Keyed n m → n ≤ k → find k m ≡ none
unfolding find
find_above n k [] a h = refl
find_above n k ((i, w) ∷ m) a h = ground (arith, find_above n k m a.2)

pub put-IsValid :
    (q : TaskQueue) (k : ℕ) (t : Task)
    → IsValid q
    → t.id ≡ k
    → k < q.next_id
    → IsValid (record q { tasks = put k t q.tasks })
put-IsValid q k t v e h = record {
  ascending = put-Asc k 0 t q.tasks (omega arith) v.ascending;
  keyed = put-Keyed q.next_id k t q.tasks e h v.keyed;
}

pub new_queue-IsValid : (dir : Bytes) → IsValid (new_queue dir)
unfolding new_queue
new_queue-IsValid dir = record { ascending = tt; keyed = tt }

pub submit-IsValid :
    (q : TaskQueue) (req : SubmitRequest) (now : ℕ)
    → suc q.next_id < u64_mod
    → IsValid q
    → IsValid (submit q req now).1
unfolding submit new_task
submit-IsValid q req now room v = record {
  ascending = put-Asc q.next_id 0 _ q.tasks (omega arith) v.ascending;
  keyed =
      put-Keyed _ q.next_id _ q.tasks refl (omega arith)
        (Keyed-mono q.next_id _ q.tasks (omega arith) v.keyed);
}

module _ (q : TaskQueue) (id now : ℕ) (v : IsValid q) where
  pub set_task_running-IsValid :
      (pid : ℤ) (cpus gpus : List ℤ) → IsValid (set_task_running q id pid cpus gpus now).1
  set_task_running-IsValid pid cpus gpus = elim (set_task_running_cases q id pid cpus gpus now) [
    | inl e ↦ rw e v
    | inr (t, f, s, e) ↦
        rw e
          (put-IsValid q id _ v (find-Keyed _ id t _ v.keyed f).0 (find-Keyed _ id t _ v.keyed f).1)
  ]

  pub set_task_completed-IsValid : (code : ℤ) → IsValid (set_task_completed q id code now).1
  set_task_completed-IsValid code = elim (set_task_completed_cases q id code now) [
    | inl e ↦ rw e v
    | inr (t, f, s, e) ↦
        rw e
          (put-IsValid q id _ v (find-Keyed _ id t _ v.keyed f).0 (find-Keyed _ id t _ v.keyed f).1)
  ]

  pub set_task_failed-IsValid : IsValid (set_task_failed q id now).1
  set_task_failed-IsValid = elim (set_task_failed_cases q id now) [
    | inl e ↦ rw e v
    | inr (t, f, s, e) ↦
        rw e
          (put-IsValid q id _ v (find-Keyed _ id t _ v.keyed f).0 (find-Keyed _ id t _ v.keyed f).1)
  ]

  pub delete_task-IsValid : IsValid (delete_task q id now).1
  delete_task-IsValid = elim (delete_task_cases q id now) [
    | inl (f, e) ↦ rw e v
    | inr (t, f, e) ↦ rw e (record {
      ascending = erase-Asc id 0 q.tasks v.ascending;
      keyed = erase-Keyed q.next_id id q.tasks v.keyed;
    })
  ]

pub clear-IsValid : (q : TaskQueue) → IsValid (clear q)
unfolding clear
clear-IsValid q = record { ascending = tt; keyed = tt }
