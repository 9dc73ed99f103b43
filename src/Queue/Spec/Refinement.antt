-- ===== src/Queue/Spec/Refinement.antt =====
-- task_queue.cpp implements the registry: the same answers to the same calls.
use myqueue.Prelude.{
  ℕ, suc, ◌+◌, ◌<◌, ◌≡◌, refl, sym, ap, ap₂, ◌∙◌, Bool, true, false, Option, none, some, List, [],
  ◌∷◌, length, arith, Bool-cases, Option-cases, inl, inr, ◌==◌, if◌then◌else◌,
}
use myqueue.Prelude.Int.{ℤ}
use myqueue.Prelude.Map.{find, find-put, find-erase, erase}
use myqueue.Task.{Task, pending, running, status_eq}
use myqueue.Queue.Lifecycle.{
  Call, submits, starts, completes, fails, deletes, step, step-next_id, run,
}
use myqueue.Queue.Cases.{delete_task_cases}
use myqueue.Queue.Spec.{
  assigned, answered, reply, replies, Registry, update, Edit, refuse, remove, write, start_rule,
  complete_rule, fail_rule, perform, edit_entry, registry_call, registry_replies, registry_run,
}
use myqueue.Queue.{
  TaskQueue, SubmitRequest, u64_mod, new_task, submit, set_task_running, overwrite,
  set_task_completed, set_task_failed, delete_task,
}

-- The queue stands for the registry.
pub record Refines (q : TaskQueue) (r : Registry) : Type 0 where
  pub entries : (j : ℕ) → find j q.tasks ≡ r.entry j
  pub counter : q.next_id ≡ r.next

-- The same edits on the map.
perform_in : TaskQueue → ℕ → Edit → Bool × TaskQueue
perform_in q id refuse = (false, q)
perform_in q id remove = (true, record q { tasks = erase id q.tasks })
perform_in q id (write t) = (true, overwrite q id t)

edit_in : TaskQueue → ℕ → (Task → Edit) → Bool × TaskQueue
edit_in q id rule = elim (find id q.tasks) [ none ↦ (false, q) | some t ↦ perform_in q id (rule t) ]

module _ (q : TaskQueue) (id now : ℕ) where
  set_task_running-edit :
      (pid : ℤ) (cpus gpus : List ℤ)
      → set_task_running q id pid cpus gpus now ≡ edit_in q id (start_rule now pid cpus gpus)
  unfolding set_task_running edit_in perform_in start_rule
  set_task_running-edit pid cpus gpus = elim (Option-cases (find id q.tasks)) [
    | inl e ↦ rw (e, set_task_running, edit_in)
    | inr (t, e) ↦ elim (Bool-cases (status_eq t.status pending)) [
      | inl p ↦ rw (e, set_task_running, edit_in) (rw p)
      | inr p ↦ rw (e, set_task_running, edit_in) (rw p)
    ]
  ]

  set_task_completed-edit :
      (code : ℤ) → set_task_completed q id code now ≡ edit_in q id (complete_rule now code)
  unfolding set_task_completed edit_in perform_in complete_rule
  set_task_completed-edit code = elim (Option-cases (find id q.tasks)) [
    | inl e ↦ rw (e, set_task_completed, edit_in)
    | inr (t, e) ↦ elim (Bool-cases (status_eq t.status running)) [
      | inl p ↦ rw (e, set_task_completed, edit_in) (rw p)
      | inr p ↦ rw (e, set_task_completed, edit_in) (rw p)
    ]
  ]

  set_task_failed-edit : set_task_failed q id now ≡ edit_in q id (fail_rule now)
  unfolding set_task_failed edit_in perform_in fail_rule
  set_task_failed-edit = elim (Option-cases (find id q.tasks)) [
    | inl e ↦ rw (e, set_task_failed, edit_in)
    | inr (t, e) ↦ elim (Bool-cases (status_eq t.status pending)) [
      | inl p ↦ rw (e, set_task_failed, edit_in) (rw p)
      | inr p ↦ elim (Bool-cases (status_eq t.status running)) [
        | inl r ↦ rw (e, set_task_failed, edit_in) (rw (p, r))
        | inr r ↦ rw (e, set_task_failed, edit_in) (rw (p, r))
      ]
    ]
  ]

  delete_task-edit : delete_task q id now ≡ edit_in q id (λ _. remove)
  unfolding delete_task edit_in perform_in
  delete_task-edit = elim (delete_task_cases q id now) [
    | inl (e, f) ↦ rw (e, edit_in) f
    | inr (t, e, f) ↦ rw (e, edit_in) f
  ]

module _ (q : TaskQueue) (r : Registry) (R : Refines q r) where
  overwrite-Refines :
      (id : ℕ) (t : Task)
      → Refines (overwrite q id t) (record r { entry = update r.entry id (some t) })
  overwrite-Refines id t = record {
    entries = λ j. find-put j id t q.tasks ∙ ap (λ o. if id == j then some t else o) (R.entries j);
    counter = R.counter;
  }

  erase-Refines :
      (id : ℕ)
      → Refines
          (record q { tasks = erase id q.tasks })
          (record r { entry = update r.entry id none })
  erase-Refines id = record {
    entries = λ j. find-erase j id q.tasks ∙ ap (λ o. if id == j then none else o) (R.entries j);
    counter = R.counter;
  }

  perform-Refines :
      (id : ℕ) (e : Edit)
      → ((perform_in q id e).0 ≡ (perform r id e).0)
        × Refines (perform_in q id e).1 (perform r id e).1
  unfolding perform_in perform
  perform-Refines id refuse = (refl, R)
  perform-Refines id remove = (refl, erase-Refines id)
  perform-Refines id (write t) = (refl, overwrite-Refines id t)

  edit-Refines :
      (id : ℕ) (rule : Task → Edit)
      → ((edit_in q id rule).0 ≡ (edit_entry r id rule).0)
        × Refines (edit_in q id rule).1 (edit_entry r id rule).1
  unfolding edit_in edit_entry
  edit-Refines id rule = elim (Option-cases (find id q.tasks)) [
    | inl e ↦ rw (e, edit_in) (rw (sym (R.entries id) ∙ e, edit_entry) (refl, R))
    | inr (t, e) ↦
        rw (e, edit_in) (rw (sym (R.entries id) ∙ e, edit_entry) (perform-Refines id (rule t)))
  ]

  call_edit :
      (id : ℕ) (rule : Task → Edit) (c : Bool × TaskQueue)
      → c ≡ edit_in q id rule
      → (answered c.0 ≡ answered (edit_entry r id rule).0) × Refines c.1 (edit_entry r id rule).1
  call_edit id rule c e = rw e (ap answered (edit-Refines id rule).0, (edit-Refines id rule).1)

  submit-Refines :
      (req : SubmitRequest) (now : ℕ)
      → suc q.next_id < u64_mod
      → Refines (submit q req now).1 (registry_call r (now, submits req)).1
  unfolding submit registry_call
  submit-Refines req now room = record {
    entries = λ j.
        find-put j q.next_id (new_task q.next_id req now) q.tasks
        ∙ ap₂ (λ n (o : Option Task). if n == j then some (new_task n req now) else o) R.counter
            (R.entries j);
    counter = ground (arith, R.counter);
  }

  step-Refines :
      (c : ℕ × Call)
      → suc q.next_id < u64_mod
      → (reply q c ≡ (registry_call r c).0) × Refines (step q c) (registry_call r c).1
  unfolding reply step registry_call submit
  step-Refines (now, submits req) room = (ap assigned R.counter, submit-Refines req now room)
  step-Refines (now, starts id pid cpus gpus) room =
      call_edit id (start_rule now pid cpus gpus) _ (set_task_running-edit q id now pid cpus gpus)
  step-Refines (now, completes id code) room =
      call_edit id (complete_rule now code) _ (set_task_completed-edit q id now code)
  step-Refines (now, fails id) room = call_edit id (fail_rule now) _ (set_task_failed-edit q id now)
  step-Refines (now, deletes id) room = call_edit id (λ _. remove) _ (delete_task-edit q id now)

-- While ids are left, a queue that stands for a registry gives the answers of the registry to every
-- history of calls, and stands for the registry after it: its lookups are those of the function.
pub run-Refines :
    (q : TaskQueue) (r : Registry) (cs : List (ℕ × Call))
    → q.next_id + length cs < u64_mod
    → Refines q r
    → (replies q cs ≡ registry_replies r cs) × Refines (run q cs) (registry_run r cs)
unfolding replies registry_replies run registry_run
run-Refines q r [] room R = (refl, R)
run-Refines q r (c ∷ cs) room R =
    let s = step-Refines q r R c (omega arith) in
    let rest =
      run-Refines (step q c) (registry_call r c).1 cs
        (omega (arith, step-next_id q c (omega arith))) s.1 in
    (ap₂ ◌∷◌ s.0 rest.0, rest.1)
