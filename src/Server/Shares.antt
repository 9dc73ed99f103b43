-- ===== src/Server/Shares.antt =====
-- What the running tasks hold against what they asked for and what the configuration excludes,
-- through the request handlers of server.cpp and whole histories of the server.
pub mod Histories
use myqueue.Prelude.{
  ℕ, ◌≡◌, refl, ◌∙◌, Bool, not, ◌||◌, List, [], ◌∷◌, arith, Option-cases, inl, inr, if_ind,
  if◌then◌else◌,
}
use myqueue.Prelude.Map.{find}
use myqueue.Prelude.Text.{Bytes}
use myqueue.Task.{Task, pending, running, status_eq}
use myqueue.Queue.{SubmitRequest, new_task, submit, get_all_tasks}
use myqueue.Scheduler.{Env, System, terminate_task}
use myqueue.Scheduler.Grants.{
  overwrite-Runs, delete_task-Runs, Keeps, Keeps-refl, Keeps-trans, save-Keeps,
  terminate_task-Keeps,
}
use myqueue.Protocol.Responses.{DeleteAllResponse}
use myqueue.Server.{
  PathKind, handle_submit, terminate_twice, delete_in, delete_found, delete_one, delete_each,
  handle_delete, delete_listed, delete_all_listed, no_deletion, handle_delete_all, Deleted,
  Submitted, exists, is_directory,
}

module _ {Value : Type 0} (env : Env Value) where
  terminate_twice-Keeps : (s : System) (id : ℕ) → Keeps s (terminate_twice env s id).1
  unfolding terminate_twice
  terminate_twice-Keeps s id =
      let s' = (terminate_task env s id).1 in
      if_ind (λ (o : Bool × System). Keeps s o.1) (terminate_task env s id).0
        (λ _. terminate_task-Keeps env s id)
        (λ _. Keeps-trans s s' _ (terminate_task-Keeps env s id) (terminate_task-Keeps env s' id))

  delete_in-Keeps : (s : System) (id : ℕ) → Keeps s (delete_in env s id).1
  unfolding delete_in
  delete_in-Keeps s id = record {
    runs = delete_task-Runs s.queue id (env.clock s.now);
    same = refl;
  }

  delete_found-Keeps : (s : System) (id : ℕ) (t : Task) → Keeps s (delete_found env s id t).1
  unfolding delete_found
  delete_found-Keeps s id t =
      if_ind (λ (o : Deleted × System). Keeps s o.1) (status_eq t.status running)
        (λ _. terminate_twice-Keeps s id) (λ _. delete_in-Keeps s id)

  delete_one-Keeps : (s : System) (id : ℕ) → Keeps s (delete_one env s id).1
  unfolding delete_one
  delete_one-Keeps s id = elim (Option-cases (find id s.queue.tasks)) [
    | inl e ↦ rw (e, delete_one) (Keeps-refl s)
    | inr (t, e) ↦ rw (e, delete_one) (delete_found-Keeps s id t)
  ]

  delete_each-Keeps : (s : System) (ids : List ℕ) → Keeps s (delete_each env s ids).1
  unfolding delete_each
  delete_each-Keeps s [] = Keeps-refl s
  delete_each-Keeps s (id ∷ ids) =
      let s' = (delete_one env s id).1 in
      Keeps-trans s s' _ (delete_one-Keeps s id) (delete_each-Keeps s' ids)

  pub handle_delete-Keeps : (s : System) (ids : List ℕ) → Keeps s (handle_delete env s ids).1
  unfolding handle_delete
  handle_delete-Keeps s ids = save-Keeps env s _ (delete_each-Keeps s ids)

  delete_listed-Keeps :
      (resp : DeleteAllResponse) (s : System) (t : Task) → Keeps s (delete_listed env resp s t).1
  unfolding delete_listed
  delete_listed-Keeps resp s t =
      if_ind (λ (o : DeleteAllResponse × System). Keeps s o.1) (status_eq t.status running)
        (λ _. terminate_twice-Keeps s t.id)
        (λ _.
          if_ind (λ (o : DeleteAllResponse × System). Keeps s o.1) (status_eq t.status pending)
            (λ _. delete_in-Keeps s t.id) (λ _. delete_in-Keeps s t.id))

  delete_all_listed-Keeps :
      (resp : DeleteAllResponse) (s : System) (ts : List Task)
      → Keeps s (delete_all_listed env resp s ts).1
  unfolding delete_all_listed
  delete_all_listed-Keeps resp s [] = Keeps-refl s
  delete_all_listed-Keeps resp s (t ∷ ts) =
      let (resp', s') = delete_listed env resp s t in
      Keeps-trans s s' _ (delete_listed-Keeps resp s t) (delete_all_listed-Keeps resp' s' ts)

  pub handle_delete_all-Keeps : (s : System) → Keeps s (handle_delete_all env s).1
  unfolding handle_delete_all
  handle_delete_all-Keeps s =
      save-Keeps env s _ (delete_all_listed-Keeps no_deletion s (get_all_tasks s.queue))

  pub handle_submit-Keeps :
      (stat : Bytes → PathKind) (s : System) (req : SubmitRequest)
      → Keeps s (handle_submit env stat s req).1
  unfolding handle_submit submit new_task
  handle_submit-Keeps stat s req =
      if_ind (λ (o : Submitted × System). Keeps s o.1) (not (exists (stat req.script_path)))
        (λ _. Keeps-refl s)
        (λ _.
          if_ind (λ (o : Submitted × System). Keeps s o.1)
            (not (exists (stat req.workdir)) || not (is_directory (stat req.workdir)))
            (λ _. Keeps-refl s)
            (λ _. record {
              runs = (
                (overwrite-Runs s.queue s.queue.next_id
                    (new_task s.queue.next_id req (env.clock s.now)) refl).0,
                (refl, λ h. omega arith),
              );
              same = refl;
            }))
