-- ===== src/Task/Equality.antt =====
-- What Task::operator== compares.
use myqueue.Prelude.{ℕ, ◌≡◌, refl, ◌↔◌, Bool, true, false, ◌&&◌, Option, none, some, arith, ==_iff}
use myqueue.Prelude.Int.{eqb_iff, ints_eq_iff}
use myqueue.Prelude.Text.{text_eq_iff}
use myqueue.Task.{Task, TaskStatus, status_eq, time_eq, to_seconds, task_eq}

abbrev pub seconds_of : Option ℕ → Option ℕ
seconds_of none = none
seconds_of (some t) = some (to_seconds t)

-- A task whose times are cut to whole seconds.
abbrev pub to_the_second : Task → Task
to_the_second t = record t {
  submit_time = to_seconds t.submit_time;
  start_time = seconds_of t.start_time;
  end_time = seconds_of t.end_time;
}

status_eq_iff : (a b : TaskStatus) → (status_eq a b ≡ true) ↔ (a ≡ b)
status_eq_iff a b = ground arith

time_eq_iff : (a b : Option ℕ) → (time_eq a b ≡ true) ↔ (seconds_of a ≡ seconds_of b)
time_eq_iff a b = ground arith

both_iff :
    {P Q : Type 0} (p q : Bool) → (p ≡ true) ↔ P → (q ≡ true) ↔ Q → ((p && q) ≡ true) ↔ (P × Q)
both_iff true q f g = (λ h. (f.0 refl, g.0 h), λ h. g.1 h.1)
both_iff false q f g = (λ h. cc, λ h. f.1 h.0)

-- The comparisons of the operator, in its order.
Same : Task → Task → Type 0
Same a b =
    (a.id ≡ b.id)
    × ((a.script_path ≡ b.script_path)
        × ((a.workdir ≡ b.workdir)
            × ((a.ncpu ≡ b.ncpu)
                × ((a.ngpu ≡ b.ngpu)
                    × ((a.specific_cpus ≡ b.specific_cpus)
                        × ((a.specific_gpus ≡ b.specific_gpus)
                            × ((a.log_file ≡ b.log_file)
                                × ((a.allocated_cpus ≡ b.allocated_cpus)
                                    × ((a.allocated_gpus ≡ b.allocated_gpus)
                                        × ((a.status ≡ b.status)
                                            × ((a.pid ≡ b.pid)
                                                × ((a.exit_code ≡ b.exit_code)
                                                    × ((to_seconds a.submit_time
                                                          ≡ to_seconds b.submit_time)
                                                        × ((seconds_of a.start_time
                                                            ≡ seconds_of b.start_time)
                                                            × ((seconds_of a.end_time
                                                            ≡ seconds_of b.end_time)
                                                            × Unit {0})))))))))))))))

task_eq-Same : (a b : Task) → (task_eq a b ≡ true) ↔ Same a b
unfolding task_eq Same
task_eq-Same a b = both_iff _ _ (==_iff a.id b.id) (
    both_iff _ _ (text_eq_iff a.script_path b.script_path) (
      both_iff _ _ (text_eq_iff a.workdir b.workdir) (
        both_iff _ _ (eqb_iff a.ncpu b.ncpu) (
          both_iff _ _ (eqb_iff a.ngpu b.ngpu) (
            both_iff _ _ (ints_eq_iff a.specific_cpus b.specific_cpus) (
              both_iff _ _ (ints_eq_iff a.specific_gpus b.specific_gpus) (
                both_iff _ _ (text_eq_iff a.log_file b.log_file) (
                  both_iff _ _ (ints_eq_iff a.allocated_cpus b.allocated_cpus) (
                    both_iff _ _ (ints_eq_iff a.allocated_gpus b.allocated_gpus) (
                      both_iff _ _ (status_eq_iff a.status b.status) (
                        both_iff _ _ (eqb_iff a.pid b.pid) (
                          both_iff _ _ (eqb_iff a.exit_code b.exit_code) (
                            both_iff _ _
                              (==_iff (to_seconds a.submit_time) (to_seconds b.submit_time))
                              (both_iff _ _ (time_eq_iff a.start_time b.start_time) (
                                both_iff _ _ (time_eq_iff a.end_time b.end_time)
                                  (λ _. tt, λ _. refl))))))))))))))))

Same-to_the_second : (a b : Task) → Same a b ↔ (to_the_second a ≡ to_the_second b)
unfolding Same
Same-to_the_second a b = (λ h. cc, λ h. ground arith)

-- Two tasks are equal to the operator exactly when they agree in every field, times to the second.
pub task_eq_iff : (a b : Task) → (task_eq a b ≡ true) ↔ (to_the_second a ≡ to_the_second b)
task_eq_iff a b = (
  λ h. (Same-to_the_second a b).0 ((task_eq-Same a b).0 h),
  λ h. (task_eq-Same a b).1 ((Same-to_the_second a b).1 h),
)
