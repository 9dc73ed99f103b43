-- ===== src/Executor.antt =====
-- The process executor: src/core/executor.cpp. The system calls answer by moment, which counts the
-- calls; what the child does between fork and exec is outside the model.
pub mod Wait
use myqueue.Prelude.{
  ℕ, zero, suc, ◌+◌, ◌-◌, ◌/◌, ◌%◌, Bool, true, false, not, ◌&&◌, Option, none, some, ◌∷◌, ◌++◌,
  if◌then◌else◌, ltb, ◌==◌,
}
use myqueue.Prelude.Int.{ℤ, pos, negsuc, eqb, ltz, lez}

-- fork in the parent, waitpid on a pid with its status word, and kill on a pid with a signal.
pub record Os : Type 0 where
  pub fork : ℕ → ℤ
  pub waitpid : ℕ → ℤ → ℤ × ℕ
  pub kill : ℕ → ℤ → ℤ → ℤ

pub record ProcessStatus : Type 0 where
  pub running : Bool
  pub exit_code : ℤ
  pub signaled : Bool
  pub signal_number : ℤ

-- WIFEXITED, WEXITSTATUS, WIFSIGNALED and WTERMSIG.
abbrev pub exited : ℕ → Bool
exited w = w % 128 == 0

abbrev pub exit_status : ℕ → ℕ
exit_status w = w / 256 % 256

abbrev pub was_signaled : ℕ → Bool
was_signaled w = not (w % 128 == 0) && not (w % 128 == 127)

abbrev pub term_signal : ℕ → ℕ
term_signal w = w % 128

-- The status of a process that has ended, by its status word.
unfoldable pub ended_status : ℕ → ProcessStatus
ended_status w =
    if exited w
    then record {
      running = false;
      exit_code = pos (exit_status w);
      signaled = false;
      signal_number = pos 0;
    }
    else if was_signaled w
    then record {
      running = false;
      exit_code = pos (128 + term_signal w);
      signaled = true;
      signal_number = pos (term_signal w);
    }
    else record { running = false; exit_code = pos 0; signaled = false; signal_number = pos 0 }

-- By the result of waitpid.
unfoldable pub status_of : ℤ × ℕ → ProcessStatus
unfolding ended_status
status_of (result, w) =
    if eqb result (pos 0)
    then record { running = true; exit_code = pos 0; signaled = false; signal_number = pos 0 }
    else if ltz result (pos 0)
    then record { running = false; exit_code = negsuc 0; signaled = false; signal_number = pos 0 }
    else ended_status w

abbrev pub sigterm : ℤ
sigterm = pos 15

abbrev pub sigkill : ℤ
sigkill = pos 9

-- `-pid`.
abbrev pub negated : ℤ → ℤ
negated (pos zero) = pos 0
negated (pos (suc n)) = negsuc n
negated (negsuc n) = pos (suc n)

module _ (os : Os) where
  -- The pid, or -1 if fork failed.
  unfoldable pub execute : ℕ → ℤ × ℕ
  execute now = (if ltz (os.fork now) (pos 0) then negsuc 0 else os.fork now, now + 1)

  unfoldable pub check_status : ℕ → ℤ → ProcessStatus × ℕ
  unfolding status_of
  check_status now pid = (status_of (os.waitpid now pid), now + 1)

  -- First the process group, then the process alone.
  unfoldable pub terminate : ℕ → ℤ → Bool → Bool × ℕ
  terminate now pid force =
      let sig = if force then sigkill else sigterm in
      if eqb (os.kill now (negated pid) sig) (pos 0)
      then (true, now + 1)
      else (eqb (os.kill (now + 1) pid sig) (pos 0), now + 2)

  -- `while (elapsed < timeout_ms)`, on fuel. `none` is the end of the time.
  unfoldable pub poll : ℕ → ℕ → ℕ → ℕ → ℤ → Option ℤ × ℕ
  poll zero elapsed timeout now pid = (none, now)
  poll (suc fuel) elapsed timeout now pid =
      let (status, now') = check_status now pid in
      elim (ltb elapsed timeout) [
        | false ↦ (none, now)
        | true ↦ elim status.running [
          | false ↦ (some status.exit_code, now')
          | true ↦ poll fuel (elapsed + 100) timeout now' pid
        ]
      ]

  -- The blocking wait of a negative timeout.
  blocking : ℕ → ℤ → Option ℤ × ℕ
  blocking now pid =
      let (result, w) = os.waitpid now pid in
      (
        if lez result (pos 0)
            then none
            else if exited w
            then some (pos (exit_status w))
            else if was_signaled w
            then some (pos (128 + term_signal w))
            else some (negsuc 0),
        now + 1,
      )

  -- A single check for the timeout 0; the fuel is one more than the timeout, which suffices.
  unfoldable pub wait_for : ℕ → ℤ → ℤ → Option ℤ × ℕ
  unfolding poll blocking
  wait_for now pid (negsuc n) = blocking now pid
  wait_for now pid (pos zero) =
      let (status, now') = check_status now pid in
      (if not status.running then some status.exit_code else none, now')
  wait_for now pid (pos (suc n)) = poll (suc (suc n)) 0 (suc n) now pid
