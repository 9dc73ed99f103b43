-- ===== src/Executor/Wait.antt =====
-- The waits of src/core/executor.cpp.
use myqueue.Prelude.{
  ℕ, zero, suc, ◌+◌, ◌-◌, ◌/◌, ◌<◌, ◌≡◌, refl, ap, ◌∙◌, true, false, Option, none, some, ltb, arith,
  Bool-cases, inl, inr,
}
use myqueue.Prelude.Int.{ℤ, pos}
use myqueue.Executor.{Os, check_status, poll, wait_for}

module _ (os : Os) (pid : ℤ) where
  -- `n` checks at most: the exit code that the first check of an ended process gives.
  unfoldable pub polls : ℕ → ℕ → Option ℤ × ℕ
  polls zero now = (none, now)
  polls (suc n) now =
      let (status, now') = check_status os now pid in
      elim status.running [ false ↦ (some status.exit_code, now') | true ↦ polls n now' ]

  poll-polls :
      (fuel elapsed timeout now : ℕ)
      → timeout - elapsed < fuel
      → poll os fuel elapsed timeout now pid ≡ polls ((timeout - elapsed + 99) / 100) now
  unfolding poll polls
  poll-polls zero elapsed timeout now h = elim h [ ]
  poll-polls (suc fuel) elapsed timeout now h = elim (Bool-cases (ltb elapsed timeout)) [
    | inr e ↦
        let none_left : (timeout - elapsed + 99) / 100 ≡ 0 = ground arith in
        rw (e, none_left, poll, polls) refl
    | inl e ↦
        let one_more : (timeout - elapsed + 99) / 100
            ≡ suc ((timeout - (elapsed + 100) + 99) / 100) =
          ground arith in
        elim (Bool-cases (check_status os now pid).0.running) [
          | inr f ↦ rw (e, one_more, f, poll, polls) refl
          | inl f ↦
              rw (e, one_more, f, poll, polls)
                (poll-polls fuel (elapsed + 100) timeout (check_status os now pid).1 (ground arith))
        ]
  ]

  -- A wait of `n` milliseconds is one check for each 100 of them, begun ones included: it ends, and
  -- gives the exit code of the first check that finds the process ended.
  pub wait_for-polls :
      (n now : ℕ) → 0 < n → wait_for os now pid (pos n) ≡ polls ((n + 99) / 100) now
  unfolding wait_for
  wait_for-polls zero now h = elim h [ ]
  wait_for-polls (suc n) now h =
      poll-polls (suc (suc n)) 0 (suc n) now (omega arith)
      ∙ ap (λ k. polls ((k + 99) / 100) now) (omega arith)
