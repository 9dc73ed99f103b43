-- ===== src/Cli/Delete.antt =====
-- The command `del`: handleDelete of src/cli/main.cpp. `none` means that the fuel for the ranges of ids
-- ran out.
use myqueue.Prelude.{
  ℕ, ◌+◌, Bool, true, false, Option, none, some, List, [], ◌∷◌, ◌++◌, length, is_empty,
  if◌then◌else◌, ltb,
}
use myqueue.Prelude.Text.{Bytes, text, text_eq}
use myqueue.Queue.IdRange.{parse_id_range}
use myqueue.Cli.{
  Client, Line, Exit, exit, missing_task_id, no_server, deleted_all, delete_all_failed,
  no_valid_ids, task_deleted, task_not_deleted, deleted_summary,
}

-- The ids of all arguments, in their order.
unfoldable pub ids_of : ℕ → List Bytes → Option (List ℕ)
ids_of fuel [] = some []
ids_of fuel (arg ∷ args) = elim (parse_id_range fuel arg) [
  | none ↦ none
  | some ids ↦ elim (ids_of fuel args) [ none ↦ none | some more ↦ some (ids ++ more) ]
]

-- The loop over the results, each beside its id: the counts and the lines. There are never more results
-- than ids.
unfoldable pub report : List ℕ → List Bool → (ℕ × ℕ) × List Line
report [] rs = ((0, 0), [])
report (id ∷ ids) [] = ((0, 0), [])
report (id ∷ ids) (true ∷ rs) =
    let ((done, failed), lines) = report ids rs in ((done + 1, failed), task_deleted id ∷ lines)
report (id ∷ ids) (false ∷ rs) =
    let ((done, failed), lines) = report ids rs in ((done, failed + 1), task_not_deleted id ∷ lines)

module _ {S : Type 0} (client : Client S) where
  unfoldable pub delete_ids : List ℕ → S → Exit S
  unfolding report
  delete_ids ids s =
      let (results, s') = client.delete_by_ids ids s in
      let ((done, failed), lines) = report ids results in
      if is_empty ids
      then exit 1 (no_valid_ids ∷ []) s
      else exit (if ltb 0 failed then 1 else 0)
          (lines ++ (if ltb 1 (length ids) then deleted_summary done failed ∷ [] else [])) s'

  unfoldable pub delete_everything : S → Exit S
  delete_everything s =
      let (result, s') = client.delete_all s in
      elim result [
        | some r ↦ exit 0 (deleted_all r ∷ []) s'
        | none ↦ exit 1 (delete_all_failed ∷ []) s'
      ]

  -- The arguments are those from argv[2] on.
  unfoldable pub delete_command : ℕ → List Bytes → S → Option (Exit S)
  unfolding ids_of delete_ids delete_everything
  delete_command fuel [] s = some (exit 1 (missing_task_id ∷ []) s)
  delete_command fuel (arg ∷ args) s = elim (client.connects s) [
    | false ↦ some (exit 1 (no_server ∷ []) s)
    | true ↦ elim (text_eq arg (text "all")) [
      | true ↦ some (delete_everything s)
      | false ↦ elim (ids_of fuel (arg ∷ args)) [ none ↦ none | some ids ↦ some (delete_ids ids s) ]
    ]
  ]
