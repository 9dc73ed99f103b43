-- ===== src/Cli/Show.antt =====
-- The commands `sq`, `info`, `log` and `stop` of src/cli/main.cpp, and `run`. A row of the listing is its
-- cells; padding, colors and the heads of the columns are
-- left out.
use myqueue.Prelude.{
  ℕ, zero, suc, ◌/◌, ◌%◌, Bool, true, false, not, ◌&&◌, ◌||◌, Option, none, some, List, [], ◌∷◌,
  ◌++◌, map, length, is_empty, if◌then◌else◌, ltb, ◌==◌,
}
use myqueue.Prelude.Decimal.{decimal, int_to_string, join_ints}
use myqueue.Prelude.Int.{ℤ, pos, negsuc, eqb}
use myqueue.Prelude.Parse.{stoi, stoull}
use myqueue.Prelude.Text.{Bytes, text, text_eq}
use myqueue.Protocol.Responses.Tasks.{TaskInfo, QueueResponse, to_int32}
use myqueue.Cli.{
  Client, Line, Exit, exit, missing_task_id, no_server, invalid_task_id, invalid_line_count,
  query_failed, info_failed, log_failed, stop_failed, stop_sent, queue_empty, summary, row, detail,
  task_not_found, log_error, log_header, log_text,
}

-- `std::setw(2)` with a fill of zeros, on an int.
unfoldable pub two_digits : ℤ → Bytes
two_digits i = let s = int_to_string i in if ltb (length s) 2 then b'0' ∷ s else s

-- The quotients become ints.
unfoldable pub hours_minutes_seconds : ℕ → Bytes
unfolding two_digits
hours_minutes_seconds n =
    two_digits (to_int32 (pos (n / 3600)))
    ++ b':' ∷ two_digits (pos (n % 3600 / 60))
    ++ b':' ∷ two_digits (pos (n % 60))

-- `formatDuration` of `info`, and the durations of the completed tasks.
unfoldable pub format_duration : ℤ → Bytes
unfolding hours_minutes_seconds
format_duration (pos zero) = text "-"
format_duration (pos (suc n)) = hours_minutes_seconds (suc n)
format_duration (negsuc n) = text "-"

-- `formatIntList`.
unfoldable pub format_int_list : List ℤ → Bytes
format_int_list [] = text "-"
format_int_list (i ∷ is) = join_ints (i ∷ is)

-- The cell for the exit code, which only the full listing has.
abbrev exit_cell : Bool → Bytes → List Bytes
exit_cell true cell = cell ∷ []
exit_cell false cell = []

unfoldable pub calculate_duration : TaskInfo → Bytes
calculate_duration t =
    if text_eq t.status (text "running") then format_duration t.duration_seconds else text "-"

unfoldable pub running_row : Bool → TaskInfo → List Bytes
unfolding calculate_duration
running_row show_all t =
    decimal t.id ∷ text "RUNNING" ∷ exit_cell show_all (text "-")
    ++ calculate_duration t ∷ join_ints t.cpus ∷ join_ints t.gpus ∷ t.workdir ∷ []

unfoldable pub pending_row : Bool → TaskInfo → List Bytes
unfolding format_int_list
pending_row show_all t =
    decimal t.id ∷ text "PENDING" ∷ exit_cell show_all (text "-")
    ++ text "-" ∷ format_int_list t.cpus ∷ format_int_list t.gpus ∷ t.workdir ∷ []

-- The status that is printed for a task that is over.
unfoldable pub shown_status : TaskInfo → Bytes
shown_status t =
    if text_eq t.status (text "completed")
    then (if eqb t.exit_code (pos 0) then text "COMPLETED" else text "FAILED")
    else if text_eq t.status (text "cancelled")
    then text "CANCELLED"
    else t.status

unfoldable pub completed_row : TaskInfo → List Bytes
unfolding shown_status format_int_list format_duration
completed_row t =
    decimal t.id
    ∷ shown_status t
    ∷ int_to_string t.exit_code
    ∷ format_duration t.duration_seconds
    ∷ format_int_list t.cpus
    ∷ format_int_list t.gpus
    ∷ t.workdir
    ∷ []

-- The flags of `sq`: whether to show all, and the summary only.
unfoldable pub query_flags : Bool × Bool → List Bytes → Bool × Bool
query_flags flags [] = flags
query_flags (all, only) (arg ∷ args) =
    query_flags
      (if text_eq arg (text "all")
        then (true, only)
        else if text_eq arg (text "-s") || text_eq arg (text "--summary")
        then (all, true)
        else (all, only))
      args

unfoldable pub query_lines : Bool → Bool → QueueResponse → List Line
unfolding running_row pending_row completed_row
query_lines all only qr =
    let counts =
      summary (length qr.running) (length qr.pending)
        (if all then some (length qr.completed) else none) in
    let rows =
      map (λ t. row (running_row all t)) qr.running
      ++ (map (λ t. row (pending_row all t)) qr.pending
          ++ (if all then map (λ t. row (completed_row t)) qr.completed else [])) in
    if only
    then counts ∷ []
    else rows
      ++ (if is_empty qr.running && (is_empty qr.pending && is_empty qr.completed)
          then queue_empty ∷ []
          else counts ∷ [])

-- The count of lines that `log` is given; `none` if it is no number.
unfoldable pub tail_option : ℤ → List Bytes → Option ℤ
tail_option n [] = some n
tail_option n (arg ∷ []) = some n
tail_option n (arg ∷ v ∷ args) = elim (text_eq arg (text "-n") || text_eq arg (text "--tail")) [
  | true ↦ elim (stoi v) [ none ↦ none | some k ↦ tail_option k args ]
  | false ↦ tail_option n (v ∷ args)
]

-- The content of a log as it is printed, with a line end at its end.
unfoldable pub printed_log : Bytes → Bytes
printed_log [] = []
printed_log (c ∷ []) = if c == 10 then c ∷ [] else c ∷ 10 ∷ []
printed_log (c ∷ d ∷ s) = c ∷ printed_log (d ∷ s)

module _ {S : Type 0} (client : Client S) where
  unfoldable pub queue_command : List Bytes → S → Exit S
  unfolding query_flags query_lines
  queue_command args s =
      let (all, only) = query_flags (false, false) args in
      let (result, s') = client.query_queue all s in
      if not (client.connects s) then exit 1 (no_server ∷ []) s else elim result [
        | none ↦ exit 1 (query_failed ∷ []) s'
        | some qr ↦ exit 0 (query_lines all only qr) s'
      ]

  unfoldable pub stop_command : S → Exit S
  stop_command s =
      let (done, s') = client.shutdown s in
      if not (client.connects s)
      then exit 1 (no_server ∷ []) s
      else if done
      then exit 0 (stop_sent ∷ []) s'
      else exit 1 (stop_failed ∷ []) s'

  -- The details stand for the texts of their fields.
  unfoldable pub show_info : ℕ → S → Exit S
  show_info id s =
      let (result, s') = client.get_task_info id s in
      if not (client.connects s) then exit 1 (no_server ∷ []) s else elim result [
        | none ↦ exit 1 (info_failed ∷ []) s'
        | some info ↦
            if not info.found
            then exit 1 (task_not_found id ∷ []) s'
            else exit 0 (detail info ∷ []) s'
      ]

  unfoldable pub info_command : List Bytes → S → Exit S
  unfolding show_info
  info_command [] s = exit 1 (missing_task_id ∷ []) s
  info_command (arg ∷ args) s = elim (stoull arg) [
    | none ↦ exit 1 (invalid_task_id ∷ []) s
    | some id ↦ show_info id s
  ]

  unfoldable pub show_log : ℕ → ℤ → S → Exit S
  unfolding printed_log
  show_log id tail_lines s =
      let (result, s') = client.get_task_log id tail_lines s in
      if not (client.connects s) then exit 1 (no_server ∷ []) s else elim result [
        | none ↦ exit 1 (log_failed ∷ []) s'
        | some r ↦
            if not r.found
            then exit 1 (log_error r.error ∷ []) s'
            else exit 0 (log_header r.log_path ∷ log_text (printed_log r.content) ∷ []) s'
      ]

  unfoldable pub log_command : List Bytes → S → Exit S
  unfolding show_log tail_option
  log_command [] s = exit 1 (missing_task_id ∷ []) s
  log_command (arg ∷ args) s = elim (stoull arg) [
    | none ↦ exit 1 (invalid_task_id ∷ []) s
    | some id ↦ elim (tail_option (pos 0) args) [
      | none ↦ exit 1 (invalid_line_count ∷ []) s
      | some n ↦ show_log id n s
    ]
  ]
