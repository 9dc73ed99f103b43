-- ===== src/Cli/Submit.antt =====
-- The command `sb`: handleSubmit of src/cli/main.cpp. `none` is an exception of std::stoi, which
-- nothing catches.
use mathlib.Core.Option
use myqueue.Prelude.{
  ℕ, Bool, not, ◌&&◌, ◌||◌, Option, none, some, List, [], ◌∷◌, ◌++◌, map, is_empty, if◌then◌else◌,
}
use myqueue.Prelude.Int.{ℤ, pos}
use myqueue.Prelude.Parse.{stoi}
use myqueue.Prelude.Text.{Bytes, text, text_eq}
use myqueue.Config.Arguments.{parse_int_list}
use myqueue.Queue.{SubmitRequest}
use myqueue.Queue.Batch.{parse_workdirs_file}
use myqueue.Queue.Persist.{Files}
use myqueue.Cli.{
  Client, Line, Exit, exit, Shell, get_absolute_path, missing_script, no_server, no_valid_directory,
  submit_failed, skipped_directory, submit_warning, submitted, submitted_batch,
}

-- The local variables that the options set.
pub record Options : Type 0 where
  pub ncpu : ℤ
  pub ngpu : ℤ
  pub specific_cpus : List ℤ
  pub specific_gpus : List ℤ
  pub workdir : Bytes
  pub workdirs_file : Bytes
  pub log_file : Bytes

abbrev pub no_options : Options
no_options = record {
  ncpu = pos 1;
  ngpu = pos 1;
  specific_cpus = [];
  specific_gpus = [];
  workdir = [];
  workdirs_file = [];
  log_file = [];
}

-- What one argument and the next one do: nothing, an exception, or new options.
pub data Taken : Type 0 where
  untaken aborted : Taken
  taken : Options → Taken

abbrev taken_or_aborted : Option Options → Taken
taken_or_aborted none = aborted
taken_or_aborted (some o) = taken o

module _ (shell : Shell) where
  unfoldable pub option : Options → Bytes → Bytes → Taken
  option o arg v =
      if text_eq arg (text "--ncpu") || text_eq arg (text "-n")
      then taken_or_aborted (Option.map (λ n. record o { ncpu = n }) (stoi v))
      else if text_eq arg (text "--ngpu") || text_eq arg (text "-g")
      then taken_or_aborted (Option.map (λ n. record o { ngpu = n }) (stoi v))
      else if text_eq arg (text "--cpus")
      then taken (record o { specific_cpus = parse_int_list v })
      else if text_eq arg (text "--gpus")
      then taken (record o { specific_gpus = parse_int_list v })
      else if text_eq arg (text "-w") || text_eq arg (text "--workdir")
      then taken (record o { workdir = get_absolute_path shell v })
      else if text_eq arg (text "-ws") || text_eq arg (text "--workdirs")
      then taken (record o { workdirs_file = get_absolute_path shell v })
      else if text_eq arg (text "--logfile")
      then taken (record o { log_file = v })
      else untaken

  -- The loop over the arguments. The last one has no next one, and sets nothing.
  unfoldable pub options : Options → List Bytes → Option Options
  unfolding option
  options o [] = some o
  options o (arg ∷ []) = some o
  options o (arg ∷ v ∷ args) = elim (option o arg v) [
    | taken o' ↦ options o' args
    | aborted ↦ none
    | untaken ↦ options o (v ∷ args)
  ]

  abbrev or_empty : Option Bytes → Bytes
  or_empty none = []
  or_empty (some dir) = dir

  -- The current directory, if no directory is named.
  unfoldable pub with_default : Options → Options
  with_default o =
      if is_empty o.workdir && is_empty o.workdirs_file
      then record o { workdir = or_empty shell.cwd }
      else o

unfoldable pub request_of : Bytes → Options → Bytes → SubmitRequest
request_of script o workdir = record {
  script_path = script;
  workdir = workdir;
  ncpu = o.ncpu;
  ngpu = o.ngpu;
  specific_cpus = o.specific_cpus;
  specific_gpus = o.specific_gpus;
  log_file = o.log_file;
}

module _ {S : Type 0} (client : Client S) where
  -- The ids of the tasks, the warnings and the state.
  unfoldable pub submit_each : Bytes → Options → List Bytes → S → (List ℕ × List Line) × S
  unfolding request_of
  submit_each script o [] s = (([], []), s)
  submit_each script o (dir ∷ dirs) s =
      let (result, s') = client.submit_request (request_of script o dir) s in
      let ((ids, lines), s'') = submit_each script o dirs s' in
      (elim result [ some id ↦ (id ∷ ids, lines) | none ↦ (ids, submit_warning dir ∷ lines) ], s'')

  unfoldable pub submit_directories : Bytes → Options → List Bytes × List Bytes → S → Exit S
  unfolding submit_each
  submit_directories script o (valid, invalid) s =
      let ((ids, warnings), s') = submit_each script o valid s in
      if is_empty valid
      then exit 1 (no_valid_directory ∷ []) s
      else exit 0 (map skipped_directory invalid ++ (warnings ++ submitted_batch ids ∷ [])) s'

  unfoldable pub submit_single : Bytes → Options → S → Exit S
  unfolding request_of
  submit_single script o s =
      let (result, s') = client.submit_request (request_of script o o.workdir) s in
      elim result [
        | some id ↦ exit 0 (submitted id ∷ []) s'
        | none ↦ exit 1 (submit_failed ∷ []) s'
      ]

  -- The arguments are those from argv[2] on.
  unfoldable pub submit_command :
      Shell → (is_directory : Bytes → Bool) → Files → List Bytes → S → Option (Exit S)
  unfolding options with_default submit_directories submit_single
  submit_command shell is_directory files [] s = some (exit 1 (missing_script ∷ []) s)
  submit_command shell is_directory files (script ∷ args) s = elim (options shell no_options args) [
    | none ↦ none
    | some given ↦
        let o = with_default shell given in
        let path = get_absolute_path shell script in
        some (
          if not (client.connects s)
          then exit 1 (no_server ∷ []) s
          else if not (is_empty o.workdirs_file)
          then submit_directories path o (parse_workdirs_file is_directory files o.workdirs_file) s
          else submit_single path o s)
  ]
