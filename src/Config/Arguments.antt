-- ===== src/Config/Arguments.antt =====
-- The paths of the user and the arguments of the server: fromArgs and what it calls in config.cpp.
use myqueue.Prelude.{
  ◌≡◌, refl, ap, true, Option, none, some, List, [], ◌∷◌, ◌++◌, map, All, if◌then◌else◌, ◌==◌,
}
use myqueue.Prelude.Decimal.{IsInt32, int_to_string, stoi-int_to_string, join_ints, split-join_ints}
use myqueue.Prelude.Int.{ℤ}
use myqueue.Prelude.Parse.{split_on, stoi, stoull}
use myqueue.Prelude.Text.{Bytes, text, text_eq}
use myqueue.Monitor.ProcStat.{Double}
use myqueue.Config.{Config, default_config}

-- getenv of HOME and USER, the entry of getpwuid, and gethostname; `none` where they give nothing. A C
-- string that is set may be empty. `stod` is std::stod, and `none` its exception.
pub record Host : Type 0 where
  pub home : Option Bytes
  pub user : Option Bytes
  pub pw_dir : Option Bytes
  pub pw_name : Option Bytes
  pub hostname : Option Bytes
  pub stod : Bytes → Option Double

-- A variable that is set and not empty.
abbrev set_variable : Option Bytes → Option Bytes
set_variable none = none
set_variable (some []) = none
set_variable (some (c ∷ s)) = some (c ∷ s)

abbrev or_bytes : Option Bytes → Bytes → Bytes
or_bytes none d = d
or_bytes (some s) d = s

module _ (host : Host) where
  unfoldable pub get_hostname : Bytes
  get_hostname = or_bytes host.hostname (text "localhost")

  unfoldable pub get_username : Bytes
  get_username = or_bytes (set_variable host.user) (or_bytes host.pw_name (text "unknown"))

  unfoldable pub get_home_dir : Bytes
  get_home_dir = or_bytes (set_variable host.home) (or_bytes host.pw_dir (text "/tmp"))

  -- The home directory in front of the rest, or the path as it is if there is none.
  abbrev in_home : Bytes → Bytes → Bytes
  in_home path rest = elim (set_variable host.home) [
    | some home ↦ home ++ rest
    | none ↦ elim host.pw_dir [ some dir ↦ dir ++ rest | none ↦ path ]
  ]

  unfoldable pub expand_path : Bytes → Bytes
  expand_path [] = []
  expand_path (c ∷ rest) = if c == b'~' then in_home (c ∷ rest) rest else c ∷ rest

  unfoldable pub init_default_paths : Config → Config
  unfolding get_hostname get_username get_home_dir
  init_default_paths c = record c {
    socket_path = text "/tmp/myqueue_" ++ get_username ++ text ".sock";
    data_dir = get_home_dir ++ text "/.myqueue/" ++ get_hostname;
  }

-- The numbers that stoi takes, in their order.
unfoldable pub parsed_ints : List Bytes → List ℤ
parsed_ints [] = []
parsed_ints (item ∷ items) =
    let rest = parsed_ints items in elim (stoi item) [ none ↦ rest | some i ↦ i ∷ rest ]

unfoldable pub parse_int_list : Bytes → List ℤ
unfolding parsed_ints
parse_int_list str = parsed_ints (split_on b',' str)

abbrev or_keep {ℓ} : {A : Type ℓ} → Option A → A → A
or_keep none a = a
or_keep (some b) a = b

module _ (host : Host) where
  -- An argument that takes the next one as its value; `none` for any other.
  unfoldable pub valued : Config → Bytes → Bytes → Option Config
  unfolding expand_path parse_int_list
  valued c arg v =
      if text_eq arg (text "--log")
      then some (record c { enable_logging = true; log_dir = expand_path host v })
      else if text_eq arg (text "--gpumemory")
      then some
          (record c { gpu_memory_threshold_mb = or_keep (stoull v) c.gpu_memory_threshold_mb })
      else if text_eq arg (text "--cpuusage")
      then some (record c { cpu_util_threshold = or_keep (host.stod v) c.cpu_util_threshold })
      else if text_eq arg (text "--excpus")
      then some (record c { excluded_cpus = parse_int_list v })
      else if text_eq arg (text "--exgpus")
      then some (record c { excluded_gpus = parse_int_list v })
      else none

  -- An argument by itself.
  unfoldable pub flagged : Config → Bytes → Config
  flagged c arg = if text_eq arg (text "--joblog") then record c { enable_job_log = true } else c

  -- The loop over the arguments.
  unfoldable pub apply_args : Config → List Bytes → Config
  unfolding valued flagged
  apply_args c [] = c
  apply_args c (arg ∷ []) = flagged c arg
  apply_args c (arg ∷ v ∷ args) = elim (valued c arg v) [
    | some c' ↦ apply_args c' args
    | none ↦ apply_args (flagged c arg) (v ∷ args)
  ]

  -- The arguments from argv[1] on.
  unfoldable pub from_args : List Bytes → Config
  unfolding apply_args init_default_paths
  from_args args = apply_args (init_default_paths host default_config) args

parsed_ints_back : (is : List ℤ) → All IsInt32 is → parsed_ints (map int_to_string is) ≡ is
unfolding parsed_ints
parsed_ints_back [] h = refl
parsed_ints_back (i ∷ is) h =
    rw (stoi-int_to_string i h.0, parsed_ints) (ap (◌∷◌ i) (parsed_ints_back is h.1))

-- A list of ints that is printed with commas in between is read back as the same list.
pub parse_int_list-join_ints : (is : List ℤ) → All IsInt32 is → parse_int_list (join_ints is) ≡ is
unfolding parse_int_list
parse_int_list-join_ints is h = rw (split-join_ints is) (parsed_ints_back is h)
