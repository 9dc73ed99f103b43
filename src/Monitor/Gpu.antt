-- ===== src/Monitor/Gpu.antt =====
-- The GPU monitor: include/myqueue/gpu_monitor.h and src/core/gpu_monitor.cpp. What nvidia-smi prints
-- is an argument: the empty text, if it fails.
pub mod Available
use myqueue.Prelude.{
  ℕ, zero, suc, ◌+◌, ◌-◌, ◌≤◌, ◌≡◌, Bool, true, false, not, ◌&&◌, Option, none, some, List, [], ◌∷◌,
  is_empty, if◌then◌else◌, ltb, arith,
}
use mathlib.Core.Option
use myqueue.Prelude.Int.{ℤ, pos, negsuc, eqb}
use myqueue.Prelude.Parse.{find_first_not_of, find_last_not_of, substr, split_on, stoi, stoull}
use myqueue.Prelude.Set.{contains, insert_all, erase_all}
use myqueue.Prelude.Text.{Bytes}

pub record GpuInfo : Type 0 where
  pub device_id : ℤ
  pub memory_used_mb : ℕ
  pub memory_total_mb : ℕ
  pub is_busy : Bool
  pub is_allocated : Bool

pub record GpuMonitor : Type 0 where
  pub memory_threshold_mb : ℕ
  pub total_gpus : ℤ
  pub allocated_gpus : List ℤ
  pub mock_mode : Bool
  pub mock_data : List GpuInfo

unfoldable pub new_gpu_monitor : ℕ → ℤ → GpuMonitor
new_gpu_monitor threshold total = record {
  memory_threshold_mb = threshold;
  total_gpus = total;
  allocated_gpus = [];
  mock_mode = false;
  mock_data = [];
}

-- The rounds of `for (int i = start; i < end; ++i)` from 0 up.
abbrev pub rounds : ℤ → ℕ
rounds (pos n) = n
rounds (negsuc n) = 0

-- `gpu.is_busy` and `gpu.is_allocated` as the mock mode recomputes them.
refresh_mock : GpuMonitor → List GpuInfo → List GpuInfo
refresh_mock m [] = []
refresh_mock m (g ∷ gs) =
    record g {
      is_busy = ltb m.memory_threshold_mb g.memory_used_mb;
      is_allocated = contains g.device_id m.allocated_gpus;
    }
    ∷ refresh_mock m gs

-- All GPUs from `i` on as busy: what is assumed when nvidia-smi fails.
assume_busy : GpuMonitor → ℕ → ℕ → List GpuInfo
assume_busy m i zero = []
assume_busy m i (suc n) =
    record {
      device_id = pos i;
      memory_used_mb = m.memory_threshold_mb + 1;
      memory_total_mb = 0;
      is_busy = true;
      is_allocated = contains (pos i) m.allocated_gpus;
    }
    ∷ assume_busy m (suc i) n

-- `info.is_allocated` for each device that was parsed.
mark_allocated : GpuMonitor → List GpuInfo → List GpuInfo
mark_allocated m [] = []
mark_allocated m (g ∷ gs) =
    record g { is_allocated = contains g.device_id m.allocated_gpus } ∷ mark_allocated m gs

-- " \t" and " \t\r\n".
abbrev blanks : Bytes
blanks = 32 ∷ 9 ∷ []

abbrev blanks_and_ends : Bytes
blanks_and_ends = 32 ∷ 9 ∷ 13 ∷ 10 ∷ []

-- The text between two positions that were found, both included.
abbrev between : Bytes → ℕ → ℕ → Bytes
between s start end = substr s start (end - start + 1)

-- A token with no other character than blanks stays as it is.
trim_token : Bytes → Bytes
trim_token token = elim (find_first_not_of blanks token) [
  | none ↦ token
  | some start ↦ elim (find_last_not_of blanks token) [
    | none ↦ token
    | some end ↦ between token start end
  ]
]

-- The `switch`; `none` is the exception of std::stoi or std::stoul.
parse_field : ℕ → Bytes → GpuInfo → Option GpuInfo
parse_field zero token info = Option.map (λ v. record info { device_id = v }) (stoi token)
parse_field (suc zero) token info =
    Option.map (λ v. record info { memory_used_mb = v }) (stoull token)
parse_field (suc (suc zero)) token info =
    Option.map (λ v. record info { memory_total_mb = v }) (stoull token)
parse_field (suc (suc (suc n))) token info = some info

-- The loop over the tokens of one line: the number of fields read, and what they say.
parse_fields : List Bytes → ℕ → GpuInfo → ℕ × GpuInfo
parse_fields [] field info = (field, info)
parse_fields (token ∷ tokens) field info = elim (parse_field field (trim_token token) info) [
  | none ↦ (field, info)
  | some info' ↦ parse_fields tokens (suc field) info'
]

abbrev blank_info : GpuInfo
blank_info = record {
  device_id = pos 0;
  memory_used_mb = 0;
  memory_total_mb = 0;
  is_busy = false;
  is_allocated = false;
}

-- The device that a trimmed line describes, if it has three fields.
parse_device : GpuMonitor → Bytes → Option GpuInfo
parse_device m line =
    let (field, info) = parse_fields (split_on b',' line) 0 blank_info in
    if ltb field 3
    then none
    else some (record info {
      is_busy = ltb m.memory_threshold_mb info.memory_used_mb;
      is_allocated = contains info.device_id m.allocated_gpus;
    })

-- The body of the loop over the lines, with its `continue`s.
parse_line : GpuMonitor → Bytes → Option GpuInfo
parse_line m line = if is_empty line then none else elim (find_first_not_of blanks line) [
  | none ↦ none
  | some start ↦ elim (find_last_not_of blanks_and_ends line) [
    | none ↦ none
    | some end ↦ parse_device m (between line start end)
  ]
]

parse_lines : GpuMonitor → List Bytes → List GpuInfo
parse_lines m [] = []
parse_lines m (line ∷ lines) = elim (parse_line m line) [
  | none ↦ parse_lines m lines
  | some info ↦ info ∷ parse_lines m lines
]

unfoldable pub parse_nvidia_smi_output : GpuMonitor → Bytes → List GpuInfo
unfolding trim_token parse_field parse_fields parse_device parse_line parse_lines
parse_nvidia_smi_output m output = parse_lines m (split_on 10 output)

unfoldable pub query_gpus : GpuMonitor → Bytes → List GpuInfo
unfolding refresh_mock assume_busy mark_allocated parse_nvidia_smi_output
query_gpus m output =
    if m.mock_mode
    then refresh_mock m m.mock_data
    else if is_empty output
    then assume_busy m 0 (rounds m.total_gpus)
    else mark_allocated m (parse_nvidia_smi_output m output)

-- The first entry for a device.
find_device : ℤ → List GpuInfo → Option GpuInfo
find_device id [] = none
find_device id (g ∷ gs) = if eqb g.device_id id then some g else find_device id gs

-- A device that no entry names counts as busy.
busy_or_unknown : Option Bool → Bool
busy_or_unknown none = true
busy_or_unknown (some b) = b

unfoldable pub is_gpu_busy : GpuMonitor → Bytes → ℤ → Bool
unfolding find_device busy_or_unknown parse_nvidia_smi_output
is_gpu_busy m output id =
    if contains id m.allocated_gpus
    then true
    else if m.mock_mode
    then busy_or_unknown
        (Option.map (λ g. ltb m.memory_threshold_mb g.memory_used_mb) (find_device id m.mock_data))
    else busy_or_unknown
        (Option.map (λ g. g.is_busy) (find_device id (parse_nvidia_smi_output m output)))

-- Whether device `i` is available, by the entries or, if there is none, by the allocations.
device_available : GpuMonitor → List GpuInfo → ℤ → Bool
device_available m gpus i = elim (find_device i gpus) [
  | some g ↦ not g.is_busy && not g.is_allocated
  | none ↦ not (contains i m.allocated_gpus)
]

available_from : GpuMonitor → List GpuInfo → ℕ → ℕ → List ℤ
available_from m gpus i zero = []
available_from m gpus i (suc n) =
    if device_available m gpus (pos i)
    then pos i ∷ available_from m gpus (suc i) n
    else available_from m gpus (suc i) n

unfoldable pub get_available_gpus : GpuMonitor → Bytes → List ℤ
unfolding query_gpus find_device device_available available_from
get_available_gpus m output = available_from m (query_gpus m output) 0 (rounds m.total_gpus)

unfoldable pub allocate_gpus : GpuMonitor → List ℤ → GpuMonitor
allocate_gpus m ids = record m { allocated_gpus = insert_all ids m.allocated_gpus }

unfoldable pub release_gpus : GpuMonitor → List ℤ → GpuMonitor
release_gpus m ids = record m { allocated_gpus = erase_all ids m.allocated_gpus }

abbrev pub get_allocated_gpus : GpuMonitor → List ℤ
get_allocated_gpus m = m.allocated_gpus

abbrev pub set_memory_threshold : GpuMonitor → ℕ → GpuMonitor
set_memory_threshold m threshold = record m { memory_threshold_mb = threshold }

abbrev pub set_mock_mode : GpuMonitor → Bool → GpuMonitor
set_mock_mode m enable = record m { mock_mode = enable }

abbrev pub set_mock_data : GpuMonitor → List GpuInfo → GpuMonitor
set_mock_data m infos = record m { mock_data = infos }
