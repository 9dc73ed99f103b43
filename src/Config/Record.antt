-- ===== src/Config/Record.antt =====
-- toJson, fromJson, save, load and operator== of src/core/config.cpp.
pub mod RoundTrip
use myqueue.Prelude.{
  ◌%◌, ◌/◌, ◌^◌, ◌<◌, ◌≡◌, Bool, true, false, not, ◌&&◌, ◌||◌, Option, none, some, List, [], ◌∷◌,
  ◌++◌, all_of, is_empty, if◌then◌else◌, ◌==◌,
}
use myqueue.Prelude.Int.{eqb}
use myqueue.Prelude.Text.{Bytes, text, text_eq}
use myqueue.Json.{Json, Result, ok, parse_error, ◌>>=◌, or_throw}
use myqueue.Queue.Persist.{Files, write_file}
use myqueue.Protocol.{value_or}
use myqueue.Monitor.ProcStat.{Double}
use myqueue.Config.{Config, default_config}
use myqueue.Config.Arguments.{Host, init_default_paths}

-- `==` of IEEE 754: a NaN equals nothing, and the two zeros are equal.
abbrev is_nan : Double → Bool
is_nan d = d / 2 ^ 52 % 2 ^ 11 == 2047 && not (d % 2 ^ 52 == 0)

abbrev is_zero : Double → Bool
is_zero d = d % 2 ^ 63 == 0

abbrev double_eq : Double → Double → Bool
double_eq a b = not (is_nan a) && (not (is_nan b) && (a == b || (is_zero a && is_zero b)))

abbrev bool_eq : Bool → Bool → Bool
bool_eq true b = b
bool_eq false b = not b

pub config_eq : Config → Config → Bool
config_eq a b = all_of (
    (a.gpu_memory_threshold_mb == b.gpu_memory_threshold_mb)
    ∷ double_eq a.cpu_util_threshold b.cpu_util_threshold
    ∷ eqb a.cpu_check_duration_ms b.cpu_check_duration_ms
    ∷ eqb a.scheduling_interval_ms b.scheduling_interval_ms
    ∷ eqb a.process_check_interval_ms b.process_check_interval_ms
    ∷ eqb a.total_cpus b.total_cpus
    ∷ eqb a.total_gpus b.total_gpus
    ∷ text_eq a.socket_path b.socket_path
    ∷ text_eq a.data_dir b.data_dir
    ∷ text_eq a.log_dir b.log_dir
    ∷ bool_eq a.enable_logging b.enable_logging
    ∷ bool_eq a.enable_job_log b.enable_job_log
    ∷ [])

-- The paths that createDirectoryRecursive makes: each prefix in front of a slash but the first
-- character, then the path itself. `front` is what was read of the path.
unfoldable pub prefixes_from : Bytes → Bytes → List Bytes
prefixes_from front [] = front ∷ []
prefixes_from front (c ∷ s) =
    let rest = prefixes_from (front ++ c ∷ []) s in
    if c == b'/' && not (is_empty front) then front ∷ rest else rest

-- `exists` is stat, and `mkdir` whether mkdir made the directory or found that it exists.
unfoldable pub make_each : (exists mkdir : Bytes → Bool) → List Bytes → Bool
make_each exists mkdir [] = true
make_each exists mkdir (p ∷ ps) = (exists p || mkdir p) && make_each exists mkdir ps

unfoldable pub create_directory_recursive : (exists mkdir : Bytes → Bool) → Bytes → Bool
create_directory_recursive exists mkdir path = make_each exists mkdir (prefixes_from [] path)

abbrev pub config_path : Bytes → Bytes
config_path data_dir = data_dir ++ text "/config.json"

module _ {Value : Type 0} (json : Json Value) where
  pub config_value : Config → Value
  config_value c = json.set (text "excluded_gpus") (json.of_ints c.excluded_gpus) (
      json.set (text "excluded_cpus") (json.of_ints c.excluded_cpus) (
        json.set (text "enable_job_log") (json.of_bool c.enable_job_log) (
          json.set (text "enable_logging") (json.of_bool c.enable_logging) (
            json.set (text "log_dir") (json.of_text c.log_dir) (
              json.set (text "data_dir") (json.of_text c.data_dir) (
                json.set (text "socket_path") (json.of_text c.socket_path) (
                  json.set (text "total_gpus") (json.of_int c.total_gpus) (
                    json.set (text "total_cpus") (json.of_int c.total_cpus) (
                      json.set (text "process_check_interval_ms")
                        (json.of_int c.process_check_interval_ms)
                        (json.set (text "scheduling_interval_ms")
                          (json.of_int c.scheduling_interval_ms)
                          (json.set (text "cpu_check_duration_ms")
                            (json.of_int c.cpu_check_duration_ms)
                            (json.set (text "cpu_util_threshold")
                              (json.of_double c.cpu_util_threshold)
                              (json.set (text "gpu_memory_threshold_mb")
                                (json.of_uint c.gpu_memory_threshold_mb) json.object)))))))))))))

  pub config_to_json : Config → Bytes
  config_to_json c = json.dump_indented (config_value c)

  -- Each field is read if it is there, and else keeps its initial value.
  pub config_of : Value → Result Config
  config_of j = do
    let d = default_config
    gpu_memory_threshold_mb ←
        value_or json (text "gpu_memory_threshold_mb") json.get_uint d.gpu_memory_threshold_mb j
    cpu_util_threshold ←
        value_or json (text "cpu_util_threshold") json.get_double d.cpu_util_threshold j
    cpu_check_duration_ms ←
        value_or json (text "cpu_check_duration_ms") json.get_int d.cpu_check_duration_ms j
    scheduling_interval_ms ←
        value_or json (text "scheduling_interval_ms") json.get_int d.scheduling_interval_ms j
    process_check_interval_ms ←
        value_or json (text "process_check_interval_ms") json.get_int d.process_check_interval_ms j
    total_cpus ← value_or json (text "total_cpus") json.get_int d.total_cpus j
    total_gpus ← value_or json (text "total_gpus") json.get_int d.total_gpus j
    socket_path ← value_or json (text "socket_path") json.get_text d.socket_path j
    data_dir ← value_or json (text "data_dir") json.get_text d.data_dir j
    log_dir ← value_or json (text "log_dir") json.get_text d.log_dir j
    enable_logging ← value_or json (text "enable_logging") json.get_bool d.enable_logging j
    enable_job_log ← value_or json (text "enable_job_log") json.get_bool d.enable_job_log j
    excluded_cpus ← value_or json (text "excluded_cpus") json.get_ints d.excluded_cpus j
    excluded_gpus ← value_or json (text "excluded_gpus") json.get_ints d.excluded_gpus j
    ok (record {
      gpu_memory_threshold_mb = gpu_memory_threshold_mb;
      cpu_util_threshold = cpu_util_threshold;
      cpu_check_duration_ms = cpu_check_duration_ms;
      scheduling_interval_ms = scheduling_interval_ms;
      process_check_interval_ms = process_check_interval_ms;
      total_cpus = total_cpus;
      total_gpus = total_gpus;
      socket_path = socket_path;
      data_dir = data_dir;
      log_dir = log_dir;
      enable_logging = enable_logging;
      enable_job_log = enable_job_log;
      excluded_cpus = excluded_cpus;
      excluded_gpus = excluded_gpus;
    })

  pub config_from_json : Bytes → Result Config
  config_from_json str = do j ← or_throw parse_error (json.parse str); config_of j

  -- `none` is the exception FILE_WRITE_ERROR.
  pub config_save : (exists mkdir can_write : Bytes → Bool) → Config → Files → Option Files
  config_save exists mkdir can_write c files =
      if is_empty c.data_dir
      then none
      else if not (create_directory_recursive exists mkdir c.data_dir)
      then none
      else if not (can_write (config_path c.data_dir))
      then none
      else some (write_file files (config_path c.data_dir) (config_to_json c))

  -- Without the file, the configuration is the initial one with the paths of the host.
  pub config_load : Host → Files → Bytes → Result Config
  config_load host files data_dir = elim (files (config_path data_dir)) [
    | none ↦ ok (record (init_default_paths host default_config) { data_dir = data_dir })
    | some content ↦ config_from_json content
  ]
