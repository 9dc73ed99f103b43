-- ===== src/Config/Record/RoundTrip.antt =====
-- A configuration that is saved and loaded.
use myqueue.Prelude.{◌^◌, ◌<◌, ◌≡◌, refl, Bool, true, false, some, is_empty}
use myqueue.Prelude.Text.{Bytes, text, text_eq, text_eq_iff}
use myqueue.Json.{Json, JsonLaws, IsFinite, ok}
use myqueue.Queue.Persist.{Files, write_file}
use myqueue.Protocol.RoundTrip.{value_or_read}
use myqueue.Config.{Config, default_config}
use myqueue.Config.Arguments.{Host}
use myqueue.Config.Record.{
  create_directory_recursive, config_path, config_value, config_to_json, config_of,
  config_from_json, config_save, config_load,
}

module _ {Value : Type 0} (json : Json Value) (L : JsonLaws json) where
  config_of-value :
      (c : Config)
      → c.gpu_memory_threshold_mb < 2 ^ 64
      → IsFinite c.cpu_util_threshold
      → config_of json (config_value json c) ≡ ok c
  unfolding config_of config_value text_eq
  config_of-value c small finite =
      let v = config_value json c in
      let d = default_config in
      rw (
        value_or_read json L (text "gpu_memory_threshold_mb") json.get_uint
            d.gpu_memory_threshold_mb v (json.of_uint c.gpu_memory_threshold_mb)
            c.gpu_memory_threshold_mb (simp L.at-set)
            (L.get_uint-of_uint c.gpu_memory_threshold_mb small),
        value_or_read json L (text "cpu_util_threshold") json.get_double d.cpu_util_threshold v
            (json.of_double c.cpu_util_threshold) c.cpu_util_threshold (simp L.at-set)
            (L.get_double-of_double c.cpu_util_threshold finite),
        value_or_read json L (text "cpu_check_duration_ms") json.get_int d.cpu_check_duration_ms v
            (json.of_int c.cpu_check_duration_ms) c.cpu_check_duration_ms (simp L.at-set)
            (L.get_int-of_int c.cpu_check_duration_ms),
        value_or_read json L (text "scheduling_interval_ms") json.get_int d.scheduling_interval_ms v
            (json.of_int c.scheduling_interval_ms) c.scheduling_interval_ms (simp L.at-set)
            (L.get_int-of_int c.scheduling_interval_ms),
        value_or_read json L (text "process_check_interval_ms") json.get_int
            d.process_check_interval_ms v (json.of_int c.process_check_interval_ms)
            c.process_check_interval_ms (simp L.at-set)
            (L.get_int-of_int c.process_check_interval_ms),
        value_or_read json L (text "total_cpus") json.get_int d.total_cpus v
            (json.of_int c.total_cpus) c.total_cpus (simp L.at-set) (L.get_int-of_int c.total_cpus),
        value_or_read json L (text "total_gpus") json.get_int d.total_gpus v
            (json.of_int c.total_gpus) c.total_gpus (simp L.at-set) (L.get_int-of_int c.total_gpus),
        value_or_read json L (text "socket_path") json.get_text d.socket_path v
            (json.of_text c.socket_path) c.socket_path (simp L.at-set)
            (L.get_text-of_text c.socket_path),
        value_or_read json L (text "data_dir") json.get_text d.data_dir v (json.of_text c.data_dir)
            c.data_dir (simp L.at-set) (L.get_text-of_text c.data_dir),
        value_or_read json L (text "log_dir") json.get_text d.log_dir v (json.of_text c.log_dir)
            c.log_dir (simp L.at-set) (L.get_text-of_text c.log_dir),
        value_or_read json L (text "enable_logging") json.get_bool d.enable_logging v
            (json.of_bool c.enable_logging) c.enable_logging (simp L.at-set)
            (L.get_bool-of_bool c.enable_logging),
        value_or_read json L (text "enable_job_log") json.get_bool d.enable_job_log v
            (json.of_bool c.enable_job_log) c.enable_job_log (simp L.at-set)
            (L.get_bool-of_bool c.enable_job_log),
        value_or_read json L (text "excluded_cpus") json.get_ints d.excluded_cpus v
            (json.of_ints c.excluded_cpus) c.excluded_cpus (simp L.at-set)
            (L.get_ints-of_ints c.excluded_cpus),
        value_or_read json L (text "excluded_gpus") json.get_ints d.excluded_gpus v
            (json.of_ints c.excluded_gpus) c.excluded_gpus (simp L.at-set)
            (L.get_ints-of_ints c.excluded_gpus),
      )

-- A configuration is saved if its data directory is named and exists or is made, and the file opens; and
-- what is loaded from that directory is the same configuration. The memory threshold is in the range of
-- size_t and the utilization threshold is finite; the JSON library keeps its laws.
pub config_load-config_save :
    {Value : Type 0} (json : Json Value) (host : Host) (exists mkdir can_write : Bytes → Bool)
    (c : Config) (files : Files)
    → JsonLaws json
    → c.gpu_memory_threshold_mb < 2 ^ 64
    → IsFinite c.cpu_util_threshold
    → is_empty c.data_dir ≡ false
    → create_directory_recursive exists mkdir c.data_dir ≡ true
    → can_write (config_path c.data_dir) ≡ true
    → (saved : Files) × ((config_save json exists mkdir can_write c files ≡ some saved)
        × (config_load json host saved c.data_dir ≡ ok c))
unfolding config_save config_load config_from_json config_to_json write_file
config_load-config_save json host exists mkdir can_write c files L small finite named made opens =
    let path = config_path c.data_dir in
    let saved = write_file files path (config_to_json json c) in
    let same : text_eq path path ≡ true = (text_eq_iff path path).1 refl in
    (
      saved,
      (
        rw (named, made, opens) refl,
        rw (same, config_load, L.parse-dump_indented (config_value json c))
            (config_of-value json L c small finite),
      ),
    )
