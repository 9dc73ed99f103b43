-- ===== src/Tests/Configs.antt =====
-- The theorems on the configuration, applied.
use myqueue.Prelude.{◌≡◌, refl, none, some, List, [], ◌∷◌, arith, true}
use myqueue.Prelude.Decimal.{join_ints}
use myqueue.Prelude.Int.{ℤ, pos, negsuc}
use myqueue.Prelude.Text.{text}
use myqueue.Json.{ok}
use myqueue.Queue.Persist.{Files}
use myqueue.Config.{Config, default_config}
use myqueue.Config.Arguments.{Host, parse_int_list, parse_int_list-join_ints}
use myqueue.Config.Record.{
  config_save, config_load, create_directory_recursive, make_each, prefixes_from,
}
use myqueue.Config.Record.RoundTrip.{config_load-config_save}
use myqueue.Tests.Values.{values_json, values_laws}

abbrev some_ints : List ℤ
some_ints = pos 31 ∷ pos 0 ∷ negsuc 6 ∷ pos 2147483647 ∷ []

parse_int_list-join_ints_example : parse_int_list (join_ints some_ints) ≡ some_ints
parse_int_list-join_ints_example =
    parse_int_list-join_ints some_ints
      (omega arith, (omega arith, (omega arith, (omega arith, tt))))

abbrev small_host : Host
small_host = record {
  home = some (text "/h");
  user = none;
  pw_dir = none;
  pw_name = some (text "u");
  hostname = none;
  stod = λ s. none;
}

abbrev small_config : Config
small_config = record default_config { data_dir = text "/h/q"; excluded_cpus = pos 3 ∷ [] }

abbrev no_files : Files
no_files path = none

config_load-config_save_example :
    (saved : Files) × ((config_save values_json
          (λ p. true)
          (λ p. true)
          (λ p. true)
          small_config
          no_files
        ≡ some saved)
      × (config_load values_json small_host saved (text "/h/q") ≡ ok small_config))
unfolding create_directory_recursive make_each prefixes_from
config_load-config_save_example =
    config_load-config_save values_json small_host (λ p. true) (λ p. true) (λ p. true) small_config
      no_files values_laws (omega arith) (omega arith) refl refl refl
