-- ===== src/Examples/Settings.antt =====
-- Configurations, documents and command lines at concrete inputs.
use market_bridge.Base.{
  ℕ, ◌+◌, ◌^◌, ◌≤◌, ◌≡◌, ◌↔◌, refl, true, false, List, [], ◌∷◌, none, some, Bytes, codes, arith,
  equal, ◌||◌, if◌then◌else◌,
}
use market_bridge.Base.Int.{pos}
use market_bridge.Base.Result.{Exception, library_exception, returns, throws}
use market_bridge.Config.{file, Config, default_config}
use market_bridge.Examples.Libraries.{
  Tree, object, member, end, null, unsigned, items, find, integer_of, natural_of, is_unsigned,
  document, json, levels, json-NumberLaws,
}
use market_bridge.Config.Keys.{min_port, max_port}
use market_bridge.Config.Read.{obtain_object, read_port, read_uint32, validate_keys}
use market_bridge.Config.Merge.{
  assign_section, place_server, place_tls, place_upstream, place_logging, place_throttling, assign,
  merge_server, merge_throttling, merge_json_config,
}
use market_bridge.Config.Load.{
  load_from_stream, obtain_stream_from_file, assign_path, FileSystem, load_from_file,
  load_json_config,
}
use market_bridge.Config.Numbers.{read_port_iff}
use market_bridge.Config.Fields.{Merged, merge_json_config_iff}
use market_bridge.Config.Valid.{IsValid}
use market_bridge.Config.Atomic.{Loaded, load_json_config-Loaded}
use market_bridge.Args.{finish, merge_parsed_arguments, ParseResult, Parser, process_arguments}
use market_bridge.Args.Precedence.{Processed, process_arguments-Processed}
use market_bridge.Main.{after_arguments, main, serve, IsSound, main-IsSound}
use market_bridge.Logger.{open_sink, Host, init_logger}

abbrev defaults : Config ℕ
defaults = default_config 2

-- The document over the defaults.
abbrev merged : Config ℕ
merged = record defaults {
  server = record defaults.server { http_port = 9000 };
  throttling = record defaults.throttling { burst_size = 7 };
}

merge_json_config-document : merge_json_config json levels document defaults ≡ (merged, returns tt)
unfolding merge_json_config obtain_object validate_keys items equal assign assign_section
    place_server place_tls place_upstream place_logging place_throttling find merge_server read_port
    is_unsigned integer_of merge_throttling read_uint32 natural_of
merge_json_config-document = refl

read_port_iff_example :
    (read_port json (codes "port") (unsigned (2 ^ 32 + 80)) ≡ returns 80)
    ↔ ((true ≡ true) × (pos (2 ^ 32 + 80) ≡ pos 80) × (min_port ≤ 80) × (80 ≤ max_port))
unfolding is_unsigned natural_of
read_port_iff_example =
    read_port_iff json json-NumberLaws (codes "port") (unsigned (2 ^ 32 + 80)) 80

merge_json_config_iff_example :
    (merge_json_config json levels document defaults ≡ (merged, returns tt))
    ↔ Merged json levels document defaults merged
merge_json_config_iff_example = merge_json_config_iff json levels document defaults merged

defaults-IsValid : IsValid defaults
defaults-IsValid = record {
  http_port = omega arith;
  https_port = omega arith;
  upstream_host = λ e. cc;
  upstream_port = omega arith;
  requests_per_second = omega arith;
  burst_size = omega arith;
}

abbrev files : FileSystem
files = λ path. if equal path (codes "f") then some (codes "document") else none

-- --config f --http-port 9001
abbrev options : ParseResult
options = record {
  count = λ o. if equal o (codes "config") || equal o (codes "http-port") then 1 else 0;
  as_string = λ o. codes "f";
  as_uint16 = λ o. 9001;
  as_uint32 = λ o. 0;
  as_bool = λ o. false;
}

abbrev parse : Parser
parse = λ argv path. (returns options, codes "f")

abbrev argv : List Bytes
argv =
    codes "market-bridge" ∷ codes "--config" ∷ codes "f" ∷ codes "--http-port" ∷ codes "9001" ∷ []

process_arguments-Processed_example :
    Processed levels files json parse
      (returns options)
      (load_from_file [])
      (record defaults { config_path = codes "f" })
      (process_arguments levels files json parse argv (load_from_file []) defaults)
process_arguments-Processed_example =
    process_arguments-Processed levels files json parse argv (load_from_file []) defaults

-- A new user's machine: no directory is there, and only what has a parent can be made.
abbrev missing : Exception
missing = library_exception (codes "No such file or directory")

abbrev host : Host
host = record {
  home = some (codes "/home/u");
  exists = λ path. returns false;
  create_directory = λ path. throws missing;
  daily_logger_mt = λ name path. returns tt;
  stdout_color_mt = λ name. returns tt;
}

abbrev to_file : Config ℕ
to_file = record defaults { logging = record defaults.logging { output = file } }

main-IsSound_example :
    IsSound levels files json parse host
      (λ c. returns tt)
      (main levels files json parse host (λ c. returns tt) argv)
main-IsSound_example = main-IsSound levels files json parse host (λ c. returns tt) argv

-- The document below the port of the command line, on a console.
abbrev served : Config ℕ
served = record merged {
  config_path = codes "f";
  server = record merged.server { http_port = 9001 };
}

served_started : (main levels files json parse host (λ c. returns tt) argv).started ≡ some served
unfolding main after_arguments serve init_logger open_sink process_arguments finish
    merge_parsed_arguments load_json_config load_from_stream obtain_stream_from_file assign_path
    merge_json_config obtain_object validate_keys items equal assign assign_section place_server
    place_tls place_upstream place_logging place_throttling find merge_server read_port is_unsigned
    integer_of merge_throttling read_uint32 natural_of
served_started = refl

load_json_config-Loaded_example :
    Loaded files json levels
      (load_from_file (codes "f"))
      defaults
      (load_json_config files json levels (load_from_file (codes "f")) defaults).0
      (load_json_config files json levels (load_from_file (codes "f")) defaults).1
load_json_config-Loaded_example =
    load_json_config-Loaded files json levels (load_from_file (codes "f")) defaults

-- A document whose second port is no number: the merge has written the first as it throws, and the load
-- leaves the configuration as it was.
abbrev half : Tree
half = object (
    member (codes "server")
      (object (member (codes "http_port") (unsigned 9000) (member (codes "https_port") null end)))
      end)

half_merged :
    (merge_json_config json levels half defaults).0
    ≡ record defaults { server = record defaults.server { http_port = 9000 } }
unfolding merge_json_config obtain_object validate_keys items equal assign assign_section
    place_server place_tls place_upstream place_logging place_throttling find merge_server read_port
    is_unsigned integer_of
half_merged = refl
