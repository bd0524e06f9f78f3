-- ===== src/Config/Load.antt =====
-- config/config_json.h and the loading half of config_json.cpp.
use market_bridge.Base.{◌++◌, Option, none, some, Bytes, codes}
use market_bridge.Base.Result.{Exception, runtime_error, what, Result, returns, throws, ◌>>=◌}
use market_bridge.Config.{Config}
use market_bridge.Config.Library.{Spdlog, JsonLibrary}
use market_bridge.Config.Merge.{Done, merge_json_config}

-- What a path can be opened as: the contents of a file, or a stream that is not good.
abbrev pub FileSystem : Type 0
FileSystem = Bytes → Option Bytes

-- LoadFromFile holds a path; LoadFromString holds a text, and a path that it never opens.
pub data Loader : Type 0 where
  load_from_file : Bytes → Loader
  load_from_string : Bytes → Bytes → Loader

unfoldable pub assign_path : Loader → Bytes → Loader
assign_path (load_from_file old) path = load_from_file path
assign_path (load_from_string str old) path = load_from_string str path

unfoldable pub source : Loader → Bytes
source (load_from_file path) = path
source (load_from_string str path) = str

-- What both catch blocks throw for an exception of their own.
abbrev pub failed_to_load : Loader → Exception → Exception
failed_to_load loader e =
    runtime_error
      (codes "failed to load configuration '" ++ (source loader ++ (codes "': " ++ what e)))

-- try { return r; } catch (const std::exception& e) { … }
abbrev pub rethrow : {A : Type 0} → Loader → Result A → Result A
rethrow loader (returns a) = returns a
rethrow loader (throws e) = throws (failed_to_load loader e)

-- `config = std::move(merged_config)`, or the catch block, by how the merge into the copy has ended: what
-- a throw leaves in the copy is lost with it.
abbrev pub commit : {L : Type 0} → Loader → Config L → Done (Config L) → Done (Config L)
commit loader config (merged_config, returns tt) = (merged_config, returns tt)
commit loader config (merged_config, throws e) = (config, throws (failed_to_load loader e))

module _ (fs : FileSystem) where
  unfoldable pub obtain_stream_from_file : Bytes → Result Bytes
  obtain_stream_from_file path = elim (fs path) [
    | none ↦ throws (runtime_error (codes "cannot open file"))
    | some contents ↦ returns contents
  ]

  -- operator() of a loader: the bytes of its stream.
  unfoldable pub obtain_stream : Loader → Result Bytes
  unfolding obtain_stream_from_file
  obtain_stream (load_from_file path) = obtain_stream_from_file path
  obtain_stream (load_from_string str path) = returns str

  module _ (J : JsonLibrary) (S : Spdlog) where
    open S use {Level}

    unfoldable pub load_from_stream : Loader → Result J.Json
    unfolding obtain_stream
    load_from_stream loader = rethrow loader (do stream ← obtain_stream loader; J.parse stream)

    -- The body of the try block, behind the copy `merged_config`.
    merge_copy : Result J.Json → Config Level → Done (Config Level)
    merge_copy (returns document) merged_config = merge_json_config J S document merged_config
    merge_copy (throws e) merged_config = (merged_config, throws e)

    -- The configuration that `config` refers to afterwards, and how the call ended.
    unfoldable pub load_json_config : Loader → Config Level → Done (Config Level)
    unfolding merge_copy
    load_json_config loader config =
        commit loader config (merge_copy (load_from_stream loader) config)
