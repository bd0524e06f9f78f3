-- ===== src/Config/Read.antt =====
-- config/config_json.cpp: reading the values of the JSON configuration.
use market_bridge.Base.{
  ℕ, ◌-◌, ◌%◌, ◌^◌, Bool, true, false, not, ◌&&◌, ◌||◌, List, [], ◌∷◌, ◌++◌, Bytes, codes, leb,
  equal, is_empty, if◌then◌else◌,
}
use market_bridge.Base.Decimal.{to_string}
use market_bridge.Base.Int.{pos, ltb_ℤ, cast_unsigned}
use market_bridge.Base.Result.{Result, returns, throws, runtime_error, ◌>>=◌}
use market_bridge.Config.{ServerRunningMode, persistent, single_request, LoggerType, console, file}
use market_bridge.Config.Library.{Spdlog, JsonLibrary}
use market_bridge.Config.Keys.{
  min_port, max_port, server_run_mode_name, logging_output_name, logging_level_name,
  persistent_value, single_request_value, console_value, console_short_value, file_value,
  trace_value, debug_value, info_value, warning_value, error_value, critical_value, off_value,
}

-- throw std::runtime_error(name + message)
abbrev pub fail {ℓ} : {A : Type ℓ} → Bytes → Bytes → Result A
fail name message = throws (runtime_error (name ++ message))

-- std::ranges::find(allowed, key) != allowed.end()
unfoldable pub contains : List Bytes → Bytes → Bool
contains [] key = false
contains (a ∷ allowed) key = equal a key || contains allowed key

abbrev pub max_uint32 : ℕ
max_uint32 = 2 ^ 32 - 1

abbrev quoted : Bytes → Bytes
quoted s = codes "'" ++ (s ++ codes "'")

module _ (J : JsonLibrary) where
  open J use {
    Json, is_object, is_string, is_boolean, is_number_unsigned, is_number_integer, items, get_int64,
    get_uint64, get_string, get_bool,
  }

  unfoldable pub obtain_object : Json → Bytes → Result (Unit {0})
  obtain_object value name =
      if not (is_object value) then fail name (codes " expected be a JSON object") else returns tt

  -- The loop over the members of an object.
  unfoldable pub validate_items : List (Bytes × Json) → List Bytes → Bytes → Result (Unit {0})
  unfolding contains
  validate_items [] allowed name = returns tt
  validate_items ((key, value) ∷ rest) allowed name =
      if not (contains allowed key)
      then fail (codes "unknown configuration property: ") (name ++ (codes "." ++ key))
      else validate_items rest allowed name

  unfoldable pub validate_keys : Json → List Bytes → Bytes → Result (Unit {0})
  unfolding validate_items
  validate_keys object allowed name = validate_items (items object) allowed name

  unfoldable pub read_port : Bytes → Json → Result ℕ
  read_port name value =
      if not (is_number_unsigned value) && not (is_number_integer value)
      then fail name (codes " expected be an integer")
      else if ltb_ℤ (get_int64 value) (pos min_port) || ltb_ℤ (pos max_port) (get_int64 value)
      then fail name (
          codes " expected be between "
          ++ (to_string min_port ++ (codes " and " ++ to_string max_port)))
      else returns (cast_unsigned 16 (get_int64 value))

  unfoldable pub read_string : Bytes → Bool → Json → Result Bytes
  unfolding is_empty
  read_string name allow_empty value =
      if not (is_string value)
      then fail name (codes " expected be a string")
      else if not allow_empty && is_empty (get_string value)
      then fail name (codes " expected not be empty")
      else returns (get_string value)

  unfoldable pub read_bool : Bytes → Json → Result Bool
  read_bool name value =
      if not (is_boolean value)
      then fail name (codes " expected be a boolean")
      else returns (get_bool value)

  abbrev out_of_uint32 {ℓ} : {A : Type ℓ} → Bytes → Result A
  out_of_uint32 name = fail name (codes " expected be between 0 and " ++ to_string max_uint32)

  unfoldable pub read_uint32 : Bytes → Json → Result ℕ
  read_uint32 name value =
      if not (is_number_unsigned value) && not (is_number_integer value)
      then fail name (codes " expected be an integer")
      else if is_number_unsigned value
      then if leb (get_uint64 value) max_uint32
        then returns (get_uint64 value % 2 ^ 32)
        else out_of_uint32 name
      else if not (ltb_ℤ (get_int64 value) (pos 0))
          && leb (cast_unsigned 64 (get_int64 value)) max_uint32
      then returns (cast_unsigned 32 (get_int64 value))
      else out_of_uint32 name

  unfoldable pub read_run_mode : Json → Result ServerRunningMode
  unfolding read_string
  read_run_mode value = do
    mode ← read_string server_run_mode_name true value
    if equal mode persistent_value
        then returns persistent
        else if equal mode single_request_value
        then returns single_request
        else fail server_run_mode_name (
            codes " expected be "
            ++ (quoted persistent_value ++ (codes " or " ++ quoted single_request_value)))

  unfoldable pub read_log_output : Json → Result LoggerType
  unfolding read_string
  read_log_output value = do
    output ← read_string logging_output_name true value
    if equal output console_value || equal output console_short_value
        then returns console
        else if equal output file_value
        then returns file
        else fail logging_output_name (
            codes " expected be "
            ++ (quoted console_value
                ++ (codes ", "
                    ++ (quoted console_short_value ++ (codes ", or " ++ quoted file_value)))))

  module _ (S : Spdlog) where
    open S use {Level, trace, debug, info, warn, err, critical, off}

    unfoldable pub level_of : Bytes → Result Level
    level_of level =
        if equal level trace_value
        then returns trace
        else if equal level debug_value
        then returns debug
        else if equal level info_value
        then returns info
        else if equal level warning_value
        then returns warn
        else if equal level error_value
        then returns err
        else if equal level critical_value
        then returns critical
        else if equal level off_value
        then returns off
        else fail logging_level_name (
            codes " expected be "
            ++ (quoted trace_value
                ++ (codes ", "
                    ++ (quoted debug_value
                        ++ (codes ", "
                            ++ (quoted info_value
                                ++ (codes ", "
                                    ++ (quoted warning_value
                                        ++ (codes ", "
                                            ++ (quoted error_value
                                                ++ (codes ", "
                                                    ++ (quoted critical_value
                                                        ++ (codes ", or "
                                                            ++ quoted off_value)))))))))))))

    unfoldable pub read_log_level : Json → Result Level
    unfolding read_string level_of
    read_log_level value = do level ← read_string logging_level_name true value; level_of level
