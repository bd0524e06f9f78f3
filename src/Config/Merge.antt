-- ===== src/Config/Merge.antt =====
-- config/config_json.cpp, merge_json_config: a document is merged into a configuration, section by
-- section and key by key in the source's order; the first refusal is thrown.
use market_bridge.Base.{true, false, Option, none, some}
use market_bridge.Base.Result.{Result, returns, throws}
use market_bridge.Config.{
  ServerConfig, TlsConfig, UpstreamConfig, LoggingConfig, ThrottlingConfig, Config,
}
use market_bridge.Config.Library.{Spdlog, JsonLibrary}
use market_bridge.Config.Keys.{
  server_key, tls_key, upstream_key, logging_key, throttling_key, root_keys, server_keys, tls_keys,
  upstream_keys, logging_keys, throttling_keys, http_port_key, https_port_key, run_mode_key,
  allow_https_over_http_port_key, certificate_key, private_key_key, host_key, port_key,
  ignore_certificate_verification_key, output_key, level_key, enabled_key, requests_per_second_key,
  burst_size_key, configuration_root_name, root_name, server_http_port_name, server_https_port_name,
  server_allow_https_over_http_port_name, tls_certificate_name, tls_private_key_name,
  upstream_host_name, upstream_port_name, upstream_ignore_certificate_verification_name,
  throttling_enabled_name, throttling_requests_per_second_name, throttling_burst_size_name,
}
use market_bridge.Config.Read.{
  obtain_object, validate_keys, read_port, read_string, read_bool, read_uint32, read_run_mode,
  read_log_output, read_log_level,
}

-- A statement on an object, by reference: what the object is afterwards, and whether it has thrown.
abbrev pub Done : Type 0 → Type 0
Done A = A × Result (Unit {0})

-- What follows a statement runs if that returns; what a statement has written stays if it throws.
infixl 5 ◌>>>◌
abbrev pub ◌>>>◌ : {A : Type 0} → Done A → (A → Done A) → Done A
(a, throws e) >>> rest = (a, throws e)
(a, returns tt) >>> rest = rest a

abbrev pub store : {A V : Type 0} → (V → A → A) → A → Result V → Done A
store put a (returns value) = (put value a, returns tt)
store put a (throws e) = (a, throws e)

-- `if (it->contains(key)) field = read(it->at(key));`
unfoldable pub assign : {A B V : Type 0} → Option B → (B → Result V) → (V → A → A) → A → Done A
assign none read put a = (a, returns tt)
assign (some value) read put a = store put a (read value)

-- The same for a section, which is merged in its place.
unfoldable pub assign_section :
    {A B C : Type 0} → Option B → (B → A → Done A) → (C → A) → (A → C → C) → C → Done C
assign_section none merge get put c = (c, returns tt)
assign_section (some value) merge get put c =
    let (section, end) = merge value (get c) in (put section c, end)

module _ (J : JsonLibrary) where
  open J use {Json, find}

  unfoldable pub merge_server : Json → ServerConfig → Done ServerConfig
  merge_server it s =
      (s, obtain_object J it server_key)
      >>> (λ s. (s, validate_keys J it server_keys server_key))
      >>> (λ s.
          assign (find it http_port_key) (read_port J server_http_port_name)
            (λ v (a : ServerConfig). record a { http_port = v }) s)
      >>> (λ s.
          assign (find it https_port_key) (read_port J server_https_port_name)
            (λ v (a : ServerConfig). record a { https_port = v }) s)
      >>> (λ s.
          assign (find it run_mode_key) (read_run_mode J)
            (λ v (a : ServerConfig). record a { run_mode = v }) s)
      >>> (λ s.
          assign (find it allow_https_over_http_port_key)
            (read_bool J server_allow_https_over_http_port_name)
            (λ v (a : ServerConfig). record a { allow_https_over_http_port = v }) s)

  unfoldable pub merge_tls : Json → TlsConfig → Done TlsConfig
  merge_tls it s =
      (s, obtain_object J it tls_key)
      >>> (λ s. (s, validate_keys J it tls_keys tls_key))
      >>> (λ s.
          assign (find it certificate_key) (read_string J tls_certificate_name true)
            (λ v (a : TlsConfig). record a { certificate = v }) s)
      >>> (λ s.
          assign (find it private_key_key) (read_string J tls_private_key_name true)
            (λ v (a : TlsConfig). record a { private_key = v }) s)

  unfoldable pub merge_upstream : Json → UpstreamConfig → Done UpstreamConfig
  merge_upstream it s =
      (s, obtain_object J it upstream_key)
      >>> (λ s. (s, validate_keys J it upstream_keys upstream_key))
      >>> (λ s.
          assign (find it host_key) (read_string J upstream_host_name false)
            (λ v (a : UpstreamConfig). record a { host = v }) s)
      >>> (λ s.
          assign (find it port_key) (read_port J upstream_port_name)
            (λ v (a : UpstreamConfig). record a { port = v }) s)
      >>> (λ s.
          assign (find it ignore_certificate_verification_key)
            (read_bool J upstream_ignore_certificate_verification_name)
            (λ v (a : UpstreamConfig). record a { ignore_certificate_verification = v }) s)

  unfoldable pub merge_throttling : Json → ThrottlingConfig → Done ThrottlingConfig
  merge_throttling it s =
      (s, obtain_object J it throttling_key)
      >>> (λ s. (s, validate_keys J it throttling_keys throttling_key))
      >>> (λ s.
          assign (find it enabled_key) (read_bool J throttling_enabled_name)
            (λ v (a : ThrottlingConfig). record a { enabled = v }) s)
      >>> (λ s.
          assign (find it requests_per_second_key)
            (read_uint32 J throttling_requests_per_second_name)
            (λ v (a : ThrottlingConfig). record a { requests_per_second = v }) s)
      >>> (λ s.
          assign (find it burst_size_key) (read_uint32 J throttling_burst_size_name)
            (λ v (a : ThrottlingConfig). record a { burst_size = v }) s)

  module _ (S : Spdlog) where
    open S use {Level}

    unfoldable pub merge_logging : Json → (LoggingConfig Level) → Done (LoggingConfig Level)
    merge_logging it s =
        (s, obtain_object J it logging_key)
        >>> (λ s. (s, validate_keys J it logging_keys logging_key))
        >>> (λ s.
            assign (find it output_key) (read_log_output J)
              (λ v (a : LoggingConfig Level). record a { output = v }) s)
        >>> (λ s.
            assign (find it level_key) (read_log_level J S)
              (λ v (a : LoggingConfig Level). record a { level = v }) s)

    unfoldable pub place_server : Json → Config Level → Done (Config Level)
    place_server root =
        assign_section (find root server_key) merge_server (λ (c : Config Level). c.server)
          (λ v (c : Config Level). record c { server = v })

    unfoldable pub place_tls : Json → Config Level → Done (Config Level)
    place_tls root =
        assign_section (find root tls_key) merge_tls (λ (c : Config Level). c.tls)
          (λ v (c : Config Level). record c { tls = v })

    unfoldable pub place_upstream : Json → Config Level → Done (Config Level)
    place_upstream root =
        assign_section (find root upstream_key) merge_upstream (λ (c : Config Level). c.upstream)
          (λ v (c : Config Level). record c { upstream = v })

    unfoldable pub place_logging : Json → Config Level → Done (Config Level)
    place_logging root =
        assign_section (find root logging_key) merge_logging (λ (c : Config Level). c.logging)
          (λ v (c : Config Level). record c { logging = v })

    unfoldable pub place_throttling : Json → Config Level → Done (Config Level)
    place_throttling root =
        assign_section (find root throttling_key) merge_throttling
          (λ (c : Config Level). c.throttling) (λ v (c : Config Level). record c { throttling = v })

    unfoldable pub merge_json_config : Json → Config Level → Done (Config Level)
    merge_json_config root config =
        (config, obtain_object J root configuration_root_name)
        >>> (λ c. (c, validate_keys J root root_keys root_name))
        >>> place_server root
        >>> place_tls root
        >>> place_upstream root
        >>> place_logging root
        >>> place_throttling root
