-- ===== src/Args.antt =====
-- common/app.h: the command line. cxxopts is a parameter: what parsing returns, and the path that it
-- stores through the reference given to the option `config`.
pub mod Layers
pub mod Precedence
use market_bridge.Base.{
  ℕ, Bool, true, false, not, ◌||◌, List, Bytes, codes, ◌==◌, equal, if◌then◌else◌,
}
use market_bridge.Base.Result.{
  Exception, runtime_error, cxxopts_exception, library_exception, Result, returns, throws,
}
use market_bridge.Config.{
  ServerRunningMode, persistent, single_request, LoggerType, console, file, Config,
}
use market_bridge.Config.Library.{Spdlog, JsonLibrary}
use market_bridge.Config.Load.{FileSystem, Loader, assign_path, load_json_config}

-- cxxopts::ParseResult: how often an option was given, and its value as the type it was declared
-- with.
pub record ParseResult : Type 0 where
  pub count : Bytes → ℕ
  pub as_string : Bytes → Bytes
  pub as_uint16 : Bytes → ℕ
  pub as_uint32 : Bytes → ℕ
  pub as_bool : Bytes → Bool

-- options.parse(argc, argv): the result or the exception, and what config_path holds afterwards.
abbrev pub Parser : Type 0
Parser = List Bytes → Bytes → Result ParseResult × Bytes

abbrev pub given : ParseResult → Bytes → Bool
given p option = not (p.count option == 0)

-- An invalid word leaves the value as it is.
unfoldable pub log_output_of : Bytes → LoggerType → LoggerType
log_output_of word old =
    if equal word (codes "con") || equal word (codes "console")
    then console
    else if equal word (codes "file")
    then file
    else old

unfoldable pub run_mode_of : Bytes → ServerRunningMode → ServerRunningMode
run_mode_of word old =
    if equal word (codes "single-request")
    then single_request
    else if equal word (codes "persist")
    then persistent
    else old

-- if (parsed_args.count(option)) field = value;
abbrev pub override : {A : Type 0} → ParseResult → Bytes → A → A → A
override p option value field = if given p option then value else field

module _ (S : Spdlog) where
  open S use {Level, from_str}

  unfoldable pub merge_parsed_arguments : ParseResult → Config Level → Config Level
  unfolding log_output_of run_mode_of
  merge_parsed_arguments p c = record c {
    server = record c.server {
      http_port =
          override p (codes "http-port") (p.as_uint16 (codes "http-port")) c.server.http_port;
      https_port =
          override p (codes "https-port") (p.as_uint16 (codes "https-port")) c.server.https_port;
      run_mode =
          override p (codes "run-mode")
            (run_mode_of (p.as_string (codes "run-mode")) c.server.run_mode) c.server.run_mode;
      allow_https_over_http_port =
          override p (codes "allow-https-over-http-port")
            (p.as_bool (codes "allow-https-over-http-port")) c.server.allow_https_over_http_port;
    };
    tls = record {
      certificate =
          override p (codes "cert-path") (p.as_string (codes "cert-path")) c.tls.certificate;
      private_key =
          override p (codes "private-key") (p.as_string (codes "private-key")) c.tls.private_key;
    };
    upstream = record {
      host =
          override p (codes "upstream-host") (p.as_string (codes "upstream-host")) c.upstream.host;
      port =
          override p (codes "upstream-port") (p.as_uint16 (codes "upstream-port")) c.upstream.port;
      ignore_certificate_verification =
          override p (codes "ignore-cert-verification")
            (p.as_bool (codes "ignore-cert-verification"))
            c.upstream.ignore_certificate_verification;
    };
    logging = record {
      output =
          override p (codes "log-output")
            (log_output_of (p.as_string (codes "log-output")) c.logging.output) c.logging.output;
      level =
          override p (codes "log-level") (from_str (p.as_string (codes "log-level")))
            c.logging.level;
    };
    throttling = record {
      enabled =
          override p (codes "throttling-enabled") (p.as_bool (codes "throttling-enabled"))
            c.throttling.enabled;
      requests_per_second =
          override p (codes "throttling-requests-per-second")
            (p.as_uint32 (codes "throttling-requests-per-second")) c.throttling.requests_per_second;
      burst_size =
          override p (codes "throttling-burst-size") (p.as_uint32 (codes "throttling-burst-size"))
            c.throttling.burst_size;
    };
  }

  -- What process_arguments leaves: the configuration, the pair of exit code and usage request or the
  -- exception that escapes, and whether show_usage was called.
  pub record Outcome : Type 0 where
    pub config : Config Level
    pub result : Result (ℕ × Bool)
    pub usage_shown : Bool

  -- The handler: cxxopts exceptions end in exit code 1, all others escape.
  unfoldable pub handle : Config Level → Exception → Outcome
  handle c (cxxopts_exception m) = record {
    config = c;
    result = returns (1, false);
    usage_shown = false;
  }
  handle c (runtime_error m) = record {
    config = c;
    result = throws (runtime_error m);
    usage_shown = false;
  }
  handle c (library_exception m) = record {
    config = c;
    result = throws (library_exception m);
    usage_shown = false;
  }

  -- The arguments over the configuration, and the test of the ports.
  unfoldable pub finish : ParseResult → Config Level → Outcome
  finish p base =
      let c = merge_parsed_arguments p base in
      record {
        config = c;
        result = returns ((if c.server.http_port == c.server.https_port then 1 else 0), false);
        usage_shown = false;
      }

  module _ (fs : FileSystem) (J : JsonLibrary) (parse : Parser) where
    after_load : ParseResult → Config Level → Result (Unit {0}) → Outcome
    unfolding finish handle
    after_load p c (returns done) = finish p c
    after_load p c (throws e) = handle c e

    -- Behind a successful parse.
    after_parse : ParseResult → Loader → Config Level → Outcome
    unfolding finish after_load
    after_parse p loader c =
        if given p (codes "help")
        then record { config = c; result = returns (0, true); usage_shown = true }
        else if given p (codes "config")
        then (let loaded = load_json_config fs J S (assign_path loader c.config_path) c in
            after_load p loaded.0 loaded.1)
        else finish p c

    after_options : Loader → Config Level → Result ParseResult → Outcome
    unfolding after_parse handle
    after_options loader c (returns p) = after_parse p loader c
    after_options loader c (throws e) = handle c e

    unfoldable pub process_arguments : List Bytes → Loader → Config Level → Outcome
    unfolding after_options
    process_arguments argv loader cfg =
        let (parsed, path) = parse argv cfg.config_path in
        after_options loader (record cfg { config_path = path }) parsed
