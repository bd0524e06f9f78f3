-- ===== src/Config.antt =====
-- common/config.h: the configuration record and its defaults.
pub mod Library
pub mod Keys
pub mod Read
pub mod Merge
pub mod Load
pub mod Numbers
pub mod Validate
pub mod Fields
pub mod Valid
pub mod Atomic
use market_bridge.Base.{ℕ, Bool, true, false, Bytes, codes, []}

pub data ServerRunningMode : Type 0 where
  persistent single_request : ServerRunningMode

pub data LoggerType : Type 0 where
  console file : LoggerType

pub record ServerConfig : Type 0 where
  pub http_port : ℕ
  pub https_port : ℕ
  pub run_mode : ServerRunningMode
  pub allow_https_over_http_port : Bool
  pub worker_threads : ℕ

pub record TlsConfig : Type 0 where
  pub certificate : Bytes
  pub private_key : Bytes

pub record UpstreamConfig : Type 0 where
  pub host : Bytes
  pub port : ℕ
  pub ignore_certificate_verification : Bool

-- `Level` is spdlog's type of levels.
pub record LoggingConfig (Level : Type 0) : Type 0 where
  pub output : LoggerType
  pub level : Level

pub record ThrottlingConfig : Type 0 where
  pub enabled : Bool
  pub requests_per_second : ℕ
  pub burst_size : ℕ

pub record Config (Level : Type 0) : Type 0 where
  pub config_path : Bytes
  pub server : ServerConfig
  pub tls : TlsConfig
  pub upstream : UpstreamConfig
  pub logging : LoggingConfig Level
  pub throttling : ThrottlingConfig

-- The build's DEFAULT_HTTP_PORT and DEFAULT_HTTPS_PORT (CMakeLists.txt).
abbrev pub default_http_port : ℕ
default_http_port = 8080

abbrev pub default_https_port : ℕ
default_https_port = 8443

-- A default-constructed Config; `info` is spdlog's level of that name.
abbrev pub default_config : {Level : Type 0} → Level → Config Level
default_config info = record {
  config_path = [];
  server = record {
    http_port = default_http_port;
    https_port = default_https_port;
    run_mode = persistent;
    allow_https_over_http_port = false;
    worker_threads = 3;
  };
  tls = record { certificate = codes "cert/server.crt"; private_key = codes "cert/server.key" };
  upstream = record {
    host = codes "api.binance.com";
    port = 443;
    ignore_certificate_verification = false;
  };
  logging = record { output = console; level = info };
  throttling = record { enabled = false; requests_per_second = 20; burst_size = 40 };
}
