-- ===== src/Config/Keys.antt =====
-- config/config_json.cpp: the keys, names and values of the JSON configuration.
use market_bridge.Base.{ℕ, Bytes, codes, List, [], ◌∷◌}

abbrev pub server_key : Bytes
server_key = codes "server"

abbrev pub tls_key : Bytes
tls_key = codes "tls"

abbrev pub upstream_key : Bytes
upstream_key = codes "upstream"

abbrev pub logging_key : Bytes
logging_key = codes "logging"

abbrev pub throttling_key : Bytes
throttling_key = codes "throttling"

abbrev pub http_port_key : Bytes
http_port_key = codes "http_port"

abbrev pub https_port_key : Bytes
https_port_key = codes "https_port"

abbrev pub run_mode_key : Bytes
run_mode_key = codes "run_mode"

abbrev pub allow_https_over_http_port_key : Bytes
allow_https_over_http_port_key = codes "allow_https_over_http_port"

abbrev pub certificate_key : Bytes
certificate_key = codes "certificate"

abbrev pub private_key_key : Bytes
private_key_key = codes "private_key"

abbrev pub host_key : Bytes
host_key = codes "host"

abbrev pub port_key : Bytes
port_key = codes "port"

abbrev pub ignore_certificate_verification_key : Bytes
ignore_certificate_verification_key = codes "ignore_certificate_verification"

abbrev pub output_key : Bytes
output_key = codes "output"

abbrev pub level_key : Bytes
level_key = codes "level"

abbrev pub enabled_key : Bytes
enabled_key = codes "enabled"

abbrev pub requests_per_second_key : Bytes
requests_per_second_key = codes "requests_per_second"

abbrev pub burst_size_key : Bytes
burst_size_key = codes "burst_size"

abbrev pub configuration_root_name : Bytes
configuration_root_name = codes "configuration root"

abbrev pub root_name : Bytes
root_name = codes "root"

abbrev pub server_http_port_name : Bytes
server_http_port_name = codes "server.http_port"

abbrev pub server_https_port_name : Bytes
server_https_port_name = codes "server.https_port"

abbrev pub server_run_mode_name : Bytes
server_run_mode_name = codes "server.run_mode"

abbrev pub server_allow_https_over_http_port_name : Bytes
server_allow_https_over_http_port_name = codes "server.allow_https_over_http_port"

abbrev pub tls_certificate_name : Bytes
tls_certificate_name = codes "tls.certificate"

abbrev pub tls_private_key_name : Bytes
tls_private_key_name = codes "tls.private_key"

abbrev pub upstream_host_name : Bytes
upstream_host_name = codes "upstream.host"

abbrev pub upstream_port_name : Bytes
upstream_port_name = codes "upstream.port"

abbrev pub upstream_ignore_certificate_verification_name : Bytes
upstream_ignore_certificate_verification_name = codes "upstream.ignore_certificate_verification"

abbrev pub logging_output_name : Bytes
logging_output_name = codes "logging.output"

abbrev pub logging_level_name : Bytes
logging_level_name = codes "logging.level"

abbrev pub throttling_enabled_name : Bytes
throttling_enabled_name = codes "throttling.enabled"

abbrev pub throttling_requests_per_second_name : Bytes
throttling_requests_per_second_name = codes "throttling.requests_per_second"

abbrev pub throttling_burst_size_name : Bytes
throttling_burst_size_name = codes "throttling.burst_size"

abbrev pub persistent_value : Bytes
persistent_value = codes "persist"

abbrev pub single_request_value : Bytes
single_request_value = codes "single-request"

abbrev pub console_value : Bytes
console_value = codes "console"

abbrev pub console_short_value : Bytes
console_short_value = codes "con"

abbrev pub file_value : Bytes
file_value = codes "file"

abbrev pub trace_value : Bytes
trace_value = codes "trace"

abbrev pub debug_value : Bytes
debug_value = codes "debug"

abbrev pub info_value : Bytes
info_value = codes "info"

abbrev pub warning_value : Bytes
warning_value = codes "warning"

abbrev pub error_value : Bytes
error_value = codes "error"

abbrev pub critical_value : Bytes
critical_value = codes "critical"

abbrev pub off_value : Bytes
off_value = codes "off"

-- The keys that each object may have.
abbrev pub root_keys : List Bytes
root_keys = server_key ∷ tls_key ∷ upstream_key ∷ logging_key ∷ throttling_key ∷ []

abbrev pub server_keys : List Bytes
server_keys = http_port_key ∷ https_port_key ∷ run_mode_key ∷ allow_https_over_http_port_key ∷ []

abbrev pub tls_keys : List Bytes
tls_keys = certificate_key ∷ private_key_key ∷ []

abbrev pub upstream_keys : List Bytes
upstream_keys = host_key ∷ port_key ∷ ignore_certificate_verification_key ∷ []

abbrev pub logging_keys : List Bytes
logging_keys = output_key ∷ level_key ∷ []

abbrev pub throttling_keys : List Bytes
throttling_keys = enabled_key ∷ requests_per_second_key ∷ burst_size_key ∷ []

abbrev pub min_port : ℕ
min_port = 1

abbrev pub max_port : ℕ
max_port = 65535
