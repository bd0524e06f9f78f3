-- ===== src/Args/Layers.antt =====
-- The arguments over a configuration, field by field.
use market_bridge.Base.{
  ◌≡◌, ◌≢◌, ◌⊎◌, refl, false, Bytes, codes, equal, equal_iff, ◌==◌, arith, inl, inr, Bool-cases,
}
use market_bridge.Config.{
  ServerRunningMode, persistent, single_request, LoggerType, console, file, Config,
}
use market_bridge.Config.Library.{Spdlog}
use market_bridge.Args.{ParseResult, log_output_of, run_mode_of, override, merge_parsed_arguments}

-- A field keeps its value where the option was not given, and is otherwise as `P` says.
pub data Overrides {A : Type 0} (p : ParseResult) (option : Bytes) (P : Type 0) (old new : A)
    : Type 0 where
  kept : p.count option ≡ 0 → new ≡ old → Overrides p option P old new
  taken : p.count option ≢ 0 → P → Overrides p option P old new

-- What a word for --log-output makes of the output.
pub data OutputWord (word : Bytes) (old new : LoggerType) : Type 0 where
  console_word :
      (word ≡ codes "con") ⊎ (word ≡ codes "console") → new ≡ console → OutputWord word old new
  file_word : word ≡ codes "file" → new ≡ file → OutputWord word old new
  other_output :
      word ≢ codes "con"
      → word ≢ codes "console"
      → word ≢ codes "file"
      → new ≡ old
      → OutputWord word old new

-- What a word for --run-mode makes of the mode.
pub data ModeWord (word : Bytes) (old new : ServerRunningMode) : Type 0 where
  single_word : word ≡ codes "single-request" → new ≡ single_request → ModeWord word old new
  persist_word : word ≡ codes "persist" → new ≡ persistent → ModeWord word old new
  other_mode :
      word ≢ codes "single-request" → word ≢ codes "persist" → new ≡ old → ModeWord word old new

equal_no : (s t : Bytes) → equal s t ≡ false → s ≢ t
equal_no s t e q = ground (arith, e, (equal_iff s t).1 q)

log_output_of-OutputWord :
    (word : Bytes) (old : LoggerType) → OutputWord word old (log_output_of word old)
unfolding log_output_of
log_output_of-OutputWord word old = elim (Bool-cases (equal word (codes "con"))) [
  | inl a ↦ console_word (inl ((equal_iff word _).0 a)) (rw a refl)
  | inr a ↦ elim (Bool-cases (equal word (codes "console"))) [
    | inl b ↦ console_word (inr ((equal_iff word _).0 b)) (rw (a, b) refl)
    | inr b ↦ elim (Bool-cases (equal word (codes "file"))) [
      | inl c ↦ file_word ((equal_iff word _).0 c) (rw (a, b, c) refl)
      | inr c ↦
          other_output (equal_no word _ a) (equal_no word _ b) (equal_no word _ c)
            (rw (a, b, c) refl)
    ]
  ]
]

run_mode_of-ModeWord :
    (word : Bytes) (old : ServerRunningMode) → ModeWord word old (run_mode_of word old)
unfolding run_mode_of
run_mode_of-ModeWord word old = elim (Bool-cases (equal word (codes "single-request"))) [
  | inl a ↦ single_word ((equal_iff word _).0 a) (rw a refl)
  | inr a ↦ elim (Bool-cases (equal word (codes "persist"))) [
    | inl b ↦ persist_word ((equal_iff word _).0 b) (rw (a, b) refl)
    | inr b ↦ other_mode (equal_no word _ a) (equal_no word _ b) (rw (a, b) refl)
  ]
]

override-Overrides :
    {A : Type 0} (p : ParseResult) (option : Bytes) (P : A → Type 0) (value old : A)
    → P value
    → Overrides p option (P (override p option value old)) old (override p option value old)
override-Overrides p option P value old h = elim (Bool-cases (p.count option == 0)) [
  | inl e ↦ rw e (kept (ground (arith, e)) refl)
  | inr e ↦ rw e (taken (ground (arith, e)) h)
]

module _ (S : Spdlog) where
  open S use {Level, from_str}

  -- The configuration `d` is `c` under the arguments.
  pub record Layered (p : ParseResult) (c d : Config Level) : Type 0 where
    pub http_port :
        Overrides p
          (codes "http-port")
          (d.server.http_port ≡ p.as_uint16 (codes "http-port"))
          c.server.http_port
          d.server.http_port
    pub https_port :
        Overrides p
          (codes "https-port")
          (d.server.https_port ≡ p.as_uint16 (codes "https-port"))
          c.server.https_port
          d.server.https_port
    pub allow_https_over_http_port :
        Overrides p
          (codes "allow-https-over-http-port")
          (d.server.allow_https_over_http_port ≡ p.as_bool (codes "allow-https-over-http-port"))
          c.server.allow_https_over_http_port
          d.server.allow_https_over_http_port
    pub certificate :
        Overrides p
          (codes "cert-path")
          (d.tls.certificate ≡ p.as_string (codes "cert-path"))
          c.tls.certificate
          d.tls.certificate
    pub private_key :
        Overrides p
          (codes "private-key")
          (d.tls.private_key ≡ p.as_string (codes "private-key"))
          c.tls.private_key
          d.tls.private_key
    pub host :
        Overrides p
          (codes "upstream-host")
          (d.upstream.host ≡ p.as_string (codes "upstream-host"))
          c.upstream.host
          d.upstream.host
    pub upstream_port :
        Overrides p
          (codes "upstream-port")
          (d.upstream.port ≡ p.as_uint16 (codes "upstream-port"))
          c.upstream.port
          d.upstream.port
    pub ignore_certificate_verification :
        Overrides p
          (codes "ignore-cert-verification")
          (d.upstream.ignore_certificate_verification
            ≡ p.as_bool (codes "ignore-cert-verification"))
          c.upstream.ignore_certificate_verification
          d.upstream.ignore_certificate_verification
    pub enabled :
        Overrides p
          (codes "throttling-enabled")
          (d.throttling.enabled ≡ p.as_bool (codes "throttling-enabled"))
          c.throttling.enabled
          d.throttling.enabled
    pub requests_per_second :
        Overrides p
          (codes "throttling-requests-per-second")
          (d.throttling.requests_per_second ≡ p.as_uint32 (codes "throttling-requests-per-second"))
          c.throttling.requests_per_second
          d.throttling.requests_per_second
    pub burst_size :
        Overrides p
          (codes "throttling-burst-size")
          (d.throttling.burst_size ≡ p.as_uint32 (codes "throttling-burst-size"))
          c.throttling.burst_size
          d.throttling.burst_size
    pub run_mode :
        Overrides p
          (codes "run-mode")
          (ModeWord (p.as_string (codes "run-mode")) c.server.run_mode d.server.run_mode)
          c.server.run_mode
          d.server.run_mode
    pub output :
        Overrides p
          (codes "log-output")
          (OutputWord (p.as_string (codes "log-output")) c.logging.output d.logging.output)
          c.logging.output
          d.logging.output
    pub level :
        Overrides p
          (codes "log-level")
          (d.logging.level ≡ from_str (p.as_string (codes "log-level")))
          c.logging.level
          d.logging.level
    pub worker_threads : d.server.worker_threads ≡ c.server.worker_threads
    pub config_path : d.config_path ≡ c.config_path

  pub merge_parsed_arguments-Layered :
      (p : ParseResult) (c : Config Level) → Layered p c (merge_parsed_arguments S p c)
  unfolding merge_parsed_arguments
  merge_parsed_arguments-Layered p c = record {
    http_port =
        override-Overrides p (codes "http-port") (λ v. v ≡ p.as_uint16 (codes "http-port"))
          (p.as_uint16 (codes "http-port")) c.server.http_port refl;
    https_port =
        override-Overrides p (codes "https-port") (λ v. v ≡ p.as_uint16 (codes "https-port"))
          (p.as_uint16 (codes "https-port")) c.server.https_port refl;
    allow_https_over_http_port =
        override-Overrides p (codes "allow-https-over-http-port")
          (λ v. v ≡ p.as_bool (codes "allow-https-over-http-port"))
          (p.as_bool (codes "allow-https-over-http-port")) c.server.allow_https_over_http_port refl;
    certificate =
        override-Overrides p (codes "cert-path") (λ v. v ≡ p.as_string (codes "cert-path"))
          (p.as_string (codes "cert-path")) c.tls.certificate refl;
    private_key =
        override-Overrides p (codes "private-key") (λ v. v ≡ p.as_string (codes "private-key"))
          (p.as_string (codes "private-key")) c.tls.private_key refl;
    host =
        override-Overrides p (codes "upstream-host") (λ v. v ≡ p.as_string (codes "upstream-host"))
          (p.as_string (codes "upstream-host")) c.upstream.host refl;
    upstream_port =
        override-Overrides p (codes "upstream-port") (λ v. v ≡ p.as_uint16 (codes "upstream-port"))
          (p.as_uint16 (codes "upstream-port")) c.upstream.port refl;
    ignore_certificate_verification =
        override-Overrides p (codes "ignore-cert-verification")
          (λ v. v ≡ p.as_bool (codes "ignore-cert-verification"))
          (p.as_bool (codes "ignore-cert-verification")) c.upstream.ignore_certificate_verification
          refl;
    enabled =
        override-Overrides p (codes "throttling-enabled")
          (λ v. v ≡ p.as_bool (codes "throttling-enabled")) (p.as_bool (codes "throttling-enabled"))
          c.throttling.enabled refl;
    requests_per_second =
        override-Overrides p (codes "throttling-requests-per-second")
          (λ v. v ≡ p.as_uint32 (codes "throttling-requests-per-second"))
          (p.as_uint32 (codes "throttling-requests-per-second")) c.throttling.requests_per_second
          refl;
    burst_size =
        override-Overrides p (codes "throttling-burst-size")
          (λ v. v ≡ p.as_uint32 (codes "throttling-burst-size"))
          (p.as_uint32 (codes "throttling-burst-size")) c.throttling.burst_size refl;
    run_mode =
        override-Overrides p (codes "run-mode")
          (ModeWord (p.as_string (codes "run-mode")) c.server.run_mode) _ c.server.run_mode
          (run_mode_of-ModeWord (p.as_string (codes "run-mode")) c.server.run_mode);
    output =
        override-Overrides p (codes "log-output")
          (OutputWord (p.as_string (codes "log-output")) c.logging.output) _ c.logging.output
          (log_output_of-OutputWord (p.as_string (codes "log-output")) c.logging.output);
    level =
        override-Overrides p (codes "log-level")
          (λ v. v ≡ from_str (p.as_string (codes "log-level")))
          (from_str (p.as_string (codes "log-level"))) c.logging.level refl;
    worker_threads = refl;
    config_path = refl;
  }
