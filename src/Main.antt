-- ===== src/Main.antt =====
-- main.cpp. The run of the server is a parameter.
use market_bridge.Base.{
  ℕ, ◌≡◌, ◌≢◌, ◌⊎◌, refl, Bool, false, not, List, [], Option, none, some, Bytes, length, arith, ltb,
  ◌==◌, if◌then◌else◌, inl, inr, Bool-cases,
}
use market_bridge.Base.Result.{Exception, Result, returns, throws, Result-cases}
use market_bridge.Config.{file, Config, default_config}
use market_bridge.Config.Library.{Spdlog, JsonLibrary}
use market_bridge.Session.Defs.{app_name}
use market_bridge.Logger.{
  Host, join_path, init_logger, base_folder, log_directory, ensure_directory, open_sink,
}
use market_bridge.Config.Load.{FileSystem, load_from_file}
use market_bridge.Args.{ParseResult, Parser, Outcome, process_arguments}
use market_bridge.Args.Precedence.{
  Processed, usage, configured, same_ports, bad_file, bad_options, bad_parsing,
  process_arguments-Processed,
}

-- How the program ends, and the configuration that the server was run with.
pub record Exit (S : Spdlog) : Type 0 where
  pub code : ℕ
  pub started : Option (Config S.Level)

module _ (S : Spdlog) (fs : FileSystem) (J : JsonLibrary) (parse : Parser) (host : Host)
    (run : Config S.Level → Result (Unit {0})) where
  open S use {Level, info}

  abbrev exit_of : Result (Unit {0}) → ℕ
  exit_of (returns done) = 0
  exit_of (throws e) = 1

  -- From init_logger on.
  unfoldable pub serve : Config Level → Exit S
  unfolding init_logger
  serve cfg = elim (init_logger host cfg.logging.output cfg.logging.level) [
    | throws e ↦ record { code = 1; started = none }
    | returns logger ↦ record { code = exit_of (run cfg); started = some cfg }
  ]

  -- Behind process_arguments.
  unfoldable pub after_arguments : Config Level → Result (ℕ × Bool) → Exit S
  unfolding serve
  after_arguments cfg (throws e) = record { code = 1; started = none }
  after_arguments cfg (returns (exit_code, usage_requested)) =
      if not (exit_code == 0)
      then record { code = exit_code; started = none }
      else if usage_requested
      then record { code = 0; started = none }
      else serve cfg

  unfoldable pub main : List Bytes → Exit S
  unfolding after_arguments
  main argv =
      if ltb 1 (length argv)
      then (let o = process_arguments S fs J parse argv (load_from_file []) (default_config info) in
          after_arguments o.config o.result)
      else serve (default_config info)

  -- What holds of an end of the program.
  abbrev pub IsSound : Exit S → Type 0
  IsSound x =
      ((x.code ≡ 0) ⊎ (x.code ≡ 1))
      × ((x.started ≡ none)
          ⊎ ((c : Config Level) × (x.started ≡ some c)
              × (c.server.http_port ≢ c.server.https_port)))

  serve-IsSound : (c : Config Level) → c.server.http_port ≢ c.server.https_port → IsSound (serve c)
  unfolding serve
  serve-IsSound c h = elim (Result-cases (init_logger host c.logging.output c.logging.level)) [
    | inl (logger, e) ↦
        rw (e, serve)
          (elim (Result-cases (run c)) [
            | inl (_, r) ↦ rw (r, serve) (inl refl, inr (c, refl, h))
            | inr (_, r) ↦ rw (r, serve) (inr refl, inr (c, refl, h))
          ])
    | inr (_, e) ↦ rw (e, serve) (inr refl, inl refl)
  ]

  after_arguments-IsSound :
      (parsed : Result ParseResult) (c : Config Level) (o : Outcome S)
      → Processed S fs J parse parsed (load_from_file []) c o
      → IsSound (after_arguments o.config o.result)
  unfolding after_arguments
  after_arguments-IsSound parsed c o (usage p e help q) = rw q (inl refl, inl refl)
  after_arguments-IsSound parsed c o (configured p base d e help b layered ports q) =
      rw q (serve-IsSound d ports)
  after_arguments-IsSound parsed c o (same_ports p base d e help b layered ports q) =
      rw q (inr refl, inl refl)
  after_arguments-IsSound parsed c o (bad_file p cause e help f q) = rw q (inr refl, inl refl)
  after_arguments-IsSound parsed c o (bad_options m p q) = rw q (inr refl, inl refl)
  after_arguments-IsSound parsed c o (bad_parsing e p other q) = rw q (inr refl, inl refl)

  -- However the program is called and whatever the file, the environment and the libraries answer,
  -- it ends with exit code 0 or 1, and it runs a server only with a configuration whose two ports
  -- differ.
  pub main-IsSound : (argv : List Bytes) → IsSound (main argv)
  unfolding main
  main-IsSound argv = elim (Bool-cases (ltb 1 (length argv))) [
    | inl e ↦ rw e (
        after_arguments-IsSound _ _ _
          (process_arguments-Processed S fs J parse argv (load_from_file []) (default_config info)))
    | inr e ↦ rw e (serve-IsSound (default_config info) (ground arith))
  ]

  -- A new machine: where the parent of the program's log directory is missing, as ~/.local/share often
  -- is for a new user, a server that is to log to a file is not run, and the program ends with exit code
  -- 1; for std::filesystem::create_directory makes one level only and throws where the parent of the new
  -- directory is missing.
  pub log_needs_parent :
      (c : Config Level) (path : Bytes)
      → ((dir : Bytes)
          → host.exists dir ≡ returns false
          → (name : Bytes)
          → (e : Exception) × (host.create_directory (join_path dir name) ≡ throws e))
      → c.logging.output ≡ file
      → host.home ≡ some path
      → host.exists (base_folder path) ≡ returns false
      → host.exists (log_directory path) ≡ returns false
      → serve c ≡ record { code = 1; started = none }
  unfolding serve init_logger open_sink ensure_directory log_directory
  log_needs_parent c path one_level to_file home no_parent no_dir =
      let (e, failure) = one_level (base_folder path) no_parent app_name in
      ground (arith, to_file, home, no_dir, failure)
