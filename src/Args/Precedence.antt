-- ===== src/Args/Precedence.antt =====
-- Command line over file over defaults, and the exit codes.
use market_bridge.Base.{
  ◌⊎◌, ◌≡◌, ◌≢◌, refl, true, false, List, Bytes, codes, ◌==◌, arith, inl, inr, Bool-cases,
}
use market_bridge.Base.Result.{
  Exception, runtime_error, cxxopts_exception, library_exception, Result, returns, throws,
}
use market_bridge.Args.Layers.{Layered, merge_parsed_arguments-Layered}
use market_bridge.Config.{Config}
use market_bridge.Config.Library.{Spdlog, JsonLibrary}
use market_bridge.Config.Load.{FileSystem, Loader, assign_path, load_from_stream, failed_to_load}
use market_bridge.Config.Fields.{Merged}
use market_bridge.Config.Atomic.{Loaded, loaded, unchanged, load_json_config-Loaded}
use market_bridge.Args.{
  ParseResult, Parser, given, merge_parsed_arguments, Outcome, handle, finish, after_load,
  after_parse, after_options, process_arguments,
}

module _ (S : Spdlog) (fs : FileSystem) (J : JsonLibrary) (parse : Parser) where
  open S use {Level}

  -- Where the configuration under the arguments comes from: the one that was there, with no `config`
  -- option, or a whole document merged into it.
  pub data Base (p : ParseResult) (loader : Loader) (c base : Config Level) : Type 0 where
    no_file : p.count (codes "config") ≡ 0 → base ≡ c → Base p loader c base
    from_file :
        (document : J.Json)
        → p.count (codes "config") ≢ 0
        → load_from_stream fs J S (assign_path loader c.config_path) ≡ returns document
        → Merged J S document c base
        → Base p loader c base

  -- How a call can end. `c` is the configuration with the path that parsing has stored.
  pub data Processed (parsed : Result ParseResult) (loader : Loader) (c : Config Level)
      (o : Outcome S) : Type 0 where
    usage :
        (p : ParseResult)
        → parsed ≡ returns p
        → p.count (codes "help") ≢ 0
        → o ≡ record { config = c; result = returns (0, true); usage_shown = true }
        → Processed parsed loader c o
    configured :
        (p : ParseResult) (base d : Config Level)
        → parsed ≡ returns p
        → p.count (codes "help") ≡ 0
        → Base p loader c base
        → Layered S p base d
        → d.server.http_port ≢ d.server.https_port
        → o ≡ record { config = d; result = returns (0, false); usage_shown = false }
        → Processed parsed loader c o
    same_ports :
        (p : ParseResult) (base d : Config Level)
        → parsed ≡ returns p
        → p.count (codes "help") ≡ 0
        → Base p loader c base
        → Layered S p base d
        → d.server.http_port ≡ d.server.https_port
        → o ≡ record { config = d; result = returns (1, false); usage_shown = false }
        → Processed parsed loader c o
    bad_file :
        (p : ParseResult) (cause : Exception)
        → parsed ≡ returns p
        → p.count (codes "help") ≡ 0
        → p.count (codes "config") ≢ 0
        → o ≡ record {
          config = c;
          result = throws (failed_to_load (assign_path loader c.config_path) cause);
          usage_shown = false;
        }
        → Processed parsed loader c o
    bad_options :
        (m : Bytes)
        → parsed ≡ throws (cxxopts_exception m)
        → o ≡ record { config = c; result = returns (1, false); usage_shown = false }
        → Processed parsed loader c o
    bad_parsing :
        (e : Exception)
        → parsed ≡ throws e
        → ((m : Bytes) × (e ≡ runtime_error m)) ⊎ ((m : Bytes) × (e ≡ library_exception m))
        → o ≡ record { config = c; result = throws e; usage_shown = false }
        → Processed parsed loader c o

  finish-Processed :
      (p : ParseResult) (loader : Loader) (c base : Config Level)
      → p.count (codes "help") ≡ 0
      → Base p loader c base
      → Processed (returns p) loader c (finish S p base)
  unfolding finish
  finish-Processed p loader c base help b =
      let d = merge_parsed_arguments S p base in
      let layered = merge_parsed_arguments-Layered S p base in
      elim (Bool-cases (d.server.http_port == d.server.https_port)) [
        | inl e ↦ same_ports p base d refl help b layered (ground arith) (rw e)
        | inr e ↦ configured p base d refl help b layered (ground arith) (rw e)
      ]

  after_load-Processed :
      (p : ParseResult) (loader : Loader) (c base : Config Level) (r : Result (Unit {0}))
      → p.count (codes "help") ≡ 0
      → p.count (codes "config") ≢ 0
      → Loaded fs J S (assign_path loader c.config_path) c base r
      → Processed (returns p) loader c (after_load S fs J parse p base r)
  unfolding after_load handle
  after_load-Processed p loader c base r help file (loaded document e m q) =
      rw q (finish-Processed p loader c base help (from_file document file e m))
  after_load-Processed p loader c base r help file (unchanged cause q s) =
      rw (s, q) (bad_file p cause refl help file refl)

  after_parse-Processed :
      (p : ParseResult) (loader : Loader) (c : Config Level)
      → Processed (returns p) loader c (after_parse S fs J parse p loader c)
  unfolding after_parse
  after_parse-Processed p loader c = elim (Bool-cases (given p (codes "help"))) [
    | inl help ↦ rw help (usage p refl (ground (arith, help)) refl)
    | inr help ↦ rw help (elim (Bool-cases (given p (codes "config"))) [
      | inl file ↦ rw file (
          after_load-Processed p loader c _ _ (ground (arith, help)) (ground (arith, file))
            (load_json_config-Loaded fs J S (assign_path loader c.config_path) c))
      | inr file ↦ rw file (
          finish-Processed p loader c c (ground (arith, help))
            (no_file (ground (arith, file)) refl))
    ])
  ]

  after_options-Processed :
      (parsed : Result ParseResult) (loader : Loader) (c : Config Level)
      → Processed parsed loader c (after_options S fs J parse loader c parsed)
  unfolding after_options handle
  after_options-Processed (returns p) loader c = after_parse-Processed p loader c
  after_options-Processed (throws (cxxopts_exception m)) loader c = bad_options m refl refl
  after_options-Processed (throws (runtime_error m)) loader c =
      bad_parsing _ refl (inl (m, refl)) refl
  after_options-Processed (throws (library_exception m)) loader c =
      bad_parsing _ refl (inr (m, refl)) refl

  -- Every call of process_arguments ends in one of six ways: usage is shown and nothing else is
  -- touched; or the arguments that were given stand, field by field, over a whole document, or over no
  -- document, and the exit code is 0 with different ports and 1 with equal ones; or the document fails
  -- to load, which leaves the configuration as parsing left it and escapes as an exception; or parsing
  -- throws, which ends in exit code 1 for an exception of cxxopts and escapes for any other.
  pub process_arguments-Processed :
      (argv : List Bytes) (loader : Loader) (cfg : Config Level)
      → Processed
          (parse argv cfg.config_path).0
          loader
          (record cfg { config_path = (parse argv cfg.config_path).1 })
          (process_arguments S fs J parse argv loader cfg)
  unfolding process_arguments
  process_arguments-Processed argv loader cfg =
      after_options-Processed (parse argv cfg.config_path).0 loader
        (record cfg { config_path = (parse argv cfg.config_path).1 })
