-- ===== src/Config/Atomic.antt =====
-- load_json_config as a whole: all of a document takes effect, or nothing does.
use market_bridge.Base.{◌≡◌, refl, ap, none, Bytes, codes, inl, inr}
use market_bridge.Base.Result.{Exception, runtime_error, Result, returns, throws, Result-cases}
use market_bridge.Config.{Config}
use market_bridge.Config.Library.{Spdlog, JsonLibrary}
use market_bridge.Config.Merge.{merge_json_config}
use market_bridge.Config.Load.{
  FileSystem, Loader, load_from_file, failed_to_load, load_from_stream, load_json_config,
  obtain_stream_from_file,
}
use market_bridge.Config.Fields.{Merged, merge_json_config_iff}

module _ (fs : FileSystem) (J : JsonLibrary) (S : Spdlog) where
  open S use {Level}

  -- The call has taken in a whole document, or has left the configuration as it was and thrown the
  -- cause behind the source of the document.
  pub data Loaded (loader : Loader) (c : Config Level) (d : Config Level) (r : Result (Unit {0}))
      : Type 0 where
    loaded :
        (document : J.Json)
        → load_from_stream fs J S loader ≡ returns document
        → Merged J S document c d
        → r ≡ returns tt
        → Loaded loader c d r
    unchanged :
        (cause : Exception) → d ≡ c → r ≡ throws (failed_to_load loader cause) → Loaded loader c d r

  -- load_json_config is atomic on every branch: it loads and merges a whole document, or throws and
  -- leaves the configuration unchanged, also where the merge had written
  -- some of the fields before it threw.
  pub load_json_config-Loaded :
      (loader : Loader) (c : Config Level)
      → Loaded loader c (load_json_config fs J S loader c).0 (load_json_config fs J S loader c).1
  unfolding load_json_config
  load_json_config-Loaded loader c = elim (Result-cases (load_from_stream fs J S loader)) [
    | inl (document, e) ↦
        let m = merge_json_config J S document c in
        elim (Result-cases m.1) [
          | inl (_, f) ↦ rw e (
              rw f (
                loaded document e
                  ((merge_json_config_iff J S document c m.0).0 (ap (λ y. (m.0, y)) f)) refl))
          | inr (x, f) ↦ rw e (rw f (unchanged x refl refl))
        ]
    | inr (x, e) ↦ rw e (unchanged x refl refl)
  ]

  stream_missing :
      (path : Bytes)
      → fs path ≡ none
      → load_from_stream fs J S (load_from_file path)
        ≡ throws (failed_to_load (load_from_file path) (runtime_error (codes "cannot open file")))
  unfolding load_from_stream
  stream_missing path e = rw (e, obtain_stream_from_file)

  -- A file that cannot be opened is reported behind its path, twice: the message of load_from_stream
  -- is wrapped again by load_json_config. The configuration stays.
  load_json_config_missing :
      (path : Bytes) (c : Config Level)
      → fs path ≡ none
      → load_json_config fs J S (load_from_file path) c ≡ (
        c,
        throws (
            failed_to_load
              (load_from_file path)
              (failed_to_load (load_from_file path) (runtime_error (codes "cannot open file")))),
      )
  unfolding load_json_config
  load_json_config_missing path c e = rw (stream_missing path e)
