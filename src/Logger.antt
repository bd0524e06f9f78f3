-- ===== src/Logger.antt =====
-- init_logger of main.cpp, on Linux. What the environment, the file system and spdlog's factories answer
-- is a parameter.
use market_bridge.Base.{
  ◌≡◌, ◌⊎◌, ◌↔◌, Bool, true, false, not, ◌||◌, [], ◌∷◌, ◌++◌, Option, none, some, Bytes, codes,
  is_empty, ◌==◌, Option-cases, if◌then◌else◌, arith, inl, inr,
}
use market_bridge.Base.Result.{runtime_error, Result, returns, throws, ◌>>=◌, ◌>>◌}
use market_bridge.Config.{LoggerType, console, file}
use market_bridge.Session.Defs.{app_name}

-- std::getenv("HOME"), std::filesystem::exists and create_directory, and the factories of spdlog.
pub record Host : Type 0 where
  pub home : Option Bytes
  pub exists : Bytes → Result Bool
  pub create_directory : Bytes → Result (Unit {0})
  pub daily_logger_mt : Bytes → Bytes → Result (Unit {0})
  pub stdout_color_mt : Bytes → Result (Unit {0})

pub data Sink : Type 0 where
  console_sink : Bytes → Sink
  daily_sink : Bytes → Bytes → Sink

pub record Logger (Level : Type 0) : Type 0 where
  pub sink : Sink
  pub level : Level
  pub flush_level : Level

unfoldable ends_in_slash : Bytes → Bool
ends_in_slash [] = false
ends_in_slash (c ∷ []) = c == b'/'
ends_in_slash (c ∷ d ∷ s) = ends_in_slash (d ∷ s)

-- operator/ of two paths, and append, where the second is relative.
unfoldable pub join_path : Bytes → Bytes → Bytes
unfolding ends_in_slash
join_path base rest =
    if is_empty base || ends_in_slash base then base ++ rest else base ++ (b'/' ∷ rest)

unfoldable pub base_folder : Bytes → Bytes
unfolding join_path
base_folder home = join_path home (codes ".local/share")

unfoldable pub log_directory : Bytes → Bytes
unfolding join_path base_folder
log_directory home = join_path (base_folder home) app_name

unfoldable pub log_path : Bytes → Bytes
unfolding join_path log_directory
log_path home = join_path (log_directory home) (codes "mb-log.log")

module _ (host : Host) where
  open host use {home, exists, create_directory, daily_logger_mt, stdout_color_mt}

  -- if (!fsys::exists(dir)) fsys::create_directory(dir);
  unfoldable pub ensure_directory : Bytes → Result (Unit {0})
  ensure_directory dir = do
    there ← exists dir
    if not there then create_directory dir else returns tt

  unfoldable pub open_sink : LoggerType → Result Sink
  unfolding ensure_directory log_directory log_path
  open_sink console = do stdout_color_mt app_name; returns (console_sink app_name)
  open_sink file = elim home [
    | none ↦ throws (runtime_error (codes "HOME environment variable is not defined!"))
    | some path ↦ (do
      ensure_directory (log_directory path)
      daily_logger_mt (codes "logger_1") (log_path path)
      returns (daily_sink (codes "logger_1") (log_path path)))
  ]

  unfoldable pub init_logger : {Level : Type 0} → LoggerType → Level → Result (Logger Level)
  unfolding open_sink
  init_logger logger_type logging_level = do
    sink ← open_sink logger_type
    returns (record { sink = sink; level = logging_level; flush_level = logging_level })

  -- The directory of the log is there, or is made.
  abbrev pub IsEnsured : Bytes → Type 0
  IsEnsured dir =
      (exists dir ≡ returns true)
      ⊎ ((exists dir ≡ returns false) × (create_directory dir ≡ returns tt))

  ensure_directory_iff : (dir : Bytes) → (ensure_directory dir ≡ returns tt) ↔ IsEnsured dir
  unfolding ensure_directory
  ensure_directory_iff dir = (λ h. ground arith, λ h. ground arith)

  -- A file log is opened exactly if HOME is set, the directory of the program below
  -- $HOME/.local/share is there or can be made, and the daily log mb-log.log can be opened in it; and
  -- then it writes and flushes from the configured level on.
  pub file_logger_iff :
      {Level : Type 0} (level : Level) (l : Logger Level)
      → (init_logger file level ≡ returns l) ↔ (
          (path : Bytes) × (home ≡ some path)
          × IsEnsured (log_directory path)
          × (daily_logger_mt (codes "logger_1") (log_path path) ≡ returns tt)
          × (l ≡ record {
            sink = daily_sink (codes "logger_1") (log_path path);
            level = level;
            flush_level = level;
          }))
  unfolding init_logger
  file_logger_iff level l = (
    λ h. elim (Option-cases home) [
      | inl e ↦ ground (arith, h, e)
      | inr (path, e) ↦ (path, e, ground (arith, h, e), ground (arith, h, e), ground (arith, h, e))
    ],
    λ (path, e, ready, opened, q). ground (arith, e, ready, opened, q),
  )
