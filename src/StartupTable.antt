-- ===== src/StartupTable.antt =====
-- startup-table.cpp: the table that the server logs as it starts.
use market_bridge.Base.{
  ℕ, ◌+◌, ◌-◌, ◌/◌, ◌≤◌, ◌≡◌, Bool, List, [], ◌∷◌, ◌++◌, Bytes, codes, length, replicate, max,
  if◌then◌else◌,
}
use market_bridge.Base.Decimal.{to_string}
use market_bridge.Config.{
  ServerRunningMode, persistent, single_request, LoggerType, console, file, Config,
}
use market_bridge.Config.Library.{Spdlog}
use market_bridge.Session.Defs.{app_name, app_version}

mode_to_string : ServerRunningMode → Bytes
mode_to_string persistent = codes "persist"
mode_to_string single_request = codes "single-request"

type_to_string : LoggerType → Bytes
type_to_string console = codes "console"
type_to_string file = codes "file"

bool_to_string : Bool → Bytes
bool_to_string value = if value then codes "true" else codes "false"

endpoint : Bytes → ℕ → Bytes
endpoint host port = host ++ (codes ":" ++ to_string port)

abbrev pub Row : Type 0
Row = Bytes × Bytes

unfoldable pub rows : (S : Spdlog) → Config S.Level → List Row
unfolding mode_to_string type_to_string bool_to_string endpoint
rows S cfg =
    ((codes "Version", app_version)
      ∷ (codes "HTTP listener", endpoint (codes "localhost") cfg.server.http_port)
      ∷ (codes "HTTPS listener", endpoint (codes "localhost") cfg.server.https_port)
      ∷ (codes "Upstream", endpoint cfg.upstream.host cfg.upstream.port)
      ∷ (codes "Run mode", mode_to_string cfg.server.run_mode)
      ∷ (codes "Log output", type_to_string cfg.logging.output)
      ∷ (codes "Log level", S.to_string_view cfg.logging.level)
      ∷ (codes "TLS certificate", cfg.tls.certificate)
      ∷ (codes "TLS private key", cfg.tls.private_key)
      ∷ (codes "Ignore upstream cert", bool_to_string cfg.upstream.ignore_certificate_verification)
      ∷ (codes "Allow HTTPS over HTTP port", bool_to_string cfg.server.allow_https_over_http_port)
      ∷ (codes "Throttling enabled", bool_to_string cfg.throttling.enabled)
      ∷ [])
    ++ (if cfg.throttling.enabled
        then (codes "Throttling requests/second", to_string cfg.throttling.requests_per_second)
          ∷ (codes "Throttling burst size", to_string cfg.throttling.burst_size)
          ∷ []
        else [])

-- The loop over the rows that finds the widths of both columns.
unfoldable pub widths : List Row → ℕ × ℕ → ℕ × ℕ
widths [] (key_width, value_width) = (key_width, value_width)
widths ((key, value) ∷ rest) (key_width, value_width) =
    widths rest (max key_width (length key), max value_width (length value))

-- std::left << std::setw(width) << text
unfoldable pub pad : ℕ → Bytes → Bytes
pad width text = text ++ replicate (width - length text) b' '

abbrev title : Bytes
title = codes " " ++ (app_name ++ codes " startup ")

abbrev rule : ℕ → ℕ → Bytes
rule key_width value_width =
    codes "+"
    ++ (replicate (key_width + 2) b'-'
        ++ (codes "+" ++ (replicate (value_width + 2) b'-' ++ codes "+")))

abbrev title_line : ℕ → ℕ → Bytes
title_line key_width value_width =
    let inner_width = key_width + value_width + 5 in
    let left = (inner_width - length title) / 2 in
    let right = inner_width - length title - left in
    codes "|" ++ (replicate left b' ' ++ (title ++ (replicate right b' ' ++ codes "|")))

abbrev row_line : ℕ → ℕ → Row → Bytes
row_line key_width value_width (key, value) =
    codes "| " ++ (pad key_width key ++ (codes " | " ++ (pad value_width value ++ codes " |")))

abbrev row_lines : ℕ → ℕ → List Row → List Bytes
row_lines key_width value_width [] = []
row_lines key_width value_width (row ∷ rest) =
    row_line key_width value_width row ∷ row_lines key_width value_width rest

-- The widths as the table uses them: the value column has room for the title.
abbrev pub column_widths : List Row → ℕ × ℕ
column_widths table =
    let (key_width, value_width) = widths table (0, 0) in
    (key_width, max value_width (length title + 2))

-- The lines of the table.
unfoldable pub table_lines : List Row → List Bytes
unfolding widths pad
table_lines table =
    let (key_width, value_width) = column_widths table in
    rule key_width value_width
    ∷ title_line key_width value_width
    ∷ rule key_width value_width
    ∷ (row_lines key_width value_width table ++ rule key_width value_width ∷ [])

-- The lines with a newline between each two.
unfoldable pub join_lines : List Bytes → Bytes
join_lines [] = []
join_lines (line ∷ []) = line
join_lines (line ∷ next ∷ rest) = line ++ (b'\n' ∷ join_lines (next ∷ rest))

unfoldable pub make_startup_table : (S : Spdlog) → Config S.Level → Bytes
unfolding rows table_lines join_lines
make_startup_table S cfg = join_lines (table_lines (rows S cfg))

-- Both columns have room for the text of a row.
abbrev Fits : ℕ × ℕ → Row → Type 0
Fits w row = (length row.0 ≤ w.0) × (length row.1 ≤ w.1)

abbrev pub HasLength : ℕ → Bytes → Type 0
HasLength n line = length line ≡ n
