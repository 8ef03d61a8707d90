-- ===== src/Logger.antt =====
-- `CLogger` of utils/src/Logger.{hpp,cpp}. What it writes to standard output and to the log file is a
-- list of lines, a prefix and a message each.
pub mod Lines
mod Runs
use Prim.Native.String.{String}
use text.Mathlib.Text.{◌==◌ as str_eq}
use sane_in_the_membrane.Common.{
  ℕ, Bool, true, false, not, List, [], ◌∷◌, ◌++◌, ltb, if◌then◌else◌, ◌&&◌,
}
use sane_in_the_membrane.Common.Exec.{Expected, value, unexpected}

pub data LogLevel : Type 0 where
  log_trace log_debug log_info log_warn log_error log_critical : LogLevel

abbrev pub level_code : LogLevel → ℕ
level_code log_trace = 0
level_code log_debug = 1
level_code log_info = 2
level_code log_warn = 3
level_code log_error = 4
level_code log_critical = 5

abbrev pub Line : Type 0
Line = String × String

-- `file_open` says whether `m_file` is a good stream, `log_file` holds the lines of its file, and `stdout`
-- what was printed.
pub record Logger : Type 0 where
  pub level : LogLevel
  pub file_enabled : Bool
  pub file_open : Bool
  pub log_file : List Line
  pub stdout_enabled : Bool
  pub enable_coloured_output : Bool
  pub stdout : List Line

abbrev pub new_logger : LogLevel → Logger
new_logger level = record {
  level = level;
  file_enabled = false;
  file_open = false;
  log_file = [];
  stdout_enabled = true;
  enable_coloured_output = true;
  stdout = [];
}

abbrev pub set_log_level : LogLevel → Logger → Logger
set_log_level level l = record l { level = level }

abbrev pub set_stdout_enabled : Bool → Logger → Logger
set_stdout_enabled enabled l = record l { stdout_enabled = enabled }

-- The file system says whether the parent directory is there once it was created if missing, and
-- whether the stream opened; a stream opened anew truncates the file.
unfoldable pub set_log_file : Bool → Bool → Bool → Logger → Expected (Unit {0}) String × Logger
set_log_file path_empty parent_there opens l =
    if path_empty
    then (value tt, record l { file_enabled = false; file_open = false; log_file = [] })
    else if not parent_there
    then (unexpected "Failed to access log file", l)
    else if opens
    then (value tt, record l { file_enabled = true; file_open = true; log_file = [] })
    else (
      unexpected "Failed to open write stream to log file",
      record l { file_enabled = true; file_open = false; log_file = [] },
    )

abbrev pub prefix : LogLevel → String
prefix log_trace = "TRACE: "
prefix log_debug = "DEBUG: "
prefix log_info = "INFO: "
prefix log_warn = "WARN: "
prefix log_error = "ERROR: "
prefix log_critical = "CRITICAL: "

-- The escape character is written `^`.
abbrev pub prefix_coloured : LogLevel → String
prefix_coloured log_trace = "^[36mTRACE: ^[0m"
prefix_coloured log_debug = "^[32mDEBUG: ^[0m"
prefix_coloured log_info = "^[34mINFO: ^[0m"
prefix_coloured log_warn = "^[33mWARN: ^[0m"
prefix_coloured log_error = "^[31mERROR: ^[0m"
prefix_coloured log_critical = "^[35mCRITICAL: ^[0m"

unfoldable pub log : LogLevel → String → Logger → Logger
log level message l = if ltb (level_code level) (level_code l.level) then l else record l {
  stdout =
      l.stdout
      ++ (((if not l.enable_coloured_output then prefix level else prefix_coloured level), message)
          ∷ []);
  log_file =
      if l.file_enabled && l.file_open
      then l.log_file ++ ((prefix level, message) ∷ [])
      else l.log_file;
}

-- A run of calls.
unfoldable pub log_all : List (LogLevel × String) → Logger → Logger
unfolding log
log_all [] l = l
log_all ((level, message) ∷ messages) l = log_all messages (log level message l)
