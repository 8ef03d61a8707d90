-- ===== src/Logger/Runs.antt =====
-- A concrete run of the logger, and the theorems at it.
use Prim.Native.String.{String}
use sane_in_the_membrane.Common.{true, List, [], ◌∷◌}
use sane_in_the_membrane.Logger.{
  LogLevel, log_trace, log_info, log_error, Logger, new_logger, log_all,
}
use sane_in_the_membrane.Logger.Lines.{Logged, log_all-Logged}

abbrev messages : List (LogLevel × String)
messages = (log_trace, "Write ok") ∷ (log_info, "On done") ∷ (log_error, "failed") ∷ []

abbrev info_logger : Logger
info_logger = record (new_logger log_info) { file_enabled = true; file_open = true }

log_all-Logged_example : Logged messages info_logger (log_all messages info_logger)
log_all-Logged_example = log_all-Logged messages info_logger
