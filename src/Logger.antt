-- ===== src/Logger.antt =====
-- logger.go: which messages are printed, and how. The arguments are put into the text by fmt.Sprintf,
-- whose result is the message; the date and time in front are those of the package log.
use o_camera_agent.Common.{Bool, true, false, not, ◌&&◌, if◌then◌else◌, ◌++◌, Option, none, some}
use o_camera_agent.Common.Text.{Bytes, codes}

pub data Level : Type 0 where
  level_info level_debug level_error level_warn : Level

abbrev pub level_text : Level → Bytes
level_text level_info = codes "INFO"
level_text level_debug = codes "DEBUG"
level_text level_error = codes "ERROR"
level_text level_warn = codes "WARN"

abbrev is_debug : Level → Bool
is_debug level_debug = true
is_debug _ = false

unfoldable pub log_line : Level → Bytes → Bytes → Bytes
log_line level mod_name message =
    codes "[" ++ level_text level ++ codes "] [" ++ mod_name ++ codes "] - " ++ message

-- logMessage; the first argument is DebugEnabled, and `none` prints nothing.
unfoldable pub log_message : Bool → Level → Bytes → Bytes → Option Bytes
unfolding log_line
log_message debug_enabled level mod_name message =
    if is_debug level && not debug_enabled then none else some (log_line level mod_name message)

unfoldable pub info : Bool → Bytes → Bytes → Option Bytes
unfolding log_message
info debug_enabled = log_message debug_enabled level_info

unfoldable pub debug : Bool → Bytes → Bytes → Option Bytes
unfolding log_message
debug debug_enabled = log_message debug_enabled level_debug

unfoldable pub error : Bool → Bytes → Bytes → Option Bytes
unfolding log_message
error debug_enabled = log_message debug_enabled level_error

unfoldable pub warn : Bool → Bytes → Bytes → Option Bytes
unfolding log_message
warn debug_enabled = log_message debug_enabled level_warn

-- What Fatal prints before it ends the program.
unfoldable pub fatal : Bytes → Bytes → Bytes
unfolding log_line
fatal = log_line level_error
