-- ===== src/Startup.antt =====
-- include/core/StartupError.h, src/core/StartupError.cpp, and the error codes of Windows that the
-- core compares with, which are parameters.
use Prim.Native.String.{String}
use scrambler.Prelude.{ℕ, ◌==◌, ◌||◌, if◌then◌else◌}

pub record WindowsErrors : Type 0 where
  pub access_denied : ℕ
  pub file_not_found : ℕ
  pub service_does_not_exist : ℕ
  pub no_data : ℕ
  pub invalid_handle : ℕ
  pub operation_aborted : ℕ

pub data StartupError : Type 0 where
  driver_access_denied driver_missing driver_open_failed_other already_running invalid_state :
      StartupError

unfoldable pub map_windivert_open_error : WindowsErrors → ℕ → StartupError
map_windivert_open_error codes gle =
    if gle == codes.access_denied
    then StartupError.driver_access_denied
    else if gle == codes.file_not_found || gle == codes.service_does_not_exist
    then StartupError.driver_missing
    else StartupError.driver_open_failed_other

-- `ToUserMessage`, for the status bar.
unfoldable pub to_user_message : StartupError → String
to_user_message StartupError.driver_access_denied = "Access denied. Run Scrambler as administrator."
to_user_message StartupError.driver_missing =
    "WinDivert driver files are missing. Reinstall Scrambler."
to_user_message StartupError.driver_open_failed_other =
    "Failed to open WinDivert driver. Check the diagnostics log."
to_user_message StartupError.already_running = "Pipeline is already running."
to_user_message StartupError.invalid_state = "Internal error: invalid pipeline state."
