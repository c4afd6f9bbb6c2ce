-- ===== src/Flow/Failures.antt =====
-- `ClassifyRecvFailure` of src/core/Diagnostics.cpp, less its log lines.
use scrambler.Prelude.{ℕ, ◌+◌, ◌||◌, ◌==◌, ltb, if◌then◌else◌}
use scrambler.Types.{max_consecutive_recv_failures}
use scrambler.Startup.{WindowsErrors}

pub data RecvFailureAction : Type 0 where
  continue_loop exit_clean exit_fatal : RecvFailureAction

-- The action, the consecutive failures, and the driver errors after.
unfoldable pub classify_recv_failure :
    WindowsErrors → (gle consecutive_failures driver_errors : ℕ) → RecvFailureAction × ℕ × ℕ
classify_recv_failure codes gle consecutive_failures driver_errors =
    if gle == codes.no_data
    then (RecvFailureAction.exit_clean, consecutive_failures, driver_errors)
    else if gle == codes.invalid_handle || gle == codes.operation_aborted
    then (RecvFailureAction.exit_fatal, consecutive_failures, driver_errors + 1)
    else if ltb max_consecutive_recv_failures (consecutive_failures + 1)
    then (RecvFailureAction.exit_fatal, consecutive_failures + 1, driver_errors + 1)
    else (RecvFailureAction.continue_loop, consecutive_failures + 1, driver_errors + 1)
