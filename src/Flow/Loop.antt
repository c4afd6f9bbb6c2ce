-- ===== src/Flow/Loop.antt =====
-- `FlowTracker::Start`, `Stop` and `TrackingLoop`. What the driver answers is given: the handle
-- that WinDivertOpen returns, and the turns of the loop in order.
use scrambler.Prelude.{ℕ, ◌+◌, true, false, Option, none, some, List, [], ◌∷◌, ◌++◌}
use scrambler.Types.{FiveTuple}
use scrambler.Startup.{WindowsErrors, StartupError, map_windivert_open_error}
use scrambler.Flow.Failures.{
  RecvFailureAction, continue_loop, exit_clean, exit_fatal, classify_recv_failure,
}
use scrambler.Flow.Tracker.{
  FlowTracker, UdpRow, bootstrap_from_system, on_flow_established, on_flow_deleted,
}

pub data DriverCall (H : Type 0) : Type 0 where
  shutdown_both close : H → DriverCall H

-- What a turn of the loop meets: `running_` is false, or the driver fails, or it has an event.
pub data Turn : Type 0 where
  asked_to_stop : Turn
  failed : ℕ → Turn
  flow_established : FiveTuple → ℕ → Turn
  flow_deleted : FiveTuple → Turn
  other_event : FiveTuple → Turn

pub data Exit : Type 0 where
  still_looping stopped clean fatal : Exit

module _ (ntohl ntohs : ℕ → ℕ) (codes : WindowsErrors) {H : Type 0} where
  -- An error, `none` for success. `gle` is the error of WinDivertOpen, if it fails.
  unfoldable pub start :
      (opened : Option H) (gle : ℕ)
      → Option (List UdpRow)
      → FlowTracker H
      → Option StartupError × FlowTracker H
  unfolding bootstrap_from_system map_windivert_open_error
  start opened gle table t = elim t.running [
    | true ↦ (some StartupError.already_running, t)
    | false ↦ elim opened [
      | none ↦ (
        some (map_windivert_open_error codes gle),
        record t { handle = none; driver_errors = t.driver_errors + 1 },
      )
      | some h ↦
          let booted = bootstrap_from_system ntohl ntohs table (record t { handle = some h }) in
          (none, record booted { running = true; joinable = true })
    ]
  ]

unfoldable pub stop : {H : Type 0} → FlowTracker H → List (DriverCall H) × FlowTracker H
stop t = elim t.handle [
  | none ↦ ([], record t { running = false; joinable = false })
  | some h ↦ (
    shutdown_both h ∷ close h ∷ [],
    record t { running = false; joinable = false; handle = none },
  )
]

-- What the loop does with a failure that is classified, and how it would go on. The callback for
-- a fatal failure is taken to be set, as the window always sets it.
unfoldable pub after_failure :
    {H : Type 0}
    → RecvFailureAction × ℕ × ℕ
    → ℕ
    → FlowTracker H
    → (ℕ → FlowTracker H → Exit × FlowTracker H)
    → Exit × FlowTracker H
after_failure (continue_loop, failures, errors) gle t onwards =
    onwards failures (record t { driver_errors = errors })
after_failure (exit_clean, failures, errors) gle t onwards =
    (clean, record t { driver_errors = errors })
after_failure (exit_fatal, failures, errors) gle t onwards =
    (fatal, record t { driver_errors = errors; notified = t.notified ++ gle ∷ [] })

-- With the count of consecutive failures; the loop goes on as long as there are turns.
unfoldable pub tracking_loop :
    {H : Type 0} → WindowsErrors → List Turn → ℕ → FlowTracker H → Exit × FlowTracker H
tracking_loop codes [] failures t = (still_looping, t)
tracking_loop codes (asked_to_stop ∷ turns) failures t = (stopped, t)
tracking_loop codes (failed gle ∷ turns) failures t =
    after_failure (classify_recv_failure codes gle failures t.driver_errors) gle t
      (tracking_loop codes turns)
tracking_loop codes (flow_established tuple pid ∷ turns) failures t =
    tracking_loop codes turns 0 (on_flow_established tuple pid t)
tracking_loop codes (flow_deleted tuple ∷ turns) failures t =
    tracking_loop codes turns 0 (on_flow_deleted tuple t)
tracking_loop codes (other_event tuple ∷ turns) failures t = tracking_loop codes turns 0 t
