-- ===== src/Interceptor/Lifecycle.antt =====
-- `PacketInterceptor::Start` and `Stop`. The driver is a state; while there is a delay queue, it
-- stands in the queue, which sends on it. The capture thread is joined between two steps of
-- `Stop`, so what it still does comes before.
use scrambler.Prelude.{ℕ, ◌+◌, ◌*◌, Bool, true, false, Option, none, some}
use scrambler.PacketData.{ScheduledPacket}
use scrambler.Startup.{WindowsErrors, StartupError, map_windivert_open_error}
use scrambler.Delay.Interfaces.{PriorityQueue, SpscQueue}
use scrambler.Delay.Queue
use scrambler.Delay.Queue.{Entry, Delayed, new_queue}
use scrambler.Interceptor.Capture.{WinDivert}

-- The calls of WinDivert that open, set up, shut down and close a handle.
pub record Control (D : Type 0) : Type 0 where
  pub open_handle : D → Option D
  pub set_queue_length : ℕ → D → D
  pub set_queue_size : ℕ → D → D
  pub shutdown_recv : D → D
  pub shutdown_send : D → D
  pub close : D → D

pub record PacketInterceptor (D Q : Type 0) : Type 0 where
  pub driver : D
  pub has_handle : Bool
  pub delay_queue : Option Q
  pub running : Bool
  pub joinable : Bool
  pub driver_errors : ℕ

module _ {capacity : ℕ} (ring : SpscQueue ℕ capacity) (heap : PriorityQueue Entry (λ e. e.due))
    {A D : Type 0} (w : WinDivert A D) (k : Control D) where
  abbrev pub Intercepting : Type 0
  Intercepting = PacketInterceptor D (Delayed ring heap A D)

  -- An error, `none` for success. `gle` is the error of WinDivertOpen, if it fails.
  unfoldable pub start :
      WindowsErrors
      → (gle : ℕ) → (memory : ℕ → ScheduledPacket A) → Intercepting
      → Option StartupError × Intercepting
  unfolding map_windivert_open_error new_queue Queue.start
  start codes gle memory p = elim p.running [
    | true ↦ (some StartupError.already_running, p)
    | false ↦ elim (k.open_handle p.driver) [
      | none ↦ (
        some (map_windivert_open_error codes gle),
        record p { has_handle = false; driver_errors = p.driver_errors + 1 },
      )
      | some opened ↦
          let d = k.set_queue_size (8 * 1024 * 1024) (k.set_queue_length 8192 opened) in
          (
            none,
            record p {
              driver = d;
              has_handle = true;
              delay_queue =
                  some (Queue.start ring heap w.send w.send_ex (new_queue ring heap memory d));
              running = true;
              joinable = true;
            },
          )
    ]
  ]

  -- A call on the handle.
  unfoldable pub on_driver : (D → D) → Intercepting → Intercepting
  on_driver g p = elim p.delay_queue [
    | none ↦ record p { driver = g p.driver }
    | some q ↦ record p { delay_queue = some (record q { divert = g q.divert }) }
  ]

  -- The delay queue is stopped and given up.
  unfoldable pub stop_queue : Intercepting → Intercepting
  unfolding Queue.stop
  stop_queue p = elim p.delay_queue [
    | none ↦ p
    | some q ↦ record p {
      driver = (Queue.stop ring heap w.send w.send_ex q).divert;
      delay_queue = none;
    }
  ]

  unfoldable pub stop : Intercepting → Intercepting
  unfolding on_driver stop_queue
  stop p = elim p.has_handle [
    | true ↦
        let shut =
          stop_queue (on_driver k.shutdown_recv (record p { running = false; joinable = false })) in
        record shut { driver = k.close (k.shutdown_send shut.driver); has_handle = false }
    | false ↦ stop_queue (record p { running = false; joinable = false })
  ]
