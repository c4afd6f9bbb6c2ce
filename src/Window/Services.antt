-- ===== src/Window/Services.antt =====
-- The flow tracker and the packet interceptor as services of the window.
use scrambler.Prelude.{
  ℕ, ◌≡◌, refl, inl, inr, Bool, true, false, Option, Option-cases, none, some, List,
}
use scrambler.PacketData.{ScheduledPacket}
use scrambler.Startup.{WindowsErrors}
use scrambler.Flow.Tracker.{FlowTracker, UdpRow, new_tracker}
use scrambler.Flow.Loop
use scrambler.Delay.Interfaces.{PriorityQueue, SpscQueue}
use scrambler.Delay.Queue.{Entry, Delayed}
use scrambler.Interceptor.Capture.{WinDivert}
use scrambler.Interceptor.Lifecycle
use scrambler.Interceptor.Lifecycle.{
  Control, PacketInterceptor, Intercepting, stop_queue, on_driver,
}
use scrambler.Window.Pipeline.{Service}
use scrambler.Window.Consistent.{IsService}

-- What the system answers when a tracker starts.
pub record TrackerStart (H : Type 0) : Type 0 where
  pub opened : Option H
  pub gle : ℕ
  pub table : Option (List UdpRow)

module _ (ntohl ntohs : ℕ → ℕ) (codes : WindowsErrors) {H : Type 0} where
  abbrev pub tracker_service : Service (TrackerStart H) (FlowTracker H)
  tracker_service = record {
    launch = λ e. Loop.start ntohl ntohs codes e.opened e.gle e.table new_tracker;
    stop = λ t. (Loop.stop t).1;
    is_running = λ t. t.running;
  }

  pub tracker-IsService : IsService tracker_service
  unfolding Loop.start Loop.stop new_tracker
  tracker-IsService = record {
    launched = λ e fine. elim (Option-cases e.opened) [
      | inl refused ↦ absurd (cc (rw refused at fine))
      | inr (h, opened) ↦ rw opened refl
    ];
    stopped = λ t. elim (Option-cases t.handle) [
      | inl shut ↦ rw shut refl
      | inr (h, opened) ↦ rw opened refl
    ];
  }

-- The driver that an interceptor starts on, and what the system answers.
pub record InterceptorStart (A D : Type 0) : Type 0 where
  pub driver : D
  pub gle : ℕ
  pub memory : ℕ → ScheduledPacket A

module _ {capacity : ℕ} (ring : SpscQueue ℕ capacity) (heap : PriorityQueue Entry (λ e. e.due))
    {A D : Type 0} (w : WinDivert A D) (k : Control D) (codes : WindowsErrors) where
  abbrev pub new_interceptor : D → Intercepting ring heap w k
  new_interceptor d = record {
    driver = d;
    has_handle = false;
    delay_queue = none;
    running = false;
    joinable = false;
    driver_errors = 0;
  }

  abbrev pub interceptor_service : Service (InterceptorStart A D) (Intercepting ring heap w k)
  interceptor_service = record {
    launch = λ e. Lifecycle.start ring heap w k codes e.gle e.memory (new_interceptor e.driver);
    stop = λ p. Lifecycle.stop ring heap w k p;
    is_running = λ p. p.running;
  }

  stopped_by_clauses :
      (d : D) (handle : Bool) (queue : Option (Delayed ring heap A D)) (on joinable : Bool)
      (errors : ℕ)
      → let p : Intercepting ring heap w k = record {
        driver = d;
        has_handle = handle;
        delay_queue = queue;
        running = on;
        joinable = joinable;
        driver_errors = errors;
      } in
        (Lifecycle.stop ring heap w k p).running ≡ false
  unfolding Lifecycle.stop on_driver stop_queue
  stopped_by_clauses d true none on joinable errors = refl
  stopped_by_clauses d true (some q) on joinable errors = refl
  stopped_by_clauses d false none on joinable errors = refl
  stopped_by_clauses d false (some q) on joinable errors = refl

  pub interceptor-IsService : IsService interceptor_service
  unfolding Lifecycle.start
  interceptor-IsService = record {
    launched = λ e fine. elim (Option-cases (k.open_handle e.driver)) [
      | inl refused ↦ absurd (cc (rw refused at fine))
      | inr (d, opened) ↦ rw opened refl
    ];
    stopped = λ p.
        stopped_by_clauses p.driver p.has_handle p.delay_queue p.running p.joinable p.driver_errors;
  }
