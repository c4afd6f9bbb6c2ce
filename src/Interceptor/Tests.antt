-- ===== src/Interceptor/Tests.antt =====
-- The interceptor on a driver that counts its calls, with packets of three bytes.
use scrambler.Prelude.{
  ℕ, ◌+◌, ◌-◌, ◌≤◌, ◌<◌, ◌≡◌, refl, ◌⊎◌, true, false, none, some, List, [], ◌∷◌, ◌++◌, map, length,
  suc, Permᴰ, ltb, leb, if◌then◌else◌, arith,
}
use scrambler.PacketData.{ScheduledPacket}
use scrambler.Config.Effects
use scrambler.Config.Effects.{default_effects}
use scrambler.Startup.{StartupError, map_windivert_open_error}
use scrambler.Targets.{no_targets, contains}
use scrambler.Flow.Tracker.{new_tracker, lookup_pid}
use scrambler.Flow.Endings.{IsTransient}
use scrambler.Samples.{
  codes, same, Milli, milli_float, counting_random, counting-IsUniform, sample_tuple, sample_packet,
}
use scrambler.Engine.Direction.{new_engine}
use scrambler.Delay.Interfaces.{PriorityQueue, SpscQueue}
use scrambler.Delay.Queue.{Entry, Delayed, new_queue, push}
use scrambler.Delay.Laws.{IsOwned, pending, push_lem}
use scrambler.Delay.Calls.{new_queue_lem}
use scrambler.Delay.Flush.{sent_each}
use scrambler.Delay.Samples.{list_ring, list_heap}
use scrambler.Interceptor.Capture.{WinDivert, Turn, PerDirection}
use scrambler.Interceptor.Packet.{Capturing, affect_packet}
use scrambler.Interceptor.Loop.{
  Event, failed, received, fatal, begin_batch, capture_batch, capture_loop,
}
use scrambler.Interceptor.Lifecycle.{Control, Intercepting, start, stop}
use scrambler.Types.{tuple_from_packet}
use scrambler.Interceptor.Foreign.{IsForeign}
use scrambler.Interceptor.Untouched.{capture_batch_untouched}
use scrambler.Interceptor.Targeted.{IsAffected, affect_packet_copies}
use scrambler.Interceptor.Stopped.{set_up, stop_sends_delayed, start_then_stop}
use scrambler.Interceptor.Endings.{with_errors, capture_loop_transient}

abbrev entries : PriorityQueue Entry (λ e. e.due)
entries = list_heap (λ e. e.due)

abbrev ring : SpscQueue ℕ 2
ring = list_ring 2

abbrev at : ℕ → ScheduledPacket ℕ
at t = record { packet = sample_packet; release_at = t }

-- Packets of three bytes, none of them UDP over IP; an odd address is outbound.
abbrev driver : WinDivert ℕ ℕ
driver = record {
  ntohl = same;
  ntohs = same;
  parse = λ data_bytes.
      if ltb (length data_bytes) 3
      then none
      else some (record { ip = none; udp = none; next_len = length data_bytes - 3 });
  is_outbound = λ a. leb 7 a;
  send = λ data_bytes a calls. (true, calls + 1);
  send_ex = λ data_bytes addrs calls. (true, calls + 1);
}

abbrev control : Control ℕ
control = record {
  open_handle = λ d. some (d + 1);
  set_queue_length = λ n d. d;
  set_queue_size = λ n d. d;
  shutdown_recv = λ d. d + 100;
  shutdown_send = λ d. d + 1000;
  close = λ d. d + 10000;
}

abbrev both : ℕ → PerDirection
both n = record { outbound = n; inbound = n }

abbrev queue : Delayed ring entries ℕ ℕ
queue = push ring entries (at 5) (new_queue ring entries (λ _. at 0) 0)

queue-IsOwned : IsOwned ring entries queue
queue-IsOwned =
    (push_lem ring entries (at 5) (new_queue ring entries (λ _. at 0) 0)
      (new_queue_lem ring entries driver.send driver.send_ex (λ _. at 0) 0).0).0

abbrev capturing : Capturing ring entries ℕ ℕ ℕ ℕ
capturing = record {
  tracker = new_tracker;
  engine = record { outbound = new_engine 0; inbound = new_engine 0 };
  queue = queue;
  send_buf = [];
  send_addrs = [];
  counts = record {
    captured = both 0;
    dropped = both 0;
    delayed = both 0;
    duplicated = both 0;
    oversized = 0;
    parse_failures = 0;
    reinjected = 0;
    reinject_failures = 0;
    driver_errors = 0;
  };
}

abbrev turn : ℕ → Turn ℕ Milli
turn addr = record {
  addr = addr;
  now = 3;
  table = none;
  targets = no_targets;
  effects = default_effects;
}

abbrev two_turns : List (Turn ℕ Milli)
two_turns = turn 7 ∷ turn 6 ∷ []

abbrev six_bytes : List ℕ
six_bytes = 1 ∷ 2 ∷ 3 ∷ 4 ∷ 5 ∷ 6 ∷ []

-- Packets of three bytes: one of UDP, one that is not, and what is too short for a packet.
abbrev udp_driver : WinDivert ℕ ℕ
udp_driver = record driver {
  parse = λ data_bytes.
      if ltb (length data_bytes) 3
      then none
      else some (record {
        ip = some (record { src_addr = 0x0a00_0001; dst_addr = 0x0808_0808; protocol = 17 });
        udp =
            if ltb 6 (length data_bytes)
            then some (record { src_port = 5000; dst_port = 53 })
            else none;
        next_len = length data_bytes - 3;
      });
}

abbrev eight_bytes : List ℕ
eight_bytes = 7 ∷ 8 ∷ six_bytes

-- The system knows the owner of the UDP packet; another process is chosen.
abbrev known : ℕ → Turn ℕ Milli
known addr = record (turn addr) {
  table = some (record { local_addr = 0x0a00_0001; local_port = 5000; owning_pid = 42 } ∷ []);
  targets = record { pids = 43 ∷ []; cached_pid = 43 };
}

abbrev three_turns : List (Turn ℕ Milli)
three_turns = known 7 ∷ known 6 ∷ known 5 ∷ []

-- The owner is found, and is the one that is not chosen.
owner_found : (lookup_pid same same sample_tuple true (known 7).table (new_tracker {H = ℕ})).0 ≡ 42
unfolding lookup_pid new_tracker
owner_found = refl

three_turns-IsForeign :
    IsForeign ring entries udp_driver three_turns eight_bytes
      (begin_batch udp_driver.is_outbound three_turns capturing)
unfolding lookup_pid contains new_tracker tuple_from_packet begin_batch
three_turns-IsForeign = (refl, (refl, tt))

capture_batch_untouched_example :
    let c' = capture_batch ring entries udp_driver eight_bytes three_turns capturing in
    let call = udp_driver.send_ex eight_bytes (7 ∷ 6 ∷ 5 ∷ []) capturing.queue.divert in
    (c'.queue ≡ record capturing.queue { divert = call.1 })
    × (c'.engine ≡ capturing.engine)
    × (c'.counts.reinjected ≡ (if call.0 then 0 + 3 else 0))
    × (c'.counts.reinject_failures ≡ (if call.0 then 0 else 0 + 3))
capture_batch_untouched_example =
    capture_batch_untouched ring entries udp_driver three_turns eight_bytes capturing
      three_turns-IsForeign (omega arith, (omega arith, tt)) (omega arith)

affect_packet_copies_example :
    IsAffected ring entries
      (Effects.snapshot {F = Milli} default_effects true)
      true
      3
      (1 ∷ 2 ∷ [])
      7
      capturing
      (affect_packet ring entries driver (turn 7) sample_tuple 42 (1 ∷ 2 ∷ []) capturing)
affect_packet_copies_example =
    affect_packet_copies ring entries driver counting-IsUniform (turn 7) sample_tuple 42
      (1 ∷ 2 ∷ []) capturing (omega arith)

abbrev running : Intercepting ring entries driver control
running = record {
  driver = 0;
  has_handle = true;
  delay_queue = some queue;
  running = true;
  joinable = true;
  driver_errors = 0;
}

stop_sends_delayed_example :
    let p' = stop ring entries driver control running in
    (ps : List (ScheduledPacket ℕ)) × Permᴰ (pending ring entries queue) ps
    × (p'.driver
        ≡ control.close (
            control.shutdown_send (
              sent_each ring entries driver.send driver.send_ex
                (control.shutdown_recv queue.divert)
                ps)))
    × (p'.delay_queue ≡ none)
    × (p'.has_handle ≡ false)
    × (p'.running ≡ false)
    × (p'.joinable ≡ false)
stop_sends_delayed_example =
    stop_sends_delayed ring entries driver control running queue refl refl queue-IsOwned

abbrev closed : Intercepting ring entries driver control
closed = record {
  driver = 0;
  has_handle = false;
  delay_queue = none;
  running = false;
  joinable = false;
  driver_errors = 0;
}

start_then_stop_example :
    let (error, p') = start ring entries driver control codes 5 (λ _. at 0) closed in
    let stopped = record closed {
      has_handle = false;
      delay_queue = none;
      running = false;
      joinable = false;
    } in
    ((control.open_handle closed.driver ≡ none)
      × (error ≡ some (map_windivert_open_error codes 5))
      × (stop ring entries driver control p' ≡ record stopped { driver_errors = 0 + 1 }))
    ⊎ ((opened : ℕ) × (control.open_handle closed.driver ≡ some opened)
        × (error ≡ none)
        × (p'.running ≡ true)
        × (p'.driver ≡ set_up ring entries driver control opened)
        × ((q : Delayed ring entries ℕ ℕ) × (p'.delay_queue ≡ some q)
            × IsOwned ring entries q
            × (pending ring entries q ≡ [])
            × (q.running ≡ true)
            × (q.divert ≡ set_up ring entries driver control opened))
        × (start ring entries driver control codes 87 (λ _. at 1) p'
            ≡ (some StartupError.already_running, p'))
        × (stop ring entries driver control p' ≡ record stopped {
          driver = control.close (
              control.shutdown_send
                (control.shutdown_recv (set_up ring entries driver control opened)));
        }))
start_then_stop_example =
    start_then_stop ring entries driver control codes 5 87 (λ _. at 0) (λ _. at 1) closed refl refl

transient : (IsTransient codes 1) × (IsTransient codes 2)
transient = ground arith

capture_loop_transient_example :
    let events : List (Event ℕ Milli) =
      map failed (1 ∷ 2 ∷ []) ++ received six_bytes two_turns ∷ [] in
    let result = capture_loop ring entries driver codes events 31 capturing in
    ((31 + 2 ≤ 32)
      → result
        ≡ capture_loop ring entries driver codes
            (received six_bytes two_turns ∷ [])
            (31 + 2)
            (with_errors 2 capturing))
    × ((32 < 31 + 2)
        → (over : List ℕ) × (gle : ℕ) × (under : List ℕ) × (1 ∷ 2 ∷ [] ≡ over ++ gle ∷ under)
          × (31 + length over ≡ 32)
          × (result ≡ (fatal, gle ∷ [], with_errors (suc (length over)) capturing)))
capture_loop_transient_example =
    capture_loop_transient ring entries driver codes (1 ∷ 2 ∷ []) 31
      (received six_bytes two_turns ∷ []) capturing (transient.0, (transient.1, tt)) (omega arith)
