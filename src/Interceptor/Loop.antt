-- ===== src/Interceptor/Loop.antt =====
-- `CaptureLoop`: the walk over a batch, a turn of the loop, and the loop.
use scrambler.Prelude.{
  ℕ, ◌+◌, ◌-◌, ◌==◌, ltb, Bool, true, false, none, some, List, [], ◌∷◌, ◌++◌, map, if◌then◌else◌,
  length, take, drop,
}
use scrambler.Startup.{WindowsErrors}
use scrambler.Flow.Failures.{
  RecvFailureAction, continue_loop, exit_clean, exit_fatal, classify_recv_failure,
}
use scrambler.Rates.{Float, Random}
use scrambler.Delay.Interfaces.{PriorityQueue, SpscQueue}
use scrambler.Delay.Queue.{Entry}
use scrambler.Interceptor.Capture.{WinDivert, Turn, Capture, add_to}
use scrambler.Interceptor.Packet.{Capturing, handle_packet}

pub data Exit : Type 0 where
  still_looping stopped clean fatal : Exit

-- What a turn of the loop meets: `running_` is false, or the driver fails, or it has a batch.
pub data Event (A F : Type 0) : Type 0 where
  asked_to_stop : Event A F
  failed : ℕ → Event A F
  received : List ℕ → List (Turn A F) → Event A F

-- How many addresses are outbound.
unfoldable pub count_outbound : {A F : Type 0} → (A → Bool) → List (Turn A F) → ℕ
count_outbound is_outbound [] = 0
count_outbound is_outbound (t ∷ ts) =
    (if is_outbound t.addr then 1 else 0) + count_outbound is_outbound ts

module _ {A G H Q : Type 0} where
  -- The rest of a batch that cannot be parsed goes out unchanged.
  unfoldable pub append_rest :
      {F : Type 0} → List (Turn A F) → List ℕ → Capture A G H Q → Capture A G H Q
  append_rest ts rest c = record c {
    send_buf = c.send_buf ++ rest;
    send_addrs = c.send_addrs ++ map (λ t. t.addr) ts;
    counts = record c.counts { parse_failures = c.counts.parse_failures + 1 };
  }

  -- What a batch of bytes and addresses starts with.
  unfoldable pub begin_batch :
      {F : Type 0} → (A → Bool) → List (Turn A F) → Capture A G H Q → Capture A G H Q
  unfolding count_outbound
  begin_batch is_outbound ts c =
      let outbound_count = count_outbound is_outbound ts in
      let k = c.counts in
      record c {
        send_buf = [];
        send_addrs = [];
        counts = record k {
          captured =
              add_to false (length ts - outbound_count) (add_to true outbound_count k.captured);
        };
      }

  -- What the loop does with a failure that is classified, and how it would go on. The second part
  -- of the result is what the fatal callback is given, which is taken to be set, as the window
  -- always sets it.
  unfoldable pub after_failure :
      RecvFailureAction × ℕ × ℕ
      → ℕ
      → Capture A G H Q
      → (ℕ → Capture A G H Q → Exit × List ℕ × Capture A G H Q)
      → Exit × List ℕ × Capture A G H Q
  after_failure (continue_loop, failures, errors) gle c onwards =
      onwards failures (record c { counts = record c.counts { driver_errors = errors } })
  after_failure (exit_clean, failures, errors) gle c onwards =
      (clean, [], record c { counts = record c.counts { driver_errors = errors } })
  after_failure (exit_fatal, failures, errors) gle c onwards =
      (fatal, gle ∷ [], record c { counts = record c.counts { driver_errors = errors } })

module _ {capacity : ℕ} (ring : SpscQueue ℕ capacity) (heap : PriorityQueue Entry (λ e. e.due))
    {A D G H : Type 0} (w : WinDivert A D) where
  -- The one call that sends what goes out at once.
  unfoldable pub send_batch : Capturing ring heap A D G H → Capturing ring heap A D G H
  send_batch c =
      if ltb 0 (length c.send_addrs)
      then (let (sent, handle) = w.send_ex c.send_buf c.send_addrs c.queue.divert in
          let n = length c.send_addrs in
          let k = c.counts in
          record c {
            queue = record c.queue { divert = handle };
            counts = record k {
              reinjected = if sent then k.reinjected + n else k.reinjected;
              reinject_failures = if sent then k.reinject_failures else k.reinject_failures + n;
            };
          })
      else c

module _ {capacity : ℕ} (ring : SpscQueue ℕ capacity) (heap : PriorityQueue Entry (λ e. e.due))
    {A D G H F : Type 0} ⦃f : Float F⦄ ⦃r : Random F G⦄ (w : WinDivert A D) where
  -- The loop over the addresses; the bytes are those from `current_pkt` on.
  unfoldable pub walk :
      List (Turn A F) → List ℕ → Capturing ring heap A D G H → Capturing ring heap A D G H
  unfolding append_rest handle_packet
  walk [] current c = c
  walk (t ∷ ts) current c = elim (w.parse current) [
    | none ↦ append_rest (t ∷ ts) current c
    | some found ↦
        let pkt_len = length current - found.next_len in
        let handled = handle_packet ring heap w t found (take pkt_len current) c in
        if found.next_len == 0 then handled else walk ts (drop pkt_len current) handled
  ]

  unfoldable pub capture_batch :
      List ℕ → List (Turn A F) → Capturing ring heap A D G H → Capturing ring heap A D G H
  unfolding begin_batch walk send_batch
  capture_batch received_bytes ts c =
      send_batch ring heap w (walk ts received_bytes (begin_batch w.is_outbound ts c))

  -- With the count of consecutive failures; the loop goes on as long as there are events.
  unfoldable pub capture_loop :
      WindowsErrors
      → List (Event A F)
      → ℕ
      → Capturing ring heap A D G H
      → Exit × List ℕ × Capturing ring heap A D G H
  unfolding capture_batch
  capture_loop codes [] failures c = (still_looping, [], c)
  capture_loop codes (asked_to_stop ∷ events) failures c = (stopped, [], c)
  capture_loop codes (failed gle ∷ events) failures c =
      after_failure (classify_recv_failure codes gle failures c.counts.driver_errors) gle c
        (capture_loop codes events)
  capture_loop codes (received received_bytes ts ∷ events) failures c =
      capture_loop codes events 0 (capture_batch received_bytes ts c)
