-- ===== src/Interceptor/Stopped.antt =====
-- How `Start` can end, and what `Stop` leaves behind.
use scrambler.Prelude.{
  ◌+◌, ◌∙◌, ℕ, ◌*◌, ◌≡◌, refl, ap, ◌⊎◌, inl, inr, true, false, none, some, Option-cases, List, [],
  Permᴰ, arith,
}
use scrambler.PacketData.{ScheduledPacket}
use scrambler.Startup.{WindowsErrors, StartupError, map_windivert_open_error}
use scrambler.Delay.Interfaces.{PriorityQueue, SpscQueue}
use scrambler.Delay.Queue
use scrambler.Delay.Queue.{Entry, Delayed, new_queue}
use scrambler.Delay.Laws.{IsOwned, pending}
use scrambler.Delay.Flush.{stop_lem, sent_each}
use scrambler.Delay.Calls.{new_queue_lem}
use scrambler.Interceptor.Capture.{WinDivert}
use scrambler.Interceptor.Lifecycle.{Control, Intercepting, start, stop, stop_queue, on_driver}

-- Only nothing is a rearrangement of nothing.
nothing_permuted : {A : Type 0} {xs ys : List A} → Permᴰ xs ys → xs ≡ [] → ys ≡ []
nothing_permuted Permᴰ.nil h = refl
nothing_permuted (Permᴰ.cons e all) h = ground (arith, h)
nothing_permuted (Permᴰ.swap e e') h = ground (arith, h)
nothing_permuted (Permᴰ.trans first second) h = nothing_permuted second (nothing_permuted first h)

module _ {capacity : ℕ} (ring : SpscQueue ℕ capacity) (heap : PriorityQueue Entry (λ e. e.due))
    {A D : Type 0} (w : WinDivert A D) (k : Control D) where
  -- `Stop` on a running interceptor: receiving is shut down first, then every packet that was
  -- delayed is handed to the driver, each once, and only then is the handle shut for sending and
  -- closed. Nothing is left: no queue, no handle, no thread.
  pub stop_sends_delayed :
      (p : Intercepting ring heap w k) (q : Delayed ring heap A D)
      → p.has_handle ≡ true
      → p.delay_queue ≡ some q
      → IsOwned ring heap q
      → let p' = stop ring heap w k p in
        (ps : List (ScheduledPacket A)) × Permᴰ (pending ring heap q) ps
        × (p'.driver
            ≡ k.close (
                k.shutdown_send
                  (sent_each ring heap w.send w.send_ex (k.shutdown_recv q.divert) ps)))
        × (p'.delay_queue ≡ none)
        × (p'.has_handle ≡ false)
        × (p'.running ≡ false)
        × (p'.joinable ≡ false)
  unfolding stop on_driver stop_queue
  stop_sends_delayed p q handle queue o =
      let q₁ : Delayed ring heap A D = record q { divert = k.shutdown_recv q.divert } in
      let (ps, all, calls, _, _, _, _, _, _) = stop_lem ring heap w.send w.send_ex q₁ o in
      rw (handle, queue, stop, on_driver, stop_queue)
        (
          ps,
          all,
          ap (λ d. k.close (k.shutdown_send d)) calls,
          refl,
          refl,
          rw (queue, on_driver) refl,
          rw (queue, on_driver) refl,
        )

  -- The handle that `Start` opens, set up.
  abbrev pub set_up : D → D
  set_up opened = k.set_queue_size (8 * 1024 * 1024) (k.set_queue_length 8192 opened)

  -- An interceptor that has just been started on a handle.
  abbrev begun :
      (ℕ → ScheduledPacket A) → D → Intercepting ring heap w k → Intercepting ring heap w k
  begun memory d p = record p {
    driver = d;
    has_handle = true;
    delay_queue = some (Queue.start ring heap w.send w.send_ex (new_queue ring heap memory d));
    running = true;
    joinable = true;
  }

  stop-begun :
      (memory : ℕ → ScheduledPacket A) (d : D) (p : Intercepting ring heap w k)
      → stop ring heap w k (begun memory d p) ≡ record p {
        driver = k.close (k.shutdown_send (k.shutdown_recv d));
        has_handle = false;
        delay_queue = none;
        running = false;
        joinable = false;
      }
  unfolding stop on_driver stop_queue Queue.start new_queue
  stop-begun memory d p =
      let (owned, none_left, _) = new_queue_lem ring heap w.send w.send_ex memory d in
      let q = Queue.start ring heap w.send w.send_ex (new_queue ring heap memory d) in
      let q₁ : Delayed ring heap A D = record q { divert = k.shutdown_recv d } in
      let (ps, all, calls, _, _, _, _, _, _) = stop_lem ring heap w.send w.send_ex q₁ owned in
      let no_packets : ps ≡ [] = nothing_permuted all none_left in
      let sent : (Queue.stop ring heap w.send w.send_ex q₁).divert ≡ k.shutdown_recv d =
        calls ∙ rw no_packets refl in
      ap
        (λ (e : D). record p {
          driver = k.close (k.shutdown_send e);
          has_handle = false;
          delay_queue = none;
          running = false;
          joinable = false;
        })
        sent

  -- An interceptor whose handle could not be opened.
  abbrev refused_start : Intercepting ring heap w k → Intercepting ring heap w k
  refused_start p = record p { has_handle = false; driver_errors = p.driver_errors + 1 }

  stop-refused_start :
      (p : Intercepting ring heap w k)
      → p.delay_queue ≡ none
      → stop ring heap w k (refused_start p) ≡ record p {
        has_handle = false;
        delay_queue = none;
        running = false;
        joinable = false;
        driver_errors = p.driver_errors + 1;
      }
  unfolding stop stop_queue
  stop-refused_start p no_queue =
      ap (λ o. stop ring heap w k (refused_start (record p { delay_queue = o }))) no_queue

  -- The two ends of `Start` on an interceptor that does not run.
  start-refused :
      (codes : WindowsErrors) (gle : ℕ) (memory : ℕ → ScheduledPacket A)
      (p : Intercepting ring heap w k)
      → p.running ≡ false
      → k.open_handle p.driver ≡ none
      → start ring heap w k codes gle memory p
        ≡ (some (map_windivert_open_error codes gle), refused_start p)
  unfolding start
  start-refused codes gle memory p off refused = simp (off, refused, start) refl

  start-opened :
      (codes : WindowsErrors) (gle : ℕ) (memory : ℕ → ScheduledPacket A)
      (p : Intercepting ring heap w k) (opened : D)
      → p.running ≡ false
      → k.open_handle p.driver ≡ some opened
      → start ring heap w k codes gle memory p ≡ (none, begun memory (set_up opened) p)
  unfolding start Queue.start new_queue
  start-opened codes gle memory p opened off accepted = simp (off, accepted, start) refl

  start-begun :
      (codes : WindowsErrors) (gle : ℕ) (memory memory' : ℕ → ScheduledPacket A) (d : D)
      (p : Intercepting ring heap w k)
      → start ring heap w k codes gle memory' (begun memory d p)
        ≡ (some StartupError.already_running, begun memory d p)
  unfolding start
  start-begun codes gle memory memory' d p = refl

  -- `Start` on an interceptor that does not run, and `Stop` after it. If the driver cannot be
  -- opened, the error of Windows is reported and counted, and `Stop` makes no call. Otherwise
  -- there is no error; the interceptor runs with a delay queue on the handle that was opened, with
  -- both queue parameters set, in which every slot is free and nothing is delayed; a second
  -- `Start` is refused and changes nothing; and `Stop` shuts the handle for receiving, then for
  -- sending, closes it, sends no packet, and leaves the interceptor as it was before but for the
  -- driver.
  pub start_then_stop :
      (codes : WindowsErrors) (gle gle' : ℕ) (memory memory' : ℕ → ScheduledPacket A)
      (p : Intercepting ring heap w k)
      → p.running ≡ false
      → p.delay_queue ≡ none
      → let (error, p') = start ring heap w k codes gle memory p in
        let stopped = record p {
          has_handle = false;
          delay_queue = none;
          running = false;
          joinable = false;
        } in
        ((k.open_handle p.driver ≡ none)
          × (error ≡ some (map_windivert_open_error codes gle))
          × (stop ring heap w k p' ≡ record stopped { driver_errors = p.driver_errors + 1 }))
        ⊎ ((opened : D) × (k.open_handle p.driver ≡ some opened)
            × (error ≡ none)
            × (p'.running ≡ true)
            × (p'.driver ≡ set_up opened)
            × ((q : Delayed ring heap A D) × (p'.delay_queue ≡ some q)
                × IsOwned ring heap q
                × (pending ring heap q ≡ [])
                × (q.running ≡ true)
                × (q.divert ≡ set_up opened))
            × (start ring heap w k codes gle' memory' p' ≡ (some StartupError.already_running, p'))
            × (stop ring heap w k p' ≡ record stopped {
              driver = k.close (k.shutdown_send (k.shutdown_recv (set_up opened)));
            }))
  unfolding Queue.start new_queue
  start_then_stop codes gle gle' memory memory' p off no_queue =
      elim (Option-cases (k.open_handle p.driver)) [
        | inl refused ↦
            let ends = start-refused codes gle memory p off refused in
            inl (refused, ap (λ r. r.0) ends, rw ends (stop-refused_start p no_queue))
        | inr (opened, accepted) ↦
            let d = set_up opened in
            let ends = start-opened codes gle memory p opened off accepted in
            let (owned, none_left, _) = new_queue_lem ring heap w.send w.send_ex memory d in
            let q = Queue.start ring heap w.send w.send_ex (new_queue ring heap memory d) in
            inr (
              opened,
              accepted,
              rw ends refl,
              rw ends refl,
              rw ends refl,
              (q, rw ends refl, owned, none_left, refl, refl),
              rw ends (start-begun codes gle' memory memory' d p),
              rw ends (stop-begun memory d p),
            )
      ]
