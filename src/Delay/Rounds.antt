-- ===== src/Delay/Rounds.antt =====
-- One round of `DrainLoop`: what it sends, and what stays in flight.
use mathlib.Core.List.Permᴰ
use mathlib.Core.List.{append-nil, map-append}
use scrambler.Prelude.{
  ℕ, ◌+◌, ◌≤◌, ◌<◌, ◌≡◌, refl, sym, ◌∙◌, ap, Bool, true, false, List, [], ◌++◌, map, ltb,
  if◌then◌else◌, Bool-cases, inl, inr, length, length-append, length-map, All, All-Perm,
  All-append_left, All-append_right, length-Perm, Permᴰ, arith,
}
use scrambler.PacketData.{ScheduledPacket}
use scrambler.Delay.Interfaces.{PriorityQueue, SpscQueue}
use scrambler.Delay.Ready.{IsReady, pop_ready_lem, IsSorted}
use scrambler.Delay.Queue.{
  Entry, Batch, Delayed, accept_handoff, collect, send_batch, drain_round, batch_size,
}
use scrambler.Delay.Slots.{Owned-sent, items-release_slots}
use scrambler.Delay.Laws.{IsOwned, in_flight, pending}
use scrambler.Delay.Accepted.{
  all_bytes, addresses, collect_lem, IsKeyed, packets_of, All-keyed, IsSorted-keyed, IsAccepted,
  accept_handoff-IsAccepted,
}

module _ {capacity : ℕ} (ring : SpscQueue ℕ capacity) (heap : PriorityQueue Entry (λ e. e.due))
    {A D : Type 0} where
  module _ (win_divert_send : List ℕ → A → D → Bool × D)
      (win_divert_send_ex : List ℕ → List A → D → Bool × D) where
    -- The packets `ps` are those that a round sends, in one call of the driver, none if there is
    -- none to send.
    pub record IsRound (now : ℕ) (d : Delayed ring heap A D) (ps : List (ScheduledPacket A))
        (d' : Delayed ring heap A D) : Type 0 where
      pub owned : IsOwned ring heap d'
      pub conserved : Permᴰ (pending ring heap d) (ps ++ pending ring heap d')
      pub sorted : IsSorted (λ p. p.release_at) ps
      pub due : All (λ p. p.release_at ≤ now) ps
      pub within : length ps ≤ batch_size
      pub rest_waits : length ps < batch_size → All (λ p. now < p.release_at) (pending ring heap d')
      pub call : d'.divert ≡ (
          if ltb 0 (length ps)
          then (win_divert_send_ex (all_bytes ps) (addresses ps) d.divert).1
          else d.divert)
      pub sent :
          d'.packets_reinjected + d'.reinject_failures
          ≡ d.packets_reinjected + d.reinject_failures + length ps
      pub exhausted : d'.pool_exhausted ≡ d.pool_exhausted

    module _ (now : ℕ) (d a : Delayed ring heap A D) (acc : IsAccepted ring heap d a)
        (es : List Entry) (t : heap.Queue)
        (ready : IsReady heap now batch_size a.scheduled_packets es t)
        (d' : Delayed ring heap A D) where
      abbrev ps : List (ScheduledPacket A)
      ps = packets_of a.memory_pool es

      length-ps : length ps ≡ length es
      length-ps =
          length-map a.memory_pool (map (λ (e : Entry). e.slot) es)
          ∙ length-map (λ (e : Entry). e.slot) es

      flights :
          Permᴰ (in_flight ring heap d) (map (λ e. e.slot) es ++ map (λ e. e.slot) (heap.items t))
      flights =
          let moved = Permᴰ.map (λ (e : Entry). e.slot) ready.same in
          Permᴰ.trans (Permᴰ.symm acc.same)
            (rw (acc.drained, ← map-append (λ (e : Entry). e.slot) es (heap.items t)) moved)

      kept : Permᴰ (pending ring heap d) (ps ++ packets_of a.memory_pool (heap.items t))
      kept =
          let slot = λ (e : Entry). e.slot in
          rw (← map-append a.memory_pool (map slot es) (map slot (heap.items t)), ← acc.same_memory)
            (Permᴰ.map a.memory_pool flights)

      es-IsKeyed : IsKeyed a.memory_pool es
      es-IsKeyed = All-append_left _ es (heap.items t) (All-Perm _ ready.same acc.owned.keyed)

      rest-IsKeyed : IsKeyed a.memory_pool (heap.items t)
      rest-IsKeyed = All-append_right _ es (heap.items t) (All-Perm _ ready.same acc.owned.keyed)

      IsRound-of_parts :
          ring.items d'.free_queue ≡ ring.items a.free_queue ++ map (λ e. e.slot) es
          → d'.handoff_queue ≡ a.handoff_queue
          → d'.scheduled_packets ≡ t
          → d'.memory_pool ≡ a.memory_pool
          → d'.divert ≡ (
              if ltb 0 (length ps)
              then (win_divert_send_ex (all_bytes ps) (addresses ps) d.divert).1
              else d.divert)
          → d'.packets_reinjected + d'.reinject_failures
            ≡ d.packets_reinjected + d.reinject_failures + length ps
          → d'.pool_exhausted ≡ a.pool_exhausted
          → IsRound now d ps d'
      IsRound-of_parts free handoff rest memory call sent exhausted = record {
        owned =
            rw (memory, free, handoff, rest)
              (Owned-sent capacity a.memory_pool (ring.items a.free_queue)
                (ring.items a.handoff_queue) (heap.items a.scheduled_packets) es (heap.items t)
                acc.owned ready.same);
        conserved = rw (memory, handoff, acc.drained, rest) kept;
        sorted = IsSorted-keyed a.memory_pool es es-IsKeyed ready.sorted;
        due = All-keyed (λ t. t ≤ now) a.memory_pool es es-IsKeyed ready.due;
        within = omega (arith, length-ps, ready.within);
        rest_waits = λ fewer.
            rw (memory, handoff, acc.drained, rest)
              (All-keyed (λ t. now < t) a.memory_pool (heap.items t) rest-IsKeyed
                (ready.rest_waits (omega (arith, length-ps))));
        call = call;
        sent = sent;
        exhausted = exhausted ∙ acc.same_exhausted;
      }

    -- A round leaves every slot in one place. It sends, in one call, the packets in flight that
    -- are due, in order of release and 128 of them at most, and keeps all the others; below that
    -- number all that it keeps must still wait. What it sends is counted, as sent or as failed.
    -- It reports no work only if it sent nothing.
    pub drain_round_lem :
        (now : ℕ) (d : Delayed ring heap A D)
        → IsOwned ring heap d
        → (ps : List (ScheduledPacket A)) × IsRound now d ps
            (drain_round ring heap win_divert_send win_divert_send_ex now d).1
          × ((drain_round ring heap win_divert_send win_divert_send_ex now d).0 ≡ false → ps ≡ [])
    unfolding drain_round
    drain_round_lem now d o =
        let a = accept_handoff ring heap (length (ring.items d.handoff_queue)) d in
        let acc =
          accept_handoff-IsAccepted ring heap (length (ring.items d.handoff_queue)) d (omega arith)
            o in
        let empty : Batch A = record { send_buf = []; send_addrs = []; ready_packets = [] } in
        let (es, t, e, ready) =
          pop_ready_lem heap (collect a.memory_pool) now batch_size a.scheduled_packets empty in
        let slots = map (λ (x : Entry). x.slot) es in
        let packets = packets_of a.memory_pool es in
        let batch : Batch A = record {
          send_buf = all_bytes packets;
          send_addrs = addresses packets;
          ready_packets = slots;
        } in
        let popped : Delayed ring heap A D = record a { scheduled_packets = t } in
        let e' = e ∙ ap (λ (b : Batch A). (length es, t, b)) (collect_lem a.memory_pool es empty) in
        let parts = IsRound-of_parts now d a acc es t ready in
        let count = length-ps now d a acc es t ready d in
        let room : length (ring.items a.free_queue) + length slots ≤ capacity = omega (
          arith,
          acc.owned.all_there,
          length-Perm ready.same,
          length-append es (heap.items t),
          length-map (λ (x : Entry). x.slot) es,
        ) in
        elim (Bool-cases (ltb 0 (length es))) [
          | inl some_due ↦
              let last =
                send_batch ring heap win_divert_send win_divert_send_ex batch (length es) popped in
              let run : drain_round ring heap win_divert_send win_divert_send_ex now d
                  ≡ (true, last) =
                unfold drain_round in rw (e', some_due) refl in
              rw run (
                packets,
                unfold send_batch in
                    parts last (items-release_slots ring slots a.free_queue room) refl refl refl
                      (ground (arith, count, acc.same_divert))
                      (ground (arith, count, acc.same_failures, acc.same_sent)) refl,
                λ idle. cc,
              )
          | inr none_due ↦
              let gone : es ≡ [] = ground arith in
              rw (e', none_due, drain_round)
                (
                  packets,
                  parts popped (rw gone (sym (append-nil (ring.items a.free_queue)))) refl refl refl
                      (ground (arith, count, acc.same_divert))
                      (ground (arith, count, acc.same_failures, acc.same_sent)) refl,
                  λ idle. rw gone refl,
                )
        ]
