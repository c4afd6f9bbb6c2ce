-- ===== src/Delay/Flush.antt =====
-- `FlushPackets` and `Stop`: every packet in flight is sent, and every slot is free again.
use mathlib.Core.List.Permᴰ
use mathlib.Core.List.{map-append}
use scrambler.Prelude.{
  ℕ, zero, suc, ◌≤◌, ◌≡◌, refl, sym, ◌∙◌, ap, Bool, false, List, [], ◌∷◌, ◌++◌, map, foldl, inl,
  inr, Option-cases, length, Permᴰ, arith,
}
use scrambler.PacketData.{ScheduledPacket, bytes}
use scrambler.Delay.Interfaces.{PriorityQueue, SpscQueue}
use scrambler.Delay.Ready.{drain_all_lem}
use scrambler.Delay.Queue.{Entry, Delayed, reinject, flush_handoff, flush_entry, stop}
use scrambler.Delay.Slots.{Owned, Owned-flush, Owned-sent, Owned-Perm}
use scrambler.Delay.Laws.{IsOwned, pending}

module _ {capacity : ℕ} (ring : SpscQueue ℕ capacity) (heap : PriorityQueue Entry (λ e. e.due))
    {A D : Type 0} (win_divert_send : List ℕ → A → D → Bool × D)
    (win_divert_send_ex : List ℕ → List A → D → Bool × D) where
  -- The driver after one call for each packet, in order.
  abbrev pub sent_each : D → List (ScheduledPacket A) → D
  sent_each = foldl (λ h p. (win_divert_send (bytes p.packet) p.packet.addr h).1)

  sent_each-append :
      (h : D) (ps qs : List (ScheduledPacket A))
      → sent_each h (ps ++ qs) ≡ sent_each (sent_each h ps) qs
  sent_each-append h [] qs = refl
  sent_each-append h (p ∷ ps) qs =
      sent_each-append (win_divert_send (bytes p.packet) p.packet.addr h).1 ps qs

  record IsHanded (d : Delayed ring heap A D) (d' : Delayed ring heap A D) : Type 0 where
    owned : IsOwned ring heap d'
    drained : ring.items d'.handoff_queue ≡ []
    same_scheduled : d'.scheduled_packets ≡ d.scheduled_packets
    same_memory : d'.memory_pool ≡ d.memory_pool
    same_exhausted : d'.pool_exhausted ≡ d.pool_exhausted
    same_running : d'.running ≡ d.running
    same_joinable : d'.joinable ≡ d.joinable
    calls : d'.divert ≡ sent_each d.divert (map d.memory_pool (ring.items d.handoff_queue))

  flush_handoff-IsHanded :
      (fuel : ℕ) (d : Delayed ring heap A D)
      → length (ring.items d.handoff_queue) ≤ fuel
      → IsOwned ring heap d
      → IsHanded d (flush_handoff ring heap win_divert_send win_divert_send_ex fuel d)
  unfolding flush_handoff
  flush_handoff-IsHanded zero d enough o =
      let none_left : ring.items d.handoff_queue ≡ [] = ground arith in
      record {
        owned = o;
        drained = none_left;
        same_scheduled = refl;
        same_memory = refl;
        same_exhausted = refl;
        same_running = refl;
        same_joinable = refl;
        calls = rw none_left refl;
      }
  flush_handoff-IsHanded (suc fuel) d enough o = elim (Option-cases (ring.front d.handoff_queue)) [
    | inl none_left ↦
        let gone = ring.front-none _ none_left in
        rw (none_left, flush_handoff)
          (record {
            owned = o;
            drained = gone;
            same_scheduled = refl;
            same_memory = refl;
            same_exhausted = refl;
            same_running = refl;
            same_joinable = refl;
            calls = rw gone refl;
          })
    | inr (slot, first) ↦
        let split = ring.front-some d.handoff_queue slot first in
        let owned = rw split at o in
        let sent = reinject ring heap win_divert_send win_divert_send_ex (d.memory_pool slot) d in
        let d₁ : Delayed ring heap A D = record sent {
          handoff_queue = ring.pop sent.handoff_queue;
          free_queue = ring.push slot sent.free_queue;
        } in
        let pushed = ring.items-push slot d.free_queue (omega (arith, owned.all_there)) in
        let rest = flush_handoff-IsHanded fuel d₁ (omega (arith, ap length split)) (
          rw pushed (
            Owned-flush capacity d.memory_pool slot (ring.items d.free_queue)
              (ring.items (ring.pop d.handoff_queue)) (heap.items d.scheduled_packets) owned)) in
        rw (first, flush_handoff)
          (record {
            owned = rest.owned;
            drained = rest.drained;
            same_scheduled = rest.same_scheduled;
            same_memory = rest.same_memory;
            same_exhausted = rest.same_exhausted;
            same_running = rest.same_running;
            same_joinable = rest.same_joinable;
            calls = rw split rest.calls;
          })
  ]

  record IsFlushed (es : List Entry) (d d' : Delayed ring heap A D) : Type 0 where
    owned :
        Owned capacity d'.memory_pool (ring.items d'.free_queue) (ring.items d'.handoff_queue) []
    same_handoff : d'.handoff_queue ≡ d.handoff_queue
    same_memory : d'.memory_pool ≡ d.memory_pool
    same_exhausted : d'.pool_exhausted ≡ d.pool_exhausted
    same_running : d'.running ≡ d.running
    same_joinable : d'.joinable ≡ d.joinable
    calls : d'.divert ≡ sent_each d.divert (map d.memory_pool (map (λ e. e.slot) es))

  flush_entries-IsFlushed :
      (es : List Entry) (d : Delayed ring heap A D)
      → Owned capacity d.memory_pool (ring.items d.free_queue) (ring.items d.handoff_queue) es
      → IsFlushed es d
          (foldl (λ st e. flush_entry ring heap win_divert_send win_divert_send_ex e st) d es)
  unfolding flush_entry
  flush_entries-IsFlushed [] d o = record {
    owned = o;
    same_handoff = refl;
    same_memory = refl;
    same_exhausted = refl;
    same_running = refl;
    same_joinable = refl;
    calls = refl;
  }
  flush_entries-IsFlushed (e ∷ es) d o =
      let pushed = ring.items-push e.slot d.free_queue (omega (arith, o.all_there)) in
      let freed =
        Owned-sent capacity d.memory_pool (ring.items d.free_queue) (ring.items d.handoff_queue)
          (e ∷ es) (e ∷ []) es o (Permᴰ.refl (e ∷ es)) in
      let rest =
        flush_entries-IsFlushed es (flush_entry ring heap win_divert_send win_divert_send_ex e d)
          (rw pushed freed) in
      record {
        owned = rest.owned;
        same_handoff = rest.same_handoff;
        same_memory = rest.same_memory;
        same_exhausted = rest.same_exhausted;
        same_running = rest.same_running;
        same_joinable = rest.same_joinable;
        calls = rest.calls;
      }

  -- The two loops together send what was in flight.
  flushed_all :
      (d d₁ last : Delayed ring heap A D) (es : List Entry)
      → IsHanded d d₁
      → Permᴰ (heap.items d₁.scheduled_packets) es
      → IsFlushed es d₁ last
      → let ps =
          map d.memory_pool (ring.items d.handoff_queue)
          ++ map d.memory_pool (map (λ e. e.slot) es) in
        Permᴰ (pending ring heap d) ps
        × (last.divert ≡ sent_each d.divert ps)
        × (ring.items last.handoff_queue ≡ [])
  flushed_all d d₁ last es handed same flushed =
      let handed_over = map d.memory_pool (ring.items d.handoff_queue) in
      let slots = map (λ (x : Entry). x.slot) es in
      let scheduled = rw handed.same_scheduled at same in
      (
        rw (map-append d.memory_pool (ring.items d.handoff_queue) _) (
            Permᴰ.append_left handed_over
              (Permᴰ.map d.memory_pool (Permᴰ.map (λ (x : Entry). x.slot) scheduled))),
        flushed.calls
            ∙ rw (handed.same_memory, handed.calls)
                (sym (sent_each-append d.divert handed_over (map d.memory_pool slots))),
        ap ring.items flushed.same_handoff ∙ handed.drained,
      )

  -- `Stop` sends every packet in flight, each once and in one call for each, and then every slot
  -- is free: nothing is in flight, and the worker is gone.
  pub stop_lem :
      (d : Delayed ring heap A D)
      → IsOwned ring heap d
      → let d' = stop ring heap win_divert_send win_divert_send_ex d in
        (ps : List (ScheduledPacket A)) × Permᴰ (pending ring heap d) ps
        × (d'.divert ≡ sent_each d.divert ps)
        × (pending ring heap d' ≡ [])
        × (length (ring.items d'.free_queue) ≡ capacity)
        × IsOwned ring heap d'
        × (d'.pool_exhausted ≡ d.pool_exhausted)
        × (d'.running ≡ false)
        × (d'.joinable ≡ false)
  stop_lem d o =
      let d₀ : Delayed ring heap A D = record d { running = false; joinable = false } in
      let n = length (ring.items d.handoff_queue) in
      let d₁ = flush_handoff ring heap win_divert_send win_divert_send_ex n d₀ in
      let handed = flush_handoff-IsHanded n d₀ (omega arith) o in
      let (es, t, e, gone, same, sorted) =
        drain_all_lem heap (flush_entry ring heap win_divert_send win_divert_send_ex)
          d₁.scheduled_packets d₁ in
      let flushed = flush_entries-IsFlushed es d₁ (
        Owned-Perm capacity d₁.memory_pool _ _ (heap.items d₁.scheduled_packets) es handed.owned
          same) in
      let last : Delayed ring heap A D =
        foldl (λ st e. flush_entry ring heap win_divert_send win_divert_send_ex e st) d₁ es in
      let whole : stop ring heap win_divert_send win_divert_send_ex d
          ≡ record last { scheduled_packets = t } =
        unfold stop in
        ap (λ (r : heap.Queue × Delayed ring heap A D). record (r.1) { scheduled_packets = r.0 })
          e in
      let (sent, calls, none_handed) = flushed_all d₀ d₁ last es handed same flushed in
      rw (whole, gone)
        (
          _,
          sent,
          calls,
          rw none_handed refl,
          omega (arith, flushed.owned.all_there, ap length none_handed),
          flushed.owned,
          flushed.same_exhausted ∙ handed.same_exhausted,
          flushed.same_running ∙ handed.same_running,
          flushed.same_joinable ∙ handed.same_joinable,
        )
