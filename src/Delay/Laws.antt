-- ===== src/Delay/Laws.antt =====
-- The methods of `DelayQueue` keep every slot in one place, and the packets in flight are those
-- pushed and not yet sent.
use mathlib.Core.List.Permᴰ
use mathlib.Core.List.{append_assoc}
use scrambler.Prelude.{
  ℕ, ◌+◌, ◌<◌, ◌≡◌, refl, ap, ◌⊎◌, inl, inr, List, [], ◌∷◌, ◌++◌, map, ==_refl, Option-cases,
  length, length-append, length-map, count, count-append, Permᴰ, arith,
}
use scrambler.PacketData.{ScheduledPacket}
use scrambler.Delay.Interfaces.{PriorityQueue, SpscQueue}
use scrambler.Delay.Queue.{Entry, store, Delayed, push}
use scrambler.Delay.Slots.{Owned, Owned-push}

map-store :
    {A : Type 0} (memory : ℕ → A) (slot : ℕ) (v : A) (slots : List ℕ)
    → count slot slots ≡ 0
    → map (store memory slot v) slots ≡ map memory slots
map-store memory slot v [] h = refl
map-store memory slot v (x ∷ xs) h = ground (arith, map-store memory slot v xs (omega arith))

-- A slot that is not in flight may be written, and then handed over.
pending_handed :
    {A : Type 0} (memory : ℕ → ScheduledPacket A) (slot : ℕ) (packet : ScheduledPacket A)
    (handoff scheduled : List ℕ)
    → count slot handoff + count slot scheduled ≡ 0
    → Permᴰ
        (map (store memory slot packet) ((handoff ++ slot ∷ []) ++ scheduled))
        (packet ∷ map memory (handoff ++ scheduled))
pending_handed memory slot packet handoff scheduled unused =
    let memory' = store memory slot packet in
    rw (append_assoc handoff (slot ∷ []) scheduled) (
      Permᴰ.trans (Permᴰ.map memory' (Permᴰ.middle slot handoff scheduled)) (
        Permᴰ.cons (ground (arith, ==_refl slot)) (
          rw
            (map-store memory slot packet (handoff ++ scheduled)
              (omega (arith, count-append slot handoff scheduled)))
            (Permᴰ.refl _))))

module _ {capacity : ℕ} (ring : SpscQueue ℕ capacity)
    (heap : PriorityQueue Entry (λ e. e.due)) where
  module _ {A D : Type 0} where
    abbrev pub IsOwned : Delayed ring heap A D → Type 0
    IsOwned d =
        Owned capacity d.memory_pool (ring.items d.free_queue) (ring.items d.handoff_queue)
          (heap.items d.scheduled_packets)

    -- The slots in flight, and the packets in them.
    abbrev pub in_flight : Delayed ring heap A D → List ℕ
    in_flight d = ring.items d.handoff_queue ++ map (λ e. e.slot) (heap.items d.scheduled_packets)

    abbrev pub pending : Delayed ring heap A D → List (ScheduledPacket A)
    pending d = map d.memory_pool (in_flight d)

    pub length-pending :
        (d : Delayed ring heap A D)
        → length (pending d)
          ≡ length (ring.items d.handoff_queue) + length (heap.items d.scheduled_packets)
    length-pending d =
        let slots = map (λ (e : Entry). e.slot) (heap.items d.scheduled_packets) in
        omega (
          arith,
          length-map d.memory_pool (in_flight d),
          length-append (ring.items d.handoff_queue) slots,
          length-map (λ (e : Entry). e.slot) (heap.items d.scheduled_packets),
        )

    -- A packet is refused exactly when all slots are in flight; then it is counted and nothing else
    -- happens. Otherwise it joins the packets in flight, which stay as they are.
    pub push_lem :
        (packet : ScheduledPacket A) (d : Delayed ring heap A D)
        → IsOwned d
        → let d' = push ring heap packet d in
          IsOwned d'
          × (((length (pending d) ≡ capacity)
                × (pending d' ≡ pending d)
                × (d'.pool_exhausted ≡ d.pool_exhausted + 1))
              ⊎ ((length (pending d) < capacity)
                  × Permᴰ (pending d') (packet ∷ pending d)
                  × (d'.pool_exhausted ≡ d.pool_exhausted)))
    push_lem packet d o = elim (Option-cases (ring.front d.free_queue)) [
      | inl full ↦
          let e : push ring heap packet d ≡ record d { pool_exhausted = d.pool_exhausted + 1 } =
            unfold push in rw (full, push) refl in
          rw e (
            o,
            inl (
              omega (arith, length-pending d, o.all_there, ap length (ring.front-none _ full)),
              refl,
              refl,
            ),
          )
      | inr (slot, first) ↦
          let e : push ring heap packet d ≡ record d {
            free_queue = ring.pop d.free_queue;
            memory_pool = store d.memory_pool slot packet;
            handoff_queue = ring.push slot d.handoff_queue;
          } =
            unfold push in rw (first, push) refl in
          let split = ring.front-some d.free_queue slot first in
          let owned = rw split at o in
          let room : length (ring.items d.handoff_queue) < capacity =
            omega (arith, owned.all_there) in
          rw (e, ring.items-push slot d.handoff_queue room)
            (
              Owned-push capacity d.memory_pool slot (ring.items (ring.pop d.free_queue))
                  (ring.items d.handoff_queue) (heap.items d.scheduled_packets) packet owned,
              inr (
                omega (arith, length-pending d, owned.all_there),
                pending_handed d.memory_pool slot packet (ring.items d.handoff_queue) _
                    (ground (arith, owned.once slot)),
                refl,
              ),
            )
    ]
