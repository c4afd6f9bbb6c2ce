-- ===== src/Delay/Queue.antt =====
-- `DelayQueue`, method by method. The pool is a store of slots, a pointer is a slot's number, and
-- the capacity is a parameter, which the source sets to `delay_queue_capacity`. The two driver
-- calls are parameters too: each takes what it is given and the driver, and says if it succeeded.
use scrambler.Prelude.{
  ℕ, zero, suc, ◌+◌, Bool, true, false, none, some, List, [], ◌∷◌, ◌++◌, foldl, ◌==◌, ltb,
  if◌then◌else◌, length,
}
use scrambler.PacketData.{ScheduledPacket, bytes}
use scrambler.Delay.Interfaces.{PriorityQueue, SpscQueue}
use scrambler.Delay.Schedule.{pop_ready, drain_all, peek}

-- A pointer in the priority queue, with the release time of the packet that it pointed to when it
-- was pushed.
pub record Entry : Type 0 where
  pub slot : ℕ
  pub due : ℕ

abbrev pub store {ℓ} : {V : Type ℓ} → (ℕ → V) → ℕ → V → ℕ → V
store memory slot value i = if i == slot then value else memory i

abbrev pub batch_size : ℕ
batch_size = 128

-- What a round of `DrainLoop` collects to send.
pub record Batch (A : Type 0) : Type 0 where
  pub send_buf : List ℕ
  pub send_addrs : List A
  pub ready_packets : List ℕ

pub data Idle : Type 0 where
  worked sleep_one_ms yield_thread : Idle

pub record DelayQueue (A D Ring Heap : Type 0) : Type 0 where
  pub memory_pool : ℕ → ScheduledPacket A
  pub free_queue : Ring
  pub handoff_queue : Ring
  pub scheduled_packets : Heap
  pub running : Bool
  pub joinable : Bool
  pub divert : D
  pub pool_exhausted : ℕ
  pub reinject_failures : ℕ
  pub packets_reinjected : ℕ

-- The callback of `PopReady`: bytes, address and pointer go to the ends of the three arrays.
unfoldable pub collect : {A : Type 0} → (ℕ → ScheduledPacket A) → Entry → Batch A → Batch A
collect memory e batch = record {
  send_buf = batch.send_buf ++ bytes (memory e.slot).packet;
  send_addrs = batch.send_addrs ++ (memory e.slot).packet.addr ∷ [];
  ready_packets = batch.ready_packets ++ e.slot ∷ [];
}

module _ {capacity : ℕ} (ring : SpscQueue ℕ capacity) where
  -- The constructor's loop, with the number of slots to go.
  unfoldable pub push_slots : (count next : ℕ) → ring.Queue → ring.Queue
  push_slots zero next q = q
  push_slots (suc count) next q = push_slots count (next + 1) (ring.push next q)

  unfoldable pub release_slots : List ℕ → ring.Queue → ring.Queue
  release_slots slots q = foldl (λ free slot. ring.push slot free) q slots

abbrev pub Delayed :
    {capacity : ℕ} (ring : SpscQueue ℕ capacity) (heap : PriorityQueue Entry (λ e. e.due))
    → Type 0
    → Type 0
    → Type 0
Delayed ring heap A D = DelayQueue A D ring.Queue heap.Queue

module _ {A D : Type 0} {capacity : ℕ} (ring : SpscQueue ℕ capacity)
    (heap : PriorityQueue Entry (λ e. e.due)) where
  -- The constructor: every slot of the pool is free.
  unfoldable pub new_queue : (ℕ → ScheduledPacket A) → D → Delayed ring heap A D
  unfolding push_slots
  new_queue memory handle = record {
    memory_pool = memory;
    free_queue = push_slots ring capacity 0 ring.empty;
    handoff_queue = ring.empty;
    scheduled_packets = heap.empty;
    running = false;
    joinable = false;
    divert = handle;
    pool_exhausted = 0;
    reinject_failures = 0;
    packets_reinjected = 0;
  }

  unfoldable pub push : ScheduledPacket A → Delayed ring heap A D → Delayed ring heap A D
  push packet d = elim (ring.front d.free_queue) [
    | none ↦ record d { pool_exhausted = d.pool_exhausted + 1 }
    | some slot ↦ record d {
      free_queue = ring.pop d.free_queue;
      memory_pool = store d.memory_pool slot packet;
      handoff_queue = ring.push slot d.handoff_queue;
    }
  ]

  -- The loop at the head of a round of `DrainLoop`, on fuel.
  unfoldable pub accept_handoff : (fuel : ℕ) → Delayed ring heap A D → Delayed ring heap A D
  accept_handoff zero d = d
  accept_handoff (suc fuel) d = elim (ring.front d.handoff_queue) [
    | none ↦ d
    | some slot ↦ accept_handoff fuel (record d {
      scheduled_packets =
          heap.push (record { slot = slot; due = (d.memory_pool slot).release_at })
            d.scheduled_packets;
      handoff_queue = ring.pop d.handoff_queue;
    })
  ]

  module _ (win_divert_send : List ℕ → A → D → Bool × D)
      (win_divert_send_ex : List ℕ → List A → D → Bool × D) where
    unfoldable pub reinject : ScheduledPacket A → Delayed ring heap A D → Delayed ring heap A D
    reinject p d =
        let (sent, handle) = win_divert_send (bytes p.packet) p.packet.addr d.divert in
        record d {
          divert = handle;
          reinject_failures = if sent then d.reinject_failures else d.reinject_failures + 1;
        }

    -- The first loop of `FlushPackets`, on fuel.
    unfoldable pub flush_handoff : (fuel : ℕ) → Delayed ring heap A D → Delayed ring heap A D
    unfolding reinject
    flush_handoff zero d = d
    flush_handoff (suc fuel) d = elim (ring.front d.handoff_queue) [
      | none ↦ d
      | some slot ↦
          let sent = reinject (d.memory_pool slot) d in
          flush_handoff fuel (record sent {
            handoff_queue = ring.pop sent.handoff_queue;
            free_queue = ring.push slot sent.free_queue;
          })
    ]

    unfoldable pub flush_entry : Entry → Delayed ring heap A D → Delayed ring heap A D
    unfolding reinject
    flush_entry e d =
        let sent = reinject (d.memory_pool e.slot) d in
        record sent { free_queue = ring.push e.slot sent.free_queue }

    unfoldable pub flush_packets : Delayed ring heap A D → Delayed ring heap A D
    unfolding flush_handoff flush_entry
    flush_packets d =
        let handed = flush_handoff (length (ring.items d.handoff_queue)) d in
        let (rest, done) = drain_all heap flush_entry handed.scheduled_packets handed in
        record done { scheduled_packets = rest }

    -- What a round does with the packets that it collected.
    unfoldable pub send_batch : Batch A → ℕ → Delayed ring heap A D → Delayed ring heap A D
    unfolding release_slots
    send_batch batch send_count d =
        let (sent, handle) = win_divert_send_ex batch.send_buf batch.send_addrs d.divert in
        record d {
          divert = handle;
          reinject_failures =
              if sent then d.reinject_failures else d.reinject_failures + send_count;
          packets_reinjected =
              if sent then d.packets_reinjected + send_count else d.packets_reinjected;
          free_queue = release_slots ring batch.ready_packets d.free_queue;
        }

    -- One round of `DrainLoop`, up to its wait; the first part says if it did any work.
    unfoldable pub drain_round : (now : ℕ) → Delayed ring heap A D → Bool × Delayed ring heap A D
    unfolding accept_handoff collect send_batch
    drain_round now d =
        let handed : Bool = elim (ring.front d.handoff_queue) [ none ↦ false | some slot ↦ true ] in
        let accepted = accept_handoff (length (ring.items d.handoff_queue)) d in
        let (send_count, rest, batch) =
          pop_ready heap (collect accepted.memory_pool) now batch_size accepted.scheduled_packets
            (record { send_buf = []; send_addrs = []; ready_packets = [] }) in
        let popped = record accepted { scheduled_packets = rest } in
        if ltb 0 send_count then (true, send_batch batch send_count popped) else (handed, popped)

    -- How the round then waits, by a second reading of the clock.
    unfoldable pub idle_action : (did_work : Bool) (now : ℕ) → Delayed ring heap A D → Idle
    idle_action true now d = worked
    idle_action false now d = elim (peek heap d.scheduled_packets) [
      | none ↦ sleep_one_ms
      | some e ↦
          if ltb (now + 1_000_000) (d.memory_pool e.slot).release_at
          then sleep_one_ms
          else yield_thread
    ]

    unfoldable pub start : Delayed ring heap A D → Delayed ring heap A D
    start d = record d { running = true; joinable = true }

    unfoldable pub stop : Delayed ring heap A D → Delayed ring heap A D
    unfolding flush_packets
    stop d = flush_packets (record d { running = false; joinable = false })
