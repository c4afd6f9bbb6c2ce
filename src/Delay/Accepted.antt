-- ===== src/Delay/Accepted.antt =====
-- What a round of `DrainLoop` collects, and how it first empties the handoff queue.
use mathlib.Core.List.Permᴰ
use mathlib.Core.List.{append_assoc, append-nil}
use scrambler.Prelude.{
  ℕ, zero, suc, ◌≤◌, ◌≡◌, refl, ◌∙◌, ap, subst, List, [], ◌∷◌, ◌++◌, map, foldl, inl, inr,
  Option-cases, length, All, Permᴰ, arith,
}
use scrambler.PacketData.{ScheduledPacket, bytes}
use scrambler.Delay.Interfaces.{PriorityQueue, SpscQueue}
use scrambler.Delay.Ready.{IsSorted}
use scrambler.Delay.Queue.{Entry, Batch, Delayed, accept_handoff, collect}
use scrambler.Delay.Slots.{Owned-accept}
use scrambler.Delay.Laws.{IsOwned, in_flight}

-- What the three arrays hold after the callback has seen packets in order.
abbrev pub all_bytes : {A : Type 0} → List (ScheduledPacket A) → List ℕ
all_bytes [] = []
all_bytes (p ∷ ps) = bytes p.packet ++ all_bytes ps

abbrev pub addresses : {A : Type 0} → List (ScheduledPacket A) → List A
addresses = map (λ p. p.packet.addr)

pub collect_lem :
    {A : Type 0} (memory : ℕ → ScheduledPacket A) (es : List Entry) (b : Batch A)
    → let packets = map memory (map (λ e. e.slot) es) in
      foldl (λ st e. collect memory e st) b es ≡ record {
        send_buf = b.send_buf ++ all_bytes packets;
        send_addrs = b.send_addrs ++ addresses packets;
        ready_packets = b.ready_packets ++ map (λ e. e.slot) es;
      }
unfolding collect
collect_lem memory [] b = simp append-nil
collect_lem memory (e ∷ es) b = collect_lem memory es (collect memory e b) ∙ simp append_assoc

-- The cached release times are those of the packets that the pointers name.
abbrev pub IsKeyed : {A : Type 0} → (ℕ → ScheduledPacket A) → List Entry → Type 0
IsKeyed memory = All (λ e. e.due ≡ (memory e.slot).release_at)

abbrev pub packets_of :
    {A : Type 0} → (ℕ → ScheduledPacket A) → List Entry → List (ScheduledPacket A)
packets_of memory es = map memory (map (λ e. e.slot) es)

pub All-keyed :
    {A : Type 0} (P : ℕ → Type 0) (memory : ℕ → ScheduledPacket A) (es : List Entry)
    → IsKeyed memory es
    → All (λ e. P e.due) es
    → All (λ p. P p.release_at) (packets_of memory es)
All-keyed P memory [] k h = tt
All-keyed P memory (e ∷ es) k h = (subst P k.0 h.0, All-keyed P memory es k.1 h.1)

pub IsSorted-keyed :
    {A : Type 0} (memory : ℕ → ScheduledPacket A) (es : List Entry)
    → IsKeyed memory es
    → IsSorted (λ e. e.due) es
    → IsSorted (λ p. p.release_at) (packets_of memory es)
IsSorted-keyed memory [] k h = tt
IsSorted-keyed memory (e ∷ es) k h = (
  subst (λ due. All (λ p. due ≤ p.release_at) (packets_of memory es)) k.0
      (All-keyed (λ t. e.due ≤ t) memory es k.1 h.0),
  IsSorted-keyed memory es k.1 h.1,
)

module _ {capacity : ℕ} (ring : SpscQueue ℕ capacity) (heap : PriorityQueue Entry (λ e. e.due))
    {A D : Type 0} where
  -- The round first moves all of the handoff queue to the priority queue.
  pub record IsAccepted (d d' : Delayed ring heap A D) : Type 0 where
    pub owned : IsOwned ring heap d'
    pub drained : ring.items d'.handoff_queue ≡ []
    pub same : Permᴰ (in_flight ring heap d') (in_flight ring heap d)
    pub same_memory : d'.memory_pool ≡ d.memory_pool
    pub same_divert : d'.divert ≡ d.divert
    pub same_failures : d'.reinject_failures ≡ d.reinject_failures
    pub same_sent : d'.packets_reinjected ≡ d.packets_reinjected
    pub same_exhausted : d'.pool_exhausted ≡ d.pool_exhausted

  pub accept_handoff-IsAccepted :
      (fuel : ℕ) (d : Delayed ring heap A D)
      → length (ring.items d.handoff_queue) ≤ fuel
      → IsOwned ring heap d
      → IsAccepted d (accept_handoff ring heap fuel d)
  unfolding accept_handoff
  accept_handoff-IsAccepted zero d enough o = record {
    owned = o;
    drained = ground arith;
    same = Permᴰ.refl _;
    same_memory = refl;
    same_divert = refl;
    same_failures = refl;
    same_sent = refl;
    same_exhausted = refl;
  }
  accept_handoff-IsAccepted (suc fuel) d enough o =
      elim (Option-cases (ring.front d.handoff_queue)) [
        | inl none_left ↦
            rw (none_left, accept_handoff)
              (record {
                owned = o;
                drained = ring.front-none _ none_left;
                same = Permᴰ.refl _;
                same_memory = refl;
                same_divert = refl;
                same_failures = refl;
                same_sent = refl;
                same_exhausted = refl;
              })
        | inr (slot, first) ↦
            let e : Entry = record { slot = slot; due = (d.memory_pool slot).release_at } in
            let pushed = heap.items-push e d.scheduled_packets in
            let split = ring.front-some d.handoff_queue slot first in
            let d₁ : Delayed ring heap A D = record d {
              scheduled_packets = heap.push e d.scheduled_packets;
              handoff_queue = ring.pop d.handoff_queue;
            } in
            let owned₁ =
              Owned-accept capacity d.memory_pool slot (ring.items d.free_queue)
                (ring.items (ring.pop d.handoff_queue)) (heap.items d.scheduled_packets)
                (heap.items d₁.scheduled_packets) (rw split at o) pushed in
            let rest = accept_handoff-IsAccepted fuel d₁ (omega (arith, ap length split)) owned₁ in
            let moved =
              Permᴰ.trans
                (Permᴰ.append_left (ring.items (ring.pop d.handoff_queue))
                  (Permᴰ.map (λ (x : Entry). x.slot) pushed))
                (Permᴰ.middle slot (ring.items (ring.pop d.handoff_queue))
                  (map (λ (x : Entry). x.slot) (heap.items d.scheduled_packets))) in
            rw (first, accept_handoff)
              (record {
                owned = rest.owned;
                drained = rest.drained;
                same = Permᴰ.trans rest.same (rw split moved);
                same_memory = rest.same_memory;
                same_divert = rest.same_divert;
                same_failures = rest.same_failures;
                same_sent = rest.same_sent;
                same_exhausted = rest.same_exhausted;
              })
      ]
