-- ===== src/Delay/Slots.antt =====
-- Who owns a slot of the pool: at any time exactly one of the free queue, the handoff queue and
-- the priority queue. So no ring ever overflows, and no packet in flight is overwritten.
use scrambler.Prelude.{
  ℕ, zero, suc, ◌+◌, ◌≤◌, ◌≡◌, refl, sym, ◌∙◌, ap, List, [], ◌∷◌, ◌++◌, map, ltb, leb, ◌&&◌,
  if◌then◌else◌, length, All, All-Perm, All-append_right, length-Perm, length-append, length-map,
  count, count-append, count-Perm, Permᴰ, arith,
}
use mathlib.Core.List.Permᴰ
use mathlib.Core.List.{map-append, append-nil, append_assoc}
use scrambler.PacketData.{ScheduledPacket}
use scrambler.Delay.Interfaces.{SpscQueue}
use scrambler.Delay.Queue.{Entry, store, push_slots, release_slots}

module _ {A : Type 0} (capacity : ℕ) where
  -- Over the contents of the three containers.
  pub record Owned (memory : ℕ → ScheduledPacket A) (free handoff : List ℕ) (scheduled : List Entry)
      : Type 0 where
    pub once :
        (a : ℕ)
        → count a free + (count a handoff + count a (map (λ e. e.slot) scheduled))
          ≡ (if ltb a capacity then 1 else 0)
    pub all_there : length free + (length handoff + length scheduled) ≡ capacity
    pub keyed : All (λ e. e.due ≡ (memory e.slot).release_at) scheduled

  -- A slot that a list of entries does not name may be written.
  keyed_store :
      (memory : ℕ → ScheduledPacket A) (slot : ℕ) (packet : ScheduledPacket A)
      (scheduled : List Entry)
      → count slot (map (λ e. e.slot) scheduled) ≡ 0
      → All (λ e. e.due ≡ (memory e.slot).release_at) scheduled
      → All (λ e. e.due ≡ (store memory slot packet e.slot).release_at) scheduled
  keyed_store memory slot packet [] gone h = tt
  keyed_store memory slot packet (e ∷ es) gone h =
      (ground (arith, h.0), keyed_store memory slot packet es (omega arith) h.1)

  -- `Push`: from the free queue to the handoff queue.
  pub Owned-push :
      (memory : ℕ → ScheduledPacket A) (slot : ℕ) (free handoff : List ℕ) (scheduled : List Entry)
      (packet : ScheduledPacket A)
      → Owned memory (slot ∷ free) handoff scheduled
      → Owned (store memory slot packet) free (handoff ++ slot ∷ []) scheduled
  Owned-push memory slot free handoff scheduled packet o = record {
    once = λ a. omega (arith, o.once a, count-append a handoff (slot ∷ []));
    all_there = omega (arith, o.all_there, length-append handoff (slot ∷ []));
    keyed = keyed_store memory slot packet scheduled (ground (arith, o.once slot)) o.keyed;
  }

  -- A round accepts a slot: from the handoff queue to the priority queue.
  pub Owned-accept :
      (memory : ℕ → ScheduledPacket A) (slot : ℕ) (free handoff : List ℕ)
      (scheduled scheduled' : List Entry)
      → Owned memory free (slot ∷ handoff) scheduled
      → Permᴰ scheduled' (record { slot = slot; due = (memory slot).release_at } ∷ scheduled)
      → Owned memory free handoff scheduled'
  Owned-accept memory slot free handoff scheduled scheduled' o p = record {
    once = λ a. omega (arith, o.once a, count-Perm (λ (e : Entry). e.slot) a p);
    all_there = omega (arith, o.all_there, length-Perm p);
    keyed = All-Perm _ (Permᴰ.symm p) (refl, o.keyed);
  }

  -- `FlushPackets` frees a slot of the handoff queue.
  pub Owned-flush :
      (memory : ℕ → ScheduledPacket A) (slot : ℕ) (free handoff : List ℕ) (scheduled : List Entry)
      → Owned memory free (slot ∷ handoff) scheduled
      → Owned memory (free ++ slot ∷ []) handoff scheduled
  Owned-flush memory slot free handoff scheduled o = record {
    once = λ a. omega (arith, o.once a, count-append a free (slot ∷ []));
    all_there = omega (arith, o.all_there, length-append free (slot ∷ []));
    keyed = o.keyed;
  }

  -- The order in the priority queue is of no account.
  pub Owned-Perm :
      (memory : ℕ → ScheduledPacket A) (free handoff : List ℕ) (scheduled es : List Entry)
      → Owned memory free handoff scheduled
      → Permᴰ scheduled es
      → Owned memory free handoff es
  Owned-Perm memory free handoff scheduled es o p = record {
    once = λ a. omega (arith, o.once a, count-Perm (λ (e : Entry). e.slot) a p);
    all_there = omega (arith, o.all_there, length-Perm p);
    keyed = All-Perm _ p o.keyed;
  }

  -- Packets that were sent give their slots back.
  pub Owned-sent :
      (memory : ℕ → ScheduledPacket A) (free handoff : List ℕ) (scheduled ps rest : List Entry)
      → Owned memory free handoff scheduled
      → Permᴰ scheduled (ps ++ rest)
      → Owned memory (free ++ map (λ e. e.slot) ps) handoff rest
  Owned-sent memory free handoff scheduled ps rest o p =
      let slot = λ (e : Entry). e.slot in
      record {
        once = λ a. omega (
          arith,
          o.once a,
          count-append a free (map slot ps),
          count-Perm slot a p,
          count-append a (map slot ps) (map slot rest),
          ap (count a) (map-append slot ps rest),
        );
        all_there = omega (
          arith,
          o.all_there,
          length-append free (map slot ps),
          length-map slot ps,
          length-Perm p,
          length-append ps rest,
        );
        keyed = All-append_right _ ps rest (All-Perm _ p o.keyed);
      }

module _ {capacity : ℕ} (ring : SpscQueue ℕ capacity) where
  pub items-release_slots :
      (slots : List ℕ) (q : ring.Queue)
      → length (ring.items q) + length slots ≤ capacity
      → ring.items (release_slots ring slots q) ≡ ring.items q ++ slots
  unfolding release_slots
  items-release_slots [] q fits = sym (append-nil (ring.items q))
  items-release_slots (slot ∷ slots) q fits =
      let here = ring.items-push slot q (omega arith) in
      items-release_slots slots (ring.push slot q)
        (omega (arith, ap length here, length-append (ring.items q) (slot ∷ [])))
      ∙ rw here (append_assoc (ring.items q) (slot ∷ []) slots)

  abbrev pub numbers_from : (next count : ℕ) → List ℕ
  numbers_from next zero = []
  numbers_from next (suc count) = next ∷ numbers_from (next + 1) count

  pub items-push_slots :
      (count next : ℕ) (q : ring.Queue)
      → length (ring.items q) + count ≤ capacity
      → ring.items (push_slots ring count next q) ≡ ring.items q ++ numbers_from next count
  unfolding push_slots
  items-push_slots zero next q fits = sym (append-nil (ring.items q))
  items-push_slots (suc count) next q fits =
      let here = ring.items-push next q (omega arith) in
      items-push_slots count (next + 1) (ring.push next q)
        (omega (arith, ap length here, length-append (ring.items q) (next ∷ [])))
      ∙ rw here (append_assoc (ring.items q) (next ∷ []) _)

  pub length-numbers_from : (next count : ℕ) → length (numbers_from next count) ≡ count
  length-numbers_from next zero = refl
  length-numbers_from next (suc count) = omega (arith, length-numbers_from (next + 1) count)

  pub count-numbers_from :
      (a next n : ℕ)
      → count a (numbers_from next n) ≡ (if leb next a && ltb a (next + n) then 1 else 0)
  count-numbers_from a next zero = ground arith
  count-numbers_from a next (suc n) = ground (arith, count-numbers_from a (next + 1) n)
