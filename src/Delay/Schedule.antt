-- ===== src/Delay/Schedule.antt =====
-- `ScheduledPacketQueue`, over any priority queue. The callbacks change a state of the caller.
use scrambler.Prelude.{ℕ, zero, suc, ◌+◌, Bool, true, false, Option, none, some, leb, length}
use scrambler.Delay.Interfaces.{PriorityQueue}

module _ {P : Type 0} {release_at : P → ℕ} (q : PriorityQueue P release_at) where
  open q use {Queue, empty, push, top, pop, items}

  abbrev pub is_empty : Queue → Bool
  is_empty s = elim (top s) [ none ↦ true | some p ↦ false ]

  abbrev pub peek : Queue → Option P
  peek s = top s

  module _ {S : Type 0} (on_packet : P → S → S) where
    -- The loop of `PopReady`: `left` rounds remain until `popped` reaches the limit.
    unfoldable pub pop_loop : (now left popped : ℕ) → Queue → S → ℕ × Queue × S
    pop_loop now zero popped s state = (popped, s, state)
    pop_loop now (suc left) popped s state = elim (top s) [
      | none ↦ (popped, s, state)
      | some packet ↦ elim (leb (release_at packet) now) [
        | true ↦ pop_loop now left (popped + 1) (pop s) (on_packet packet state)
        | false ↦ (popped, s, state)
      ]
    ]

    unfoldable pub pop_ready : (now limit : ℕ) → Queue → S → ℕ × Queue × S
    unfolding pop_loop
    pop_ready now limit s state = pop_loop now limit 0 s state

    -- The loop of `DrainAll`, on fuel.
    unfoldable pub drain_loop : (fuel : ℕ) → Queue → S → Queue × S
    drain_loop zero s state = (s, state)
    drain_loop (suc fuel) s state = elim (top s) [
      | none ↦ (s, state)
      | some packet ↦ drain_loop fuel (pop s) (on_packet packet state)
    ]

    unfoldable pub drain_all : Queue → S → Queue × S
    unfolding drain_loop
    drain_all s state = drain_loop (length (items s)) s state
