-- ===== src/Delay/Calls.antt =====
-- The delay queue over a whole life: any calls, in any order, from the constructor on.
use mathlib.Core.List.Permᴰ
use mathlib.Core.List.{append_assoc, append-nil}
use scrambler.Prelude.{
  ℕ, suc, ◌+◌, ◌≡◌, refl, ◌∙◌, ap, inl, inr, Bool, true, false, List, [], ◌∷◌, ◌++◌, foldl, length,
  ltb, if◌then◌else◌, Option-cases, Permᴰ, arith,
}
use scrambler.PacketData.{ScheduledPacket}
use scrambler.Delay.Interfaces.{PriorityQueue, SpscQueue}
use scrambler.Delay.Queue.{Entry, Delayed, new_queue, push, drain_round, start, stop}
use scrambler.Delay.Slots.{items-push_slots, length-numbers_from, count-numbers_from}
use scrambler.Delay.Laws.{IsOwned, pending, push_lem}
use scrambler.Delay.Accepted.{all_bytes, addresses}
use scrambler.Delay.Rounds.{drain_round_lem}
use scrambler.Delay.Flush.{stop_lem, sent_each}

-- `Push`, a round of `DrainLoop` at a time, `Start` or `Stop`.
pub data Call (A : Type 0) : Type 0 where
  pushes : ScheduledPacket A → Call A
  rounds : ℕ → Call A
  starts stops : Call A

-- How a step of the account is put together.
accept_one :
    {P : Type 0} (p : P) (accepted before after rest : List P)
    → Permᴰ after (p ∷ before)
    → Permᴰ (accepted ++ after) rest
    → Permᴰ (p ∷ (accepted ++ before)) rest
accept_one p accepted before after rest joined all =
    Permᴰ.trans (Permᴰ.symm (Permᴰ.middle p accepted before))
      (Permᴰ.trans (Permᴰ.append_left accepted (Permᴰ.symm joined)) all)

send_some :
    {P : Type 0} (ps accepted before after sent rest : List P)
    → Permᴰ before (ps ++ after)
    → Permᴰ (accepted ++ after) (sent ++ rest)
    → Permᴰ (accepted ++ before) ((ps ++ sent) ++ rest)
send_some ps accepted before after sent rest split all = rw (append_assoc ps sent rest) (
    Permᴰ.trans (Permᴰ.append_left accepted split) (
      Permᴰ.trans {l₂ = (ps ++ accepted) ++ after}
        (rw (← append_assoc accepted ps after)
          (Permᴰ.append_right after (Permᴰ.append_comm accepted ps)))
        (rw (append_assoc ps accepted after) (Permᴰ.append_left ps all))))

module _ {capacity : ℕ} (ring : SpscQueue ℕ capacity) (heap : PriorityQueue Entry (λ e. e.due))
    {A D : Type 0} (win_divert_send : List ℕ → A → D → Bool × D)
    (win_divert_send_ex : List ℕ → List A → D → Bool × D) where
  pub new_queue_lem :
      (memory : ℕ → ScheduledPacket A) (handle : D)
      → let d : Delayed ring heap A D = new_queue ring heap memory handle in
        IsOwned ring heap d × (pending ring heap d ≡ []) × (d.pool_exhausted ≡ 0)
  unfolding new_queue
  new_queue_lem memory handle =
      let free =
        items-push_slots ring capacity 0 ring.empty (omega (arith, ap length ring.items-empty)) in
      rw (free, ring.items-empty, heap.items-empty)
        (
          record {
            once = λ a. ground (arith, count-numbers_from ring a 0 capacity);
            all_there = omega (arith, length-numbers_from ring 0 capacity);
            keyed = tt;
          },
          refl,
          refl,
        )

  unfoldable pub call : Delayed ring heap A D → Call A → Delayed ring heap A D
  call d (pushes p) = push ring heap p d
  call d (rounds now) = (drain_round ring heap win_divert_send win_divert_send_ex now d).1
  call d starts = start ring heap win_divert_send win_divert_send_ex d
  call d stops = stop ring heap win_divert_send win_divert_send_ex d

  abbrev pub pushed : List (Call A) → ℕ
  pushed [] = 0
  pushed (pushes p ∷ cs) = suc (pushed cs)
  pushed (rounds now ∷ cs) = pushed cs
  pushed (starts ∷ cs) = pushed cs
  pushed (stops ∷ cs) = pushed cs

  -- The packets that were pushed while a slot was free.
  pub accepted : Delayed ring heap A D → List (Call A) → List (ScheduledPacket A)
  accepted d [] = []
  accepted d (pushes p ∷ cs) =
      let rest = accepted (call d (pushes p)) cs in
      if ltb (length (pending ring heap d)) capacity then p ∷ rest else rest
  accepted d (rounds now ∷ cs) = accepted (call d (rounds now)) cs
  accepted d (starts ∷ cs) = accepted (call d starts) cs
  accepted d (stops ∷ cs) = accepted (call d stops) cs

  push_divert :
      (d : Delayed ring heap A D) (p : ScheduledPacket A) → (push ring heap p d).divert ≡ d.divert
  unfolding push
  push_divert d p = elim (Option-cases (ring.front d.free_queue)) [
    | inl none_free ↦ rw (none_free, push) refl
    | inr (slot, first) ↦ rw (first, push) refl
  ]

  -- What the driver is given in one go: a round's packets in one call, or packets one by one.
  pub data Handed : Type 0 where
    in_one_call one_by_one : List (ScheduledPacket A) → Handed

  abbrev pub packets_in : List Handed → List (ScheduledPacket A)
  packets_in [] = []
  packets_in (in_one_call ps ∷ hs) = ps ++ packets_in hs
  packets_in (one_by_one ps ∷ hs) = ps ++ packets_in hs

  -- The driver after all that it is given.
  abbrev pub driver_after : D → List Handed → D
  driver_after h [] = h
  driver_after h (in_one_call ps ∷ hs) =
      driver_after
        (if ltb 0 (length ps) then (win_divert_send_ex (all_bytes ps) (addresses ps) h).1 else h) hs
  driver_after h (one_by_one ps ∷ hs) =
      driver_after (sent_each ring heap win_divert_send win_divert_send_ex h ps) hs

  pub record IsAccounted (d : Delayed ring heap A D) (cs : List (Call A)) (hs : List Handed)
      (d' : Delayed ring heap A D) : Type 0 where
    pub owned : IsOwned ring heap d'
    pub all : Permᴰ (accepted d cs ++ pending ring heap d) (packets_in hs ++ pending ring heap d')
    pub refused : length (accepted d cs) + d'.pool_exhausted ≡ pushed cs + d.pool_exhausted
    pub driver : d'.divert ≡ driver_after d.divert hs

  calls_account :
      (d : Delayed ring heap A D) (cs : List (Call A))
      → IsOwned ring heap d
      → (hs : List Handed) × IsAccounted d cs hs (foldl call d cs)
  unfolding call accepted start push
  calls_account d [] o =
      ([], record { owned = o; all = Permᴰ.refl _; refused = refl; driver = refl })
  calls_account d (pushes p ∷ cs) o =
      let (owned, outcome) = push_lem ring heap p d o in
      let (hs, rest) = calls_account (push ring heap p d) cs owned in
      let driver = rest.driver ∙ ap (λ h. driver_after h hs) (push_divert d p) in
      elim outcome [
        | inl (full, same, counted) ↦
            let no : ltb (length (pending ring heap d)) capacity ≡ false = ground arith in
            (
              hs,
              record {
                owned = rest.owned;
                all = rw no (rw same at rest.all);
                refused = rw no (omega (arith, rest.refused, counted));
                driver = driver;
              },
            )
        | inr (room, joined, counted) ↦
            let fits : ltb (length (pending ring heap d)) capacity ≡ true = ground arith in
            (
              hs,
              record {
                owned = rest.owned;
                all = rw fits (accept_one p _ _ _ _ joined rest.all);
                refused = rw fits (omega (arith, rest.refused, counted));
                driver = driver;
              },
            )
      ]
  calls_account d (rounds now ∷ cs) o =
      let (ps, round, idle) =
        drain_round_lem ring heap win_divert_send win_divert_send_ex now d o in
      let (hs, rest) = calls_account (call d (rounds now)) cs round.owned in
      (
        in_one_call ps ∷ hs,
        record {
          owned = rest.owned;
          all = send_some ps _ _ _ (packets_in hs) _ round.conserved rest.all;
          refused = omega (arith, rest.refused, round.exhausted);
          driver = rest.driver ∙ ap (λ h. driver_after h hs) round.call;
        },
      )
  calls_account d (starts ∷ cs) o =
      let (hs, rest) = calls_account (call d starts) cs o in
      (
        hs,
        record { owned = rest.owned; all = rest.all; refused = rest.refused; driver = rest.driver },
      )
  calls_account d (stops ∷ cs) o =
      let (ps, flushed, calls, none_left, free, owned, exhausted, _, _) =
        stop_lem ring heap win_divert_send win_divert_send_ex d o in
      let (hs, rest) = calls_account (call d stops) cs owned in
      (
        one_by_one ps ∷ hs,
        record {
          owned = rest.owned;
          all =
              send_some ps (accepted d (stops ∷ cs)) (pending ring heap d)
                (pending ring heap (call d stops)) (packets_in hs) _
                (rw none_left (rw append-nil flushed)) rest.all;
          refused = omega (arith, rest.refused, exhausted);
          driver = rest.driver ∙ ap (λ h. driver_after h hs) calls;
        },
      )

  -- Nothing is lost and nothing is made up. After any calls on a new queue, the packets that were
  -- accepted (pushed while fewer than `capacity` were in flight) are those that the driver was
  -- given together with those still in flight, each as often, and the driver is in the state that
  -- just these calls leave it in; every push that was not accepted was counted as an exhausted
  -- pool; and every slot of the pool has one owner.
  pub calls_conserve :
      (memory : ℕ → ScheduledPacket A) (handle : D) (cs : List (Call A))
      → let d = new_queue ring heap memory handle in
        let d' = foldl call d cs in
        (hs : List Handed) × Permᴰ (accepted d cs) (packets_in hs ++ pending ring heap d')
        × (d'.divert ≡ driver_after handle hs)
        × (length (accepted d cs) + d'.pool_exhausted ≡ pushed cs)
        × IsOwned ring heap d'
  unfolding new_queue
  calls_conserve memory handle cs =
      let (owned, none_left, none_refused) = new_queue_lem memory handle in
      let (hs, account) = calls_account (new_queue ring heap memory handle) cs owned in
      (
        hs,
        rw (none_left, append-nil) at account.all,
        account.driver,
        omega (arith, account.refused, none_refused),
        account.owned,
      )
