-- ===== src/Delay/Tests.antt =====
-- Runs of the delay queue with two slots, and the theorems at concrete inputs.
use scrambler.Prelude.{
  ℕ, ◌+◌, ◌≡◌, refl, Bool, true, false, List, [], ◌∷◌, ◌++◌, foldl, length, Permᴰ,
}
use scrambler.PacketData.{ScheduledPacket, bytes}
use scrambler.Samples.{sample_packet}
use scrambler.Delay.Interfaces.{PriorityQueue, SpscQueue}
use scrambler.Delay.Schedule.{pop_ready, drain_all}
use scrambler.Delay.Ready.{IsReady, pop_ready_lem, drain_all_lem, IsSorted}
use scrambler.Delay.Queue.{
  Entry, Delayed, new_queue, push, push_slots, accept_handoff, drain_round, send_batch, start, stop,
  release_slots, collect,
}
use scrambler.Delay.Laws.{IsOwned, pending, push_lem}
use scrambler.Delay.Rounds.{IsRound, drain_round_lem}
use scrambler.Delay.Flush.{stop_lem, sent_each}
use scrambler.Delay.Calls.{
  Call, pushes, rounds, starts, new_queue_lem, calls_conserve, Handed, packets_in, driver_after,
  call, accepted, pushed,
}
use scrambler.Delay.Samples.{list_ring, list_heap}

abbrev entry : ℕ → ℕ → Entry
entry slot due = record { slot = slot; due = due }

abbrev entries : PriorityQueue Entry (λ e. e.due)
entries = list_heap (λ e. e.due)

abbrev ring : SpscQueue ℕ 2
ring = list_ring 2

abbrev at : ℕ → ScheduledPacket ℕ
at t = record { packet = sample_packet; release_at = t }

-- A driver that counts its calls and always succeeds.
abbrev send : List ℕ → ℕ → ℕ → Bool × ℕ
send data_bytes addr calls = (true, calls + 1)

abbrev send_ex : List ℕ → List ℕ → ℕ → Bool × ℕ
send_ex data_bytes addrs calls = (true, calls + 1)

abbrev fresh : Delayed ring entries ℕ ℕ
fresh = new_queue ring entries (λ _. at 0) 0

-- The first call pops the two entries that are due, in order.
pops_in_order :
    pop_ready entries (λ e st. st ++ e.slot ∷ []) 10 5 (entry 1 12 ∷ entry 2 9 ∷ entry 3 4 ∷ []) []
    ≡ (2, entry 1 12 ∷ [], 3 ∷ 2 ∷ [])
unfolding pop_ready
pops_in_order = refl

-- The third packet finds no free slot; a round at 7 sends the one that is due.
life : List (Call ℕ)
life = starts ∷ pushes (at 5) ∷ pushes (at 9) ∷ pushes (at 6) ∷ rounds 7 ∷ []

life_run :
    let d = foldl (call ring entries send send_ex) fresh life in
    (pending ring entries d ≡ at 9 ∷ [])
    × (d.pool_exhausted ≡ 1)
    × (d.packets_reinjected ≡ 1)
    × (d.divert ≡ 1)
    × (d.free_queue ≡ 0 ∷ [])
unfolding life call start new_queue push_slots push drain_round accept_handoff collect send_batch
    release_slots pop_ready bytes
life_run = (refl, refl, refl, refl, refl)

pop_ready_lem_example :
    let s = entry 1 12 ∷ entry 2 9 ∷ entry 3 4 ∷ [] in
    (ps : List Entry) × (t : List Entry) × (pop_ready entries (λ e st. st ++ e.slot ∷ []) 10 5 s []
      ≡ (length ps, t, foldl (λ st p. st ++ p.slot ∷ []) [] ps))
    × IsReady entries 10 5 s ps t
pop_ready_lem_example =
    pop_ready_lem entries (λ e st. st ++ e.slot ∷ []) 10 5 (entry 1 12 ∷ entry 2 9 ∷ entry 3 4 ∷ [])
      []

drain_all_lem_example :
    let s = entry 1 12 ∷ entry 2 9 ∷ [] in
    (ps : List Entry) × (t : List Entry) × (drain_all entries (λ e st. st ++ e.slot ∷ []) s []
      ≡ (t, foldl (λ st p. st ++ p.slot ∷ []) [] ps))
    × (t ≡ [])
    × Permᴰ s ps
    × IsSorted (λ e. e.due) ps
drain_all_lem_example =
    drain_all_lem entries (λ e st. st ++ e.slot ∷ []) (entry 1 12 ∷ entry 2 9 ∷ []) []

fresh-IsOwned : IsOwned ring entries fresh
fresh-IsOwned = (new_queue_lem ring entries send send_ex (λ _. at 0) 0).0

abbrev loaded : Delayed ring entries ℕ ℕ
loaded = push ring entries (at 5) fresh

loaded-IsOwned : IsOwned ring entries loaded
loaded-IsOwned = (push_lem ring entries (at 5) fresh fresh-IsOwned).0

drain_round_lem_example :
    (ps : List (ScheduledPacket ℕ)) × IsRound ring entries send send_ex 7 loaded ps
      (drain_round ring entries send send_ex 7 loaded).1
    × ((drain_round ring entries send send_ex 7 loaded).0 ≡ false → ps ≡ [])
drain_round_lem_example = drain_round_lem ring entries send send_ex 7 loaded loaded-IsOwned

stop_lem_example :
    let d' = stop ring entries send send_ex loaded in
    (ps : List (ScheduledPacket ℕ)) × Permᴰ (pending ring entries loaded) ps
    × (d'.divert ≡ sent_each ring entries send send_ex loaded.divert ps)
    × (pending ring entries d' ≡ [])
    × (length d'.free_queue ≡ 2)
    × IsOwned ring entries d'
    × (d'.pool_exhausted ≡ loaded.pool_exhausted)
    × (d'.running ≡ false)
    × (d'.joinable ≡ false)
stop_lem_example = stop_lem ring entries send send_ex loaded loaded-IsOwned

calls_conserve_example :
    let d' = foldl (call ring entries send send_ex) fresh life in
    (hs : List (Handed ring entries send send_ex)) × Permᴰ
      (accepted ring entries send send_ex fresh life)
      (packets_in ring entries send send_ex hs ++ pending ring entries d')
    × (d'.divert ≡ driver_after ring entries send send_ex 0 hs)
    × (length (accepted ring entries send send_ex fresh life) + d'.pool_exhausted
        ≡ pushed ring entries send send_ex life)
    × IsOwned ring entries d'
calls_conserve_example = calls_conserve ring entries send send_ex (λ _. at 0) 0 life
