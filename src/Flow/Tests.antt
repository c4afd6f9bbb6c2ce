-- ===== src/Flow/Tests.antt =====
-- The flow tracker at concrete inputs, with codes of Windows and one row of the system's table.
use scrambler.Prelude.{
  ℕ, ◌+◌, ◌≤◌, ◌<◌, ◌≡◌, ◌≢◌, refl, ◌⊎◌, true, false, Option, none, some, List, [], ◌∷◌, ◌++◌, map,
  foldl, length, suc, arith,
}
use scrambler.Types.{FiveTuple, reversed, tuple_eq}
use scrambler.Samples.{codes, same, sample_tuple}
use scrambler.Flow.Tracker.{FlowTracker, UdpRow, is_noise_pid, new_tracker, lookup_pid, hit}
use scrambler.Flow.Loop.{failed, fatal, tracking_loop}
use scrambler.Flow.Calls.{TrackerCall, establishes, deletes, starts, call, lookup_pid_not_noise}
use scrambler.Flow.Memory.{lookup_again}
use scrambler.Flow.Interleaved
use scrambler.Flow.Interleaved.{
  FlowEvent, on_event, find_cached, keep_found, scan_system, lookup_during, lookup_during_others,
  lookup_during_overtakes,
}
use scrambler.Flow.Endings.{IsTransient, transient_failures}

abbrev tracker : FlowTracker ℕ
tracker = new_tracker

abbrev table : Option (List UdpRow)
table = some (record { local_addr = 0; local_port = 5000; owning_pid = 42 } ∷ [])

abbrev life : List (TrackerCall ℕ)
life = starts (some 1) 0 table ∷ establishes sample_tuple 43 ∷ deletes sample_tuple ∷ []

found : (lookup_pid same same sample_tuple true table tracker).0 ≡ 42
unfolding lookup_pid new_tracker
found = refl

lookup_pid_not_noise_example :
    let pid =
      (lookup_pid same same sample_tuple true table
        (foldl (call same same codes) tracker life)).0 in
    (pid ≡ 0) ⊎ (is_noise_pid pid ≡ false)
lookup_pid_not_noise_example = lookup_pid_not_noise same same codes life sample_tuple true table

found_some : (lookup_pid same same sample_tuple true table tracker).0 ≢ 0
found_some e = ground (arith, found)

lookup_again_example :
    let (pid, t') = lookup_pid same same sample_tuple true table tracker in
    lookup_pid same same sample_tuple true none t' ≡ (pid, hit t')
lookup_again_example = lookup_again same same sample_tuple true table none tracker found_some

abbrev other_tuple : FiveTuple
other_tuple = record sample_tuple { src_port = 5001 }

other_flow : (other_tuple ≢ sample_tuple) × (other_tuple ≢ reversed sample_tuple)
unfolding reversed
other_flow = ground arith

-- While 42 is found, the flow is given to the process 43, and another flow is deleted.
abbrev handed_over : List FlowEvent
handed_over =
    Interleaved.deletes other_tuple
    ∷ Interleaved.deletes sample_tuple
    ∷ Interleaved.establishes sample_tuple 43
    ∷ []

found_by_scan : (lookup_during same same handed_over sample_tuple true table tracker).0 ≢ 0
unfolding lookup_during find_cached new_tracker scan_system
found_by_scan e = ground arith

nothing_cached : find_cached sample_tuple true tracker ≡ none
unfolding find_cached new_tracker
nothing_cached = refl

-- The process 42 keeps the flow.
old_owner :
    (lookup_pid same same sample_tuple true none
      (lookup_during same same handed_over sample_tuple true table tracker).1).0
    ≡ 42
unfolding lookup_during lookup_pid find_cached new_tracker scan_system keep_found on_event tuple_eq
    reversed
old_owner = refl

lookup_during_overtakes_example :
    let (pid, after) = lookup_during same same handed_over sample_tuple true table tracker in
    lookup_pid same same sample_tuple true none after ≡ (pid, hit after)
lookup_during_overtakes_example =
    lookup_during_overtakes same same handed_over sample_tuple true table tracker true none
      nothing_cached found_by_scan

lookup_during_others_example :
    lookup_during same same (Interleaved.deletes other_tuple ∷ []) sample_tuple true table tracker
    ≡ (let (pid, looked_up) = lookup_pid same same sample_tuple true table tracker in
        (pid, foldl on_event looked_up (Interleaved.deletes other_tuple ∷ [])))
lookup_during_others_example =
    lookup_during_others same same (Interleaved.deletes other_tuple ∷ []) sample_tuple true table
      tracker (other_flow, tt)

transient : (IsTransient codes 1) × (IsTransient codes 2)
transient = ground arith

transient_failures_example :
    ((31 + 2 ≤ 32)
      → tracking_loop codes (map failed (1 ∷ 2 ∷ []) ++ []) 31 tracker
        ≡ tracking_loop codes []
            (31 + 2)
            (record tracker { driver_errors = tracker.driver_errors + 2 }))
    × ((32 < 31 + 2)
        → ((tracking_loop codes (map failed (1 ∷ 2 ∷ []) ++ []) 31 tracker).0 ≡ fatal)
          × (length (tracking_loop codes (map failed (1 ∷ 2 ∷ []) ++ []) 31 tracker).1.notified
              ≡ suc (length tracker.notified)))
transient_failures_example =
    transient_failures codes (1 ∷ 2 ∷ []) 31 [] tracker (transient.0, (transient.1, tt))
      (omega arith)
