-- ===== src/Flow/Calls.antt =====
-- The flow tracker over any calls and events.
use scrambler.Prelude.{
  ℕ, ◌≡◌, refl, ◌⊎◌, inl, inr, Bool, false, Option, some, List, [], ◌∷◌, foldl, Bool-cases,
  Option-cases, arith,
}
use scrambler.Types.{FiveTuple}
use scrambler.Startup.{WindowsErrors, StartupError}
use scrambler.Flow.Tracker.{
  FlowTracker, UdpRow, is_noise_pid, lookup_pid, on_flow_established, on_flow_deleted, new_tracker,
}
use scrambler.Flow.Loop.{start, stop}
use scrambler.Flow.Laws.{
  IsQuiet, lookup_pid-IsQuiet, bootstrap-IsQuiet, established-IsQuiet, deleted-IsQuiet,
}

pub data TrackerCall (H : Type 0) : Type 0 where
  establishes : FiveTuple → ℕ → TrackerCall H
  deletes : FiveTuple → TrackerCall H
  looks_up : FiveTuple → Bool → Option (List UdpRow) → TrackerCall H
  starts : Option H → ℕ → Option (List UdpRow) → TrackerCall H
  stops : TrackerCall H

module _ (ntohl ntohs : ℕ → ℕ) (codes : WindowsErrors) {H : Type 0} where
  unfoldable pub call : FlowTracker H → TrackerCall H → FlowTracker H
  call t (establishes tuple pid) = on_flow_established tuple pid t
  call t (deletes tuple) = on_flow_deleted tuple t
  call t (looks_up tuple is_outbound table) = (lookup_pid ntohl ntohs tuple is_outbound table t).1
  call t (starts opened gle table) = (start ntohl ntohs codes opened gle table t).1
  call t stops = (stop t).1

  call-IsQuiet : (t : FlowTracker H) (c : TrackerCall H) → IsQuiet t → IsQuiet (call t c)
  unfolding call start stop
  call-IsQuiet t (establishes tuple pid) q = established-IsQuiet tuple pid t q
  call-IsQuiet t (deletes tuple) q = deleted-IsQuiet tuple t q
  call-IsQuiet t (looks_up tuple is_outbound table) q =
      (lookup_pid-IsQuiet ntohl ntohs tuple is_outbound table t q).1
  call-IsQuiet t (starts opened gle table) q = elim (Bool-cases t.running) [
    | inl on ↦
        let whole : start ntohl ntohs codes opened gle table t
            ≡ (some StartupError.already_running, t) =
          unfold start in rw on refl in
        rw (whole, call) q
    | inr off ↦ elim (Option-cases opened) [
      | inl refused ↦
          rw (off, refused, call, start) (record { flows = q.flows; endpoints = q.endpoints })
      | inr (h, open_handle) ↦
          let booted =
            bootstrap-IsQuiet ntohl ntohs table (record t { handle = some h })
              (record { flows = q.flows; endpoints = q.endpoints }) in
          rw (off, open_handle, call, start)
            (record { flows = booted.flows; endpoints = booted.endpoints })
    ]
  ]
  call-IsQuiet t stops q = elim (Option-cases t.handle) [
    | inl closed ↦ rw (closed, call, stop) (record { flows = q.flows; endpoints = q.endpoints })
    | inr (h, opened) ↦
        rw (opened, call, stop) (record { flows = q.flows; endpoints = q.endpoints })
  ]

  calls-IsQuiet :
      (t : FlowTracker H) (cs : List (TrackerCall H)) → IsQuiet t → IsQuiet (foldl call t cs)
  calls-IsQuiet t [] q = q
  calls-IsQuiet t (c ∷ cs) q = calls-IsQuiet (call t c) cs (call-IsQuiet t c q)

  -- Whatever the tracker was asked and told before, and whatever the system's table holds, a
  -- lookup answers 0 for unknown, or a process that is neither 0 nor the System process.
  pub lookup_pid_not_noise :
      (cs : List (TrackerCall H)) (tuple : FiveTuple) (is_outbound : Bool)
      (table : Option (List UdpRow))
      → let pid = (lookup_pid ntohl ntohs tuple is_outbound table (foldl call new_tracker cs)).0 in
        (pid ≡ 0) ⊎ (is_noise_pid pid ≡ false)
  unfolding new_tracker
  lookup_pid_not_noise cs tuple is_outbound table =
      (lookup_pid-IsQuiet ntohl ntohs tuple is_outbound table _ (
        calls-IsQuiet new_tracker cs
          (record { flows = λ k pid e. ground arith; endpoints = λ k pid e. ground arith }))).0
