-- ===== src/Diagnostics/Calls.antt =====
-- The diagnostics after any calls.
use scrambler.Prelude.{
  ℕ, ◌≤◌, ◌≡◌, refl, ◌⊎◌, inl, inr, Option, List, [], ◌∷◌, ◌++◌, foldl, length, max, arith,
}
use scrambler.Diagnostics.{
  LogEntry, LogLevel, Counter, Diagnostics, new_diagnostics, log, increment, reset_counters,
  set_sink, snapshot_since,
}
use scrambler.Diagnostics.Since.{IsRing, log-IsRing, walk-IsWalk, Newer, Older}

pub data DiagnosticsCall (S K : Type 0) : Type 0 where
  logs : (now : ℕ) → LogLevel → S → DiagnosticsCall S K
  increments : Counter → ℕ → DiagnosticsCall S K
  resets : DiagnosticsCall S K
  sets_sink : Option K → DiagnosticsCall S K

module _ {S K : Type 0} where
  unfoldable pub call : Diagnostics S K → DiagnosticsCall S K → Diagnostics S K
  unfolding log increment reset_counters set_sink
  call d (logs now level text) = (log now level text d).1
  call d (increments c n) = increment c n d
  call d resets = reset_counters d
  call d (sets_sink k) = set_sink k d

  same_ring :
      (d d' : Diagnostics S K) → d'.ring ≡ d.ring → d'.next_seq ≡ d.next_seq → IsRing d → IsRing d'
  same_ring d d' e e' r = record {
    first = r.first;
    in_a_row = rw e r.in_a_row;
    up_to = rw (e, e') r.up_to;
    bounded = rw e r.bounded;
    whole = rw e r.whole;
  }

  pub call-IsRing : (d : Diagnostics S K) (c : DiagnosticsCall S K) → IsRing d → IsRing (call d c)
  unfolding call increment reset_counters set_sink
  call-IsRing d (logs now level text) r = log-IsRing now level text d r
  call-IsRing d (increments c n) r = same_ring d (increment c n d) refl refl r
  call-IsRing d resets r = same_ring d (reset_counters d) refl refl r
  call-IsRing d (sets_sink k) r = same_ring d (set_sink k d) refl refl r

  calls-IsRing :
      (d : Diagnostics S K) (cs : List (DiagnosticsCall S K)) → IsRing d → IsRing (foldl call d cs)
  calls-IsRing d [] r = r
  calls-IsRing d (c ∷ cs) r = calls-IsRing (call d c) cs (call-IsRing d c r)

  -- After any calls the ring holds 1024 entries at most, whose numbers are in a row and end just
  -- before the next one, and start at one unless the ring is full; and `SnapshotSince` answers the newest entries of it in order: all later
  -- than `since_seq`, at most `max_entries` of them, or one for `max_entries` zero. What it leaves
  -- out is not later than `since_seq`, unless it has answered `max_entries`.
  snapshot_since_lem :
      (cs : List (DiagnosticsCall S K)) (since_seq max_entries : ℕ)
      → let d = foldl call new_diagnostics cs in
        let out = snapshot_since d since_seq max_entries in
        IsRing d
        × ((older : List (LogEntry S)) × (d.ring ≡ older ++ out)
            × Newer since_seq out
            × (length out ≤ max 1 max_entries)
            × ((max_entries ≤ length out) ⊎ Older since_seq older))
  unfolding snapshot_since new_diagnostics
  snapshot_since_lem cs since_seq max_entries =
      let r = calls-IsRing new_diagnostics cs (record {
        first = 1;
        in_a_row = tt;
        up_to = refl;
        bounded = omega arith;
        whole = inl refl;
      }) in
      let d = foldl call new_diagnostics cs in
      let w = walk-IsWalk since_seq max_entries r.first d.ring r.in_a_row in
      (
        r,
        (
          w.older,
          w.split,
          w.newer,
          w.within,
          elim w.reason [ inl enough ↦ inl enough.0 | inr (all_older, some_older) ↦ inr all_older ],
        ),
      )
