-- ===== src/Diagnostics.antt =====
-- `Diagnostics` of include/core/Diagnostics.h and src/core/Diagnostics.cpp: the ring of log
-- entries, the counters, and the rate limit. The message and the sink's type are parameters.
use scrambler.Prelude.{
  ℕ, zero, suc, ◌+◌, ◌-◌, ◌%◌, ◌^◌, ◌≤◌, ◌<◌, ◌≡◌, refl, ◌⊎◌, inl, inr, Bool, true, false, ◌||◌,
  Option, none, some, List, [], ◌∷◌, ◌++◌, foldl, ltb, leb, ◌==◌, if◌then◌else◌, Bool-cases, length,
  drop, min, max, All, length-append, arith,
}
pub mod Since
pub mod Calls
pub mod Limited
pub mod Parts
mod Tests

pub data LogLevel : Type 0 where
  info warn error fatal : LogLevel

pub data Counter : Type 0 where
  packets_captured_outbound packets_captured_inbound packets_reinjected packets_dropped_outbound
        packets_dropped_inbound packets_delayed_outbound packets_delayed_inbound
        packets_duplicated_outbound packets_duplicated_inbound pool_exhausted packets_oversized
        reinject_failures parse_failures flow_cache_hits flow_cache_kernel_scans driver_errors :
      Counter

-- `std::to_underlying`
unfoldable pub to_underlying : Counter → ℕ
to_underlying packets_captured_outbound = 0
to_underlying packets_captured_inbound = 1
to_underlying packets_reinjected = 2
to_underlying packets_dropped_outbound = 3
to_underlying packets_dropped_inbound = 4
to_underlying packets_delayed_outbound = 5
to_underlying packets_delayed_inbound = 6
to_underlying packets_duplicated_outbound = 7
to_underlying packets_duplicated_inbound = 8
to_underlying pool_exhausted = 9
to_underlying packets_oversized = 10
to_underlying reinject_failures = 11
to_underlying parse_failures = 12
to_underlying flow_cache_hits = 13
to_underlying flow_cache_kernel_scans = 14
to_underlying driver_errors = 15

pub record LogEntry (S : Type 0) : Type 0 where
  pub seq : ℕ
  pub when : ℕ
  pub level : LogLevel
  pub message : S

abbrev pub ring_capacity : ℕ
ring_capacity = 1024

pub record Diagnostics (S K : Type 0) : Type 0 where
  pub counters : ℕ → ℕ
  pub next_seq : ℕ
  pub ring : List (LogEntry S)
  pub sink : Option K

module _ {S K : Type 0} where
  unfoldable pub new_diagnostics : Diagnostics S K
  new_diagnostics = record { counters = λ i. 0; next_seq = 1; ring = []; sink = none }

  unfoldable pub increment : Counter → ℕ → Diagnostics S K → Diagnostics S K
  increment c n d = record d {
    counters = λ i. if i == to_underlying c then (d.counters i + n) % 2 ^ 64 else d.counters i;
  }

  unfoldable pub get : Diagnostics S K → Counter → ℕ
  get d c = d.counters (to_underlying c)

  unfoldable pub reset_counters : Diagnostics S K → Diagnostics S K
  reset_counters d = record d { counters = λ i. 0 }

  -- The call of the sink, if there is one.
  unfoldable pub log :
      (when : ℕ) → LogLevel → S → Diagnostics S K → Option (K × LogEntry S) × Diagnostics S K
  log now level text d =
      let entry : LogEntry S = record {
        seq = d.next_seq;
        when = now;
        level = level;
        message = text;
      } in
      let room = if leb ring_capacity (length d.ring) then drop 1 d.ring else d.ring in
      (
        elim d.sink [ none ↦ none | some k ↦ some (k, entry) ],
        record d { next_seq = d.next_seq + 1; ring = room ++ entry ∷ [] },
      )

  unfoldable pub snapshot : Diagnostics S K → (max_entries : ℕ) → List (LogEntry S)
  snapshot d max_entries = drop (length d.ring - min max_entries (length d.ring)) d.ring

  unfoldable pub set_sink : Option K → Diagnostics S K → Diagnostics S K
  set_sink k d = record d { sink = k }

-- One round of the loop of `SnapshotSince`, which walks from the newest entry backwards: what it
-- has put out so far, in the order after the final reversal, and if it has left the loop.
unfoldable pub walk_entry :
    {S : Type 0}
    → (since_seq max_entries : ℕ) → LogEntry S
    → List (LogEntry S) × Bool
    → List (LogEntry S) × Bool
walk_entry since_seq max_entries e (out, true) = (out, true)
walk_entry since_seq max_entries e (out, false) =
    if leb e.seq since_seq then (out, true) else (e ∷ out, leb max_entries (length (e ∷ out)))

unfoldable pub walk :
    {S : Type 0} → (since_seq max_entries : ℕ) → List (LogEntry S) → List (LogEntry S) × Bool
unfolding walk_entry
walk since_seq max_entries [] = ([], false)
walk since_seq max_entries (e ∷ es) =
    walk_entry since_seq max_entries e (walk since_seq max_entries es)

unfoldable pub snapshot_since :
    {S K : Type 0} → Diagnostics S K → (since_seq max_entries : ℕ) → List (LogEntry S)
unfolding walk
snapshot_since d since_seq max_entries = (walk since_seq max_entries d.ring).0

-- `LogRateLimited`: if the site logs, and its counter after.
unfoldable pub log_rate_limited : (site_counter : ℕ) → Bool × ℕ
log_rate_limited site_counter = let n = (site_counter + 1) % 2 ^ 64 in (leb n 5 || n % 1000 == 0, n)
