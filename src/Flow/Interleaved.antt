-- ===== src/Flow/Interleaved.antt =====
-- `LookupPid` beside the tracking thread: it releases its lock before it asks the system, and takes
-- it again to keep what it found, so the driver's events can come in between. An event changes
-- the tables under one lock.
use scrambler.Prelude.{
  ℕ, ◌+◌, ◌≡◌, ◌≢◌, refl, sym, ap, ◌∙◌, inl, inr, Bool, Bool-cases, false, Option, none, some,
  Option-cases, List, [], ◌∷◌, foldl, All, ◌==◌, if◌then◌else◌, arith,
}
use scrambler.Types.{FiveTuple, reversed, tuple_eq, tuple_eq-true, reversed-reversed}
use scrambler.Flow.Tracker.{
  FlowTracker, UdpRow, is_noise_pid, put, insert_flow, hit, lookup_pid, scan,
  lookup_pid_from_system, on_flow_established, on_flow_deleted, local_endpoint_key,
  make_endpoint_key,
}
use scrambler.Flow.Memory.{put_both, known_lookup}

-- What the driver tells the tracking thread.
pub data FlowEvent : Type 0 where
  establishes : FiveTuple → ℕ → FlowEvent
  deletes : FiveTuple → FlowEvent

abbrev pub tuple_of : FlowEvent → FiveTuple
tuple_of (establishes tuple pid) = tuple
tuple_of (deletes tuple) = tuple

module _ {H : Type 0} where
  unfoldable pub on_event : FlowTracker H → FlowEvent → FlowTracker H
  unfolding on_flow_established on_flow_deleted
  on_event t (establishes tuple pid) = on_flow_established tuple pid t
  on_event t (deletes tuple) = on_flow_deleted tuple t

  -- The part of `LookupPid` under the shared lock.
  unfoldable pub find_cached : FiveTuple → Bool → FlowTracker H → Option ℕ
  unfolding local_endpoint_key make_endpoint_key
  find_cached tuple is_outbound t = elim (t.flow_table tuple) [
    | some pid ↦ some pid
    | none ↦ elim (t.endpoint_to_pid (local_endpoint_key tuple is_outbound)) [
      | some pid ↦ some pid
      | none ↦
          t.endpoint_to_pid
            (make_endpoint_key 0 (if is_outbound then tuple.src_port else tuple.dst_port))
    ]
  ]

  -- The part under the exclusive lock.
  unfoldable pub keep_found : FiveTuple → ℕ → FlowTracker H → FlowTracker H
  unfolding insert_flow
  keep_found tuple pid t = if pid == 0 then t else insert_flow tuple pid t

module _ (ntohl ntohs : ℕ → ℕ) {H : Type 0} where
  -- The part without a lock.
  unfoldable pub scan_system :
      FiveTuple → Bool → Option (List UdpRow) → FlowTracker H → ℕ × FlowTracker H
  unfolding lookup_pid_from_system
  scan_system tuple is_outbound table t =
      let local_addr = if is_outbound then tuple.src_addr else tuple.dst_addr in
      let local_port = if is_outbound then tuple.src_port else tuple.dst_port in
      let (pid, errors) =
        lookup_pid_from_system ntohl ntohs local_addr local_port table t.driver_errors in
      (
        pid,
        record t {
          flow_cache_kernel_scans = t.flow_cache_kernel_scans + 1;
          driver_errors = errors;
        },
      )

  -- `LookupPid`, while the tracking thread handles events after the shared lock.
  unfoldable pub lookup_during :
      List FlowEvent → FiveTuple → Bool → Option (List UdpRow) → FlowTracker H → ℕ × FlowTracker H
  unfolding find_cached keep_found scan_system on_event
  lookup_during events tuple is_outbound table t = elim (find_cached tuple is_outbound t) [
    | some pid ↦ (pid, foldl on_event (hit t) events)
    | none ↦
        let (pid, scanned) = scan_system tuple is_outbound table t in
        (pid, keep_found tuple pid (foldl on_event scanned events))
  ]

  -- Without events in between it is the lookup in one piece.
  lookup_during-alone :
      (tuple : FiveTuple) (is_outbound : Bool) (table : Option (List UdpRow)) (t : FlowTracker H)
      → lookup_during [] tuple is_outbound table t
        ≡ lookup_pid ntohl ntohs tuple is_outbound table t
  unfolding lookup_during lookup_pid find_cached scan scan_system keep_found
  lookup_during-alone tuple is_outbound table t =
      let port = if is_outbound then tuple.src_port else tuple.dst_port in
      elim (Option-cases (t.flow_table tuple)) [
        | inr (pid, e) ↦ rw (e, lookup_during, find_cached, lookup_pid) refl
        | inl no_flow ↦
            elim (Option-cases (t.endpoint_to_pid (local_endpoint_key tuple is_outbound))) [
              | inr (pid, e) ↦ rw (no_flow, e, lookup_during, find_cached, lookup_pid) refl
              | inl no_endpoint ↦
                  elim (Option-cases (t.endpoint_to_pid (make_endpoint_key 0 port))) [
                    | inr (pid, e) ↦
                        rw (no_flow, no_endpoint, e, lookup_during, find_cached, lookup_pid) refl
                    | inl no_port ↦
                        rw (no_flow, no_endpoint, no_port, lookup_during, find_cached, lookup_pid)
                          refl
                  ]
            ]
      ]

-- Writes to different flows can be swapped.
abbrev write : FiveTuple → Option ℕ → (FiveTuple → Option ℕ) → FiveTuple → Option ℕ
write key v table = λ k. if tuple_eq k key then v else table k

written :
    (a b k : FiveTuple) (v w : Option ℕ) (table : FiveTuple → Option ℕ)
    → a ≢ b
    → write a v (write b w table) k ≡ write b w (write a v table) k
written a b k v w table h = elim (Bool-cases (tuple_eq k a)) [
  | inl is_a ↦ elim (Bool-cases (tuple_eq k b)) [
    | inl is_b ↦ absurd (h (sym (tuple_eq-true k a is_a) ∙ tuple_eq-true k b is_b))
    | inr not_b ↦ rw (is_a, not_b) refl
  ]
  | inr not_a ↦ rw not_a refl
]

write_swap :
    (a b : FiveTuple) (v w : Option ℕ) (table : FiveTuple → Option ℕ)
    → a ≢ b
    → write a v (write b w table) ≡ write b w (write a v table)
write_swap a b v w table h = λ i k. written a b k v w table h i

-- A flow, in both directions.
abbrev write_both : FiveTuple → Option ℕ → (FiveTuple → Option ℕ) → FiveTuple → Option ℕ
write_both tuple v table = write (reversed tuple) v (write tuple v table)

abbrev pub AreApart : FiveTuple → FiveTuple → Type 0
AreApart a b = (a ≢ b) × (a ≢ reversed b)

write_both-swap :
    (a b : FiveTuple) (v w : Option ℕ) (table : FiveTuple → Option ℕ)
    → AreApart b a
    → write_both a v (write_both b w table) ≡ write_both b w (write_both a v table)
write_both-swap a b v w table (apart, crossed) =
    let a_b : a ≢ b = λ e. apart (sym e) in
    let ra_b : reversed a ≢ b = λ e. crossed (sym e) in
    let a_rb : a ≢ reversed b = λ e. ra_b (ap reversed e ∙ reversed-reversed b) in
    let ra_rb : reversed a ≢ reversed b =
      λ e. a_b (sym (reversed-reversed a) ∙ ap reversed e ∙ reversed-reversed b) in
    ap (write (reversed a) v) (write_swap a (reversed b) v w (write b w table) a_rb)
    ∙ write_swap (reversed a) (reversed b) v w (write a v (write b w table)) ra_rb
    ∙ ap (λ t. write (reversed b) w (write (reversed a) v t)) (write_swap a b v w table a_b)
    ∙ ap (write (reversed b) w) (write_swap (reversed a) b v w (write a v table) ra_b)

module _ {H : Type 0} where
  on_event-insert_flow :
      (tuple : FiveTuple) (pid : ℕ) (t : FlowTracker H) (e : FlowEvent)
      → AreApart (tuple_of e) tuple
      → insert_flow tuple pid (on_event t e) ≡ on_event (insert_flow tuple pid t) e
  unfolding on_event insert_flow on_flow_established on_flow_deleted
  on_event-insert_flow tuple pid t (establishes other q) h = elim (Bool-cases (is_noise_pid q)) [
    | inl noise ↦ rw noise refl
    | inr loud ↦ rw loud (λ i. record t {
      flow_table = write_both-swap tuple other (some pid) (some q) t.flow_table h i;
      endpoint_to_pid =
          put (λ a b. a == b) (make_endpoint_key other.src_addr other.src_port) q t.endpoint_to_pid;
    })
  ]
  on_event-insert_flow tuple pid t (deletes other) h = λ i. record (on_flow_deleted other t) {
    flow_table = write_both-swap tuple other (some pid) none t.flow_table h i;
  }

  on_events-keep_found :
      (tuple : FiveTuple) (pid : ℕ) (t : FlowTracker H) (es : List FlowEvent)
      → All (λ e. AreApart (tuple_of e) tuple) es
      → keep_found tuple pid (foldl on_event t es) ≡ foldl on_event (keep_found tuple pid t) es
  unfolding keep_found
  on_events-keep_found tuple pid t es h = elim (Bool-cases (pid == 0)) [
    | inl no_pid ↦ rw no_pid refl
    | inr some_pid ↦ rw some_pid (inserted t es h)
  ]
    where
      inserted :
          (t : FlowTracker H) (es : List FlowEvent)
          → All (λ e. AreApart (tuple_of e) tuple) es
          → insert_flow tuple pid (foldl on_event t es)
            ≡ foldl on_event (insert_flow tuple pid t) es
      inserted t [] h = refl
      inserted t (e ∷ es) (apart, others) =
          inserted (on_event t e) es others
          ∙ ap (λ s. foldl on_event s es) (on_event-insert_flow tuple pid t e apart)

module _ (ntohl ntohs : ℕ → ℕ) {H : Type 0} (events : List FlowEvent) (tuple : FiveTuple)
    (is_outbound : Bool) (table : Option (List UdpRow)) (t : FlowTracker H) where
  cached_during :
      (pid : ℕ)
      → find_cached tuple is_outbound t ≡ some pid
      → lookup_during ntohl ntohs events tuple is_outbound table t
        ≡ (pid, foldl on_event (hit t) events)
  unfolding lookup_during
  cached_during pid e = rw (e, lookup_during) refl

  missed_during :
      find_cached tuple is_outbound t ≡ none
      → lookup_during ntohl ntohs events tuple is_outbound table t ≡ (
          let (pid, scanned) = scan_system ntohl ntohs tuple is_outbound table t in
          (pid, keep_found tuple pid (foldl on_event scanned events)))
  unfolding lookup_during
  missed_during e = rw (e, lookup_during) refl

module _ (ntohl ntohs : ℕ → ℕ) {H : Type 0} (events : List FlowEvent) (tuple : FiveTuple)
    (is_outbound : Bool) (table : Option (List UdpRow)) (t : FlowTracker H) where
  events_after :
      All (λ e. AreApart (tuple_of e) tuple) events
      → lookup_during ntohl ntohs events tuple is_outbound table t ≡ (
          let (pid, looked_up) = lookup_during ntohl ntohs [] tuple is_outbound table t in
          (pid, foldl on_event looked_up events))
  events_after h = elim (Option-cases (find_cached tuple is_outbound t)) [
    | inr (pid, e) ↦
        rw
          (
            cached_during ntohl ntohs events tuple is_outbound table t pid e,
            cached_during ntohl ntohs [] tuple is_outbound table t pid e,
          )
          refl
    | inl missed ↦
        let pid = (scan_system ntohl ntohs tuple is_outbound table t).0 in
        let scanned = (scan_system ntohl ntohs tuple is_outbound table t).1 in
        rw
          (
            missed_during ntohl ntohs events tuple is_outbound table t missed,
            missed_during ntohl ntohs [] tuple is_outbound table t missed,
          )
          (ap (λ s. (pid, s)) (on_events-keep_found tuple pid scanned events h))
  ]

  kept :
      (pid : ℕ) (s : FlowTracker H) → pid ≢ 0 → (keep_found tuple pid s).flow_table tuple ≡ some pid
  unfolding keep_found insert_flow
  kept pid s some_pid =
      let found : (pid == 0) ≡ false = ground arith in rw found (put_both tuple pid s.flow_table).0

  -- A lookup while the driver tells of any other flows, in neither direction the one that is
  -- looked up: the answer and the tracker are those of the lookup in one piece with the events
  -- after it.
  pub lookup_during_others :
      All (λ e. AreApart (tuple_of e) tuple) events
      → lookup_during ntohl ntohs events tuple is_outbound table t ≡ (
          let (pid, looked_up) = lookup_pid ntohl ntohs tuple is_outbound table t in
          (pid, foldl on_event looked_up events))
  lookup_during_others h =
      events_after h
      ∙ ap (λ (s : ℕ × FlowTracker H). (s.0, foldl on_event s.1 events))
          (lookup_during-alone ntohl ntohs tuple is_outbound table t)

  -- A lookup that misses the tables and finds a process in the system's, while the driver tells of
  -- any flows, also that the flow was deleted or is that of another process now: later lookups of
  -- the flow answer the process of the scan all the same.
  pub lookup_during_overtakes :
      (later : Bool) (table' : Option (List UdpRow))
      → find_cached tuple is_outbound t ≡ none
      → (lookup_during ntohl ntohs events tuple is_outbound table t).0 ≢ 0
      → let (pid, after) = lookup_during ntohl ntohs events tuple is_outbound table t in
        lookup_pid ntohl ntohs tuple later table' after ≡ (pid, hit after)
  lookup_during_overtakes later table' missed some_pid =
      let parts = missed_during ntohl ntohs events tuple is_outbound table t missed in
      rw parts (known_lookup ntohl ntohs tuple later table' _ _ (kept _ _ (rw parts at some_pid)))
