-- ===== src/Flow/Memory.antt =====
-- What the flow tracker remembers: established flows, found flows, and what a deletion forgets.
use scrambler.Prelude.{
  ℕ, ◌≡◌, ◌≢◌, refl, inl, inr, Bool, false, Option, none, some, List, ◌==◌, if◌then◌else◌,
  Option-cases, arith,
}
use scrambler.Types.{FiveTuple, reversed, tuple_eq, tuple_eq_refl, tuple_eq-true}
use scrambler.Flow.Tracker.{
  FlowTracker, UdpRow, is_noise_pid, put, insert_flow, scan, hit, lookup_pid,
  lookup_pid_from_system, on_flow_established, on_flow_deleted, local_endpoint_key,
  make_endpoint_key,
}

pub put_both :
    (tuple : FiveTuple) (pid : ℕ) (table : FiveTuple → Option ℕ)
    → let after = put tuple_eq (reversed tuple) pid (put tuple_eq tuple pid table) in
      (after tuple ≡ some pid) × (after (reversed tuple) ≡ some pid)
put_both tuple pid table = ground (arith, tuple_eq_refl tuple, tuple_eq_refl (reversed tuple))

module _ (ntohl ntohs : ℕ → ℕ) {H : Type 0} where
  pub known_lookup :
      (tuple : FiveTuple) (is_outbound : Bool) (table : Option (List UdpRow)) (t : FlowTracker H)
      (pid : ℕ)
      → t.flow_table tuple ≡ some pid
      → lookup_pid ntohl ntohs tuple is_outbound table t ≡ (pid, hit t)
  unfolding lookup_pid
  known_lookup tuple is_outbound table t pid e = rw (e, lookup_pid) refl

  known_endpoint :
      (tuple : FiveTuple) (is_outbound : Bool) (table : Option (List UdpRow)) (t : FlowTracker H)
      (pid : ℕ)
      → t.flow_table tuple ≡ none
      → t.endpoint_to_pid (local_endpoint_key tuple is_outbound) ≡ some pid
      → lookup_pid ntohl ntohs tuple is_outbound table t ≡ (pid, hit t)
  unfolding lookup_pid
  known_endpoint tuple is_outbound table t pid e₁ e₂ = rw (e₁, e₂, lookup_pid) refl

  known_port :
      (tuple : FiveTuple) (is_outbound : Bool) (table : Option (List UdpRow)) (t : FlowTracker H)
      (pid : ℕ)
      → t.flow_table tuple ≡ none
      → t.endpoint_to_pid (local_endpoint_key tuple is_outbound) ≡ none
      → t.endpoint_to_pid
          (make_endpoint_key 0 (if is_outbound then tuple.src_port else tuple.dst_port))
        ≡ some pid
      → lookup_pid ntohl ntohs tuple is_outbound table t ≡ (pid, hit t)
  unfolding lookup_pid
  known_port tuple is_outbound table t pid e₁ e₂ e₃ = rw (e₁, e₂, e₃, lookup_pid) refl

  unknown_lookup :
      (tuple : FiveTuple) (is_outbound : Bool) (table : Option (List UdpRow)) (t : FlowTracker H)
      → t.flow_table tuple ≡ none
      → t.endpoint_to_pid (local_endpoint_key tuple is_outbound) ≡ none
      → t.endpoint_to_pid
          (make_endpoint_key 0 (if is_outbound then tuple.src_port else tuple.dst_port))
        ≡ none
      → lookup_pid ntohl ntohs tuple is_outbound table t
        ≡ scan ntohl ntohs tuple is_outbound table t
  unfolding lookup_pid
  unknown_lookup tuple is_outbound table t e₁ e₂ e₃ = rw (e₁, e₂, e₃, lookup_pid) refl

  -- A scan that finds a process keeps it for the tuple.
  scan_kept :
      (tuple : FiveTuple) (is_outbound : Bool) (table : Option (List UdpRow)) (t : FlowTracker H)
      → let (pid, t') = scan ntohl ntohs tuple is_outbound table t in
        pid ≢ 0 → t'.flow_table tuple ≡ some pid
  unfolding scan insert_flow
  scan_kept tuple is_outbound table t some_pid =
      let a = if is_outbound then tuple.src_addr else tuple.dst_addr in
      let p = if is_outbound then tuple.src_port else tuple.dst_port in
      let pid = (lookup_pid_from_system ntohl ntohs a p table t.driver_errors).0 in
      let found : (pid == 0) ≡ false = ground arith in
      rw (found, scan) (put_both tuple pid t.flow_table).0

  -- Once the driver reports a flow of a process that is not noise, a lookup of its tuple and of
  -- the reversed tuple, in either direction, finds that process without a scan, whoever had the
  -- flow before.
  established_lookup :
      (tuple : FiveTuple) (pid : ℕ) (is_outbound : Bool) (table : Option (List UdpRow))
      (t : FlowTracker H)
      → is_noise_pid pid ≡ false
      → let t' = on_flow_established tuple pid t in
        (lookup_pid ntohl ntohs tuple is_outbound table t' ≡ (pid, hit t'))
        × (lookup_pid ntohl ntohs (reversed tuple) is_outbound table t' ≡ (pid, hit t'))
  unfolding on_flow_established
  established_lookup tuple pid is_outbound table t loud =
      let both = put_both tuple pid t.flow_table in
      (
        known_lookup tuple is_outbound table (on_flow_established tuple pid t) pid
            (rw (loud, on_flow_established) both.0),
        known_lookup (reversed tuple) is_outbound table (on_flow_established tuple pid t) pid
            (rw (loud, on_flow_established) both.1),
      )

  -- A lookup that found a process is remembered: the next one of the same packet direction
  -- answers the same without a scan, whatever the system's table then holds.
  pub lookup_again :
      (tuple : FiveTuple) (is_outbound : Bool) (table table' : Option (List UdpRow))
      (t : FlowTracker H)
      → let (pid, t') = lookup_pid ntohl ntohs tuple is_outbound table t in
        pid ≢ 0 → lookup_pid ntohl ntohs tuple is_outbound table' t' ≡ (pid, hit t')
  lookup_again tuple is_outbound table table' t some_pid =
      let port = if is_outbound then tuple.src_port else tuple.dst_port in
      elim (Option-cases (t.flow_table tuple)) [
        | inr (pid, e) ↦
            rw (known_lookup tuple is_outbound table t pid e)
              (known_lookup tuple is_outbound table' (hit t) pid e)
        | inl no_flow ↦
            elim (Option-cases (t.endpoint_to_pid (local_endpoint_key tuple is_outbound))) [
              | inr (pid, e) ↦
                  rw (known_endpoint tuple is_outbound table t pid no_flow e)
                    (known_endpoint tuple is_outbound table' (hit t) pid no_flow e)
              | inl no_endpoint ↦
                  elim (Option-cases (t.endpoint_to_pid (make_endpoint_key 0 port))) [
                    | inr (pid, e) ↦
                        rw (known_port tuple is_outbound table t pid no_flow no_endpoint e)
                          (known_port tuple is_outbound table' (hit t) pid no_flow no_endpoint e)
                    | inl no_port ↦
                        let scanned =
                          unknown_lookup tuple is_outbound table t no_flow no_endpoint no_port in
                        rw scanned (
                          known_lookup tuple is_outbound table' _ _
                            (scan_kept tuple is_outbound table t (rw scanned at some_pid)))
                  ]
            ]
      ]

module _ {H : Type 0} where
  -- A deletion forgets both directions of its flow and leaves every other flow as it was.
  deleted_flows :
      (tuple other : FiveTuple) (t : FlowTracker H)
      → other ≢ tuple
      → other ≢ reversed tuple
      → let t' = on_flow_deleted tuple t in
        (t'.flow_table tuple ≡ none)
        × (t'.flow_table (reversed tuple) ≡ none)
        × (t'.flow_table other ≡ t.flow_table other)
  unfolding on_flow_deleted
  deleted_flows tuple other t h h' = ground (
    arith,
    tuple_eq_refl tuple,
    tuple_eq_refl (reversed tuple),
    tuple_eq-true other tuple,
    tuple_eq-true other (reversed tuple),
  )
