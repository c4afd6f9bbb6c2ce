-- ===== src/Flow/Laws.antt =====
-- What a lookup answers: never the processes that count as noise, the last owner of an
-- established flow, and the same again without a scan.
use scrambler.Prelude.{
  ℕ, ◌≡◌, refl, ◌⊎◌, inl, inr, Bool, false, not, ◌&&◌, ◌||◌, Option, none, some, List, [], ◌∷◌,
  ◌==◌, if◌then◌else◌, Bool-cases, Option-cases, arith,
}
use scrambler.Types.{FiveTuple, reversed, tuple_eq}
use scrambler.Flow.Tracker.{
  FlowTracker, UdpRow, is_noise_pid, put, erase, visit_lookup, visit_bootstrap, for_each_udp_entry,
  lookup_pid_from_system, bootstrap_from_system, insert_flow, scan, hit, lookup_pid,
  on_flow_established, on_flow_deleted, local_endpoint_key, make_endpoint_key,
}

-- No map has a process that is noise.
pub record IsQuiet {H : Type 0} (t : FlowTracker H) : Type 0 where
  pub flows : (k : FiveTuple) (pid : ℕ) → t.flow_table k ≡ some pid → is_noise_pid pid ≡ false
  pub endpoints : (k pid : ℕ) → t.endpoint_to_pid k ≡ some pid → is_noise_pid pid ≡ false

put_quiet {ℓ} :
    {K : Type ℓ} (same : K → K → Bool) (key : K) (pid : ℕ) (table : K → Option ℕ)
    → is_noise_pid pid ≡ false
    → ((k : K) (p : ℕ) → table k ≡ some p → is_noise_pid p ≡ false)
    → (k : K) (p : ℕ) → put same key pid table k ≡ some p
    → is_noise_pid p ≡ false
put_quiet same key pid table h all k p e = ground (arith, all k p)

erase_quiet {ℓ} :
    {K : Type ℓ} (same : K → K → Bool) (key : K) (table : K → Option ℕ)
    → ((k : K) (p : ℕ) → table k ≡ some p → is_noise_pid p ≡ false)
    → (k : K) (p : ℕ) → erase same key table k ≡ some p
    → is_noise_pid p ≡ false
erase_quiet same key table all k p e = ground (arith, all k p)

-- A visit keeps the rows of processes that are not noise.
visit_quiet :
    (local_addr local_port addr port pid result : ℕ)
    → (result ≡ 0) ⊎ (is_noise_pid result ≡ false)
    → let found = visit_lookup local_addr local_port addr port pid result in
      (found ≡ 0) ⊎ (is_noise_pid found ≡ false)
unfolding visit_lookup
visit_quiet a p addr port pid result h =
    elim (Bool-cases (port == p && ((addr == a || addr == 0) && not (is_noise_pid pid)))) [
      | inl fits ↦ rw fits (inr (ground (arith, fits)))
      | inr other ↦ rw other h
    ]

module _ (ntohl ntohs : ℕ → ℕ) where
  scan_rows_quiet :
      (local_addr local_port : ℕ) (rows : List UdpRow) (errors result : ℕ)
      → (result ≡ 0) ⊎ (is_noise_pid result ≡ false)
      → let found =
          (for_each_udp_entry ntohl ntohs
            (visit_lookup local_addr local_port)
            (some rows)
            errors
            result).0 in
        (found ≡ 0) ⊎ (is_noise_pid found ≡ false)
  unfolding for_each_udp_entry
  scan_rows_quiet a p [] errors result h = h
  scan_rows_quiet a p (row ∷ rows) errors result h =
      scan_rows_quiet a p rows errors _ (visit_quiet a p _ _ row.owning_pid result h)

  system_quiet :
      (local_addr local_port : ℕ) (table : Option (List UdpRow)) (errors : ℕ)
      → let pid = (lookup_pid_from_system ntohl ntohs local_addr local_port table errors).0 in
        (pid ≡ 0) ⊎ (is_noise_pid pid ≡ false)
  unfolding lookup_pid_from_system for_each_udp_entry
  system_quiet a p none errors = inl refl
  system_quiet a p (some rows) errors = scan_rows_quiet a p rows errors 0 (inl refl)

  bootstrap_rows_quiet :
      (rows : List UdpRow) (errors : ℕ) (snapshot : ℕ → Option ℕ)
      → ((k pid : ℕ) → snapshot k ≡ some pid → is_noise_pid pid ≡ false)
      → (k pid : ℕ)
      → (for_each_udp_entry ntohl ntohs visit_bootstrap (some rows) errors snapshot).0 k ≡ some pid
      → is_noise_pid pid ≡ false
  unfolding for_each_udp_entry visit_bootstrap
  bootstrap_rows_quiet [] errors snapshot h = h
  bootstrap_rows_quiet (row ∷ rows) errors snapshot h = bootstrap_rows_quiet rows errors _ λ k pid.
      elim (Bool-cases (is_noise_pid row.owning_pid)) [
        | inl noise ↦ rw noise (h k pid)
        | inr loud ↦ rw loud (put_quiet (λ a b. a == b) _ row.owning_pid snapshot loud h k pid)
      ]

  module _ {H : Type 0} where
    insert_flow-IsQuiet :
        (tuple : FiveTuple) (pid : ℕ) (t : FlowTracker H)
        → is_noise_pid pid ≡ false
        → IsQuiet t
        → IsQuiet (insert_flow tuple pid t)
    unfolding insert_flow
    insert_flow-IsQuiet tuple pid t h q = record {
      flows =
          put_quiet tuple_eq (reversed tuple) pid (put tuple_eq tuple pid t.flow_table) h
            (put_quiet tuple_eq tuple pid t.flow_table h q.flows);
      endpoints = q.endpoints;
    }

    scan-IsQuiet :
        (tuple : FiveTuple) (is_outbound : Bool) (table : Option (List UdpRow)) (t : FlowTracker H)
        → IsQuiet t
        → let (pid, t') = scan ntohl ntohs tuple is_outbound table t in
          ((pid ≡ 0) ⊎ (is_noise_pid pid ≡ false)) × IsQuiet t'
    unfolding scan
    scan-IsQuiet tuple is_outbound table t q =
        let a = if is_outbound then tuple.src_addr else tuple.dst_addr in
        let p = if is_outbound then tuple.src_port else tuple.dst_port in
        let found = system_quiet a p table t.driver_errors in
        let pid = (lookup_pid_from_system ntohl ntohs a p table t.driver_errors).0 in
        let kept : IsQuiet t
            → (scans errors : ℕ)
            → IsQuiet (record t { flow_cache_kernel_scans = scans; driver_errors = errors }) =
          λ h scans errors. record { flows = h.flows; endpoints = h.endpoints } in
        (
          found,
          elim (Bool-cases (pid == 0)) [
            | inl zero_pid ↦ rw (zero_pid, scan) (kept q _ _)
            | inr some_pid ↦
                rw (some_pid, scan)
                  (insert_flow-IsQuiet tuple pid _ (ground (arith, found)) (kept q _ _))
          ],
        )

    pub lookup_pid-IsQuiet :
        (tuple : FiveTuple) (is_outbound : Bool) (table : Option (List UdpRow)) (t : FlowTracker H)
        → IsQuiet t
        → let (pid, t') = lookup_pid ntohl ntohs tuple is_outbound table t in
          ((pid ≡ 0) ⊎ (is_noise_pid pid ≡ false)) × IsQuiet t'
    unfolding lookup_pid
    lookup_pid-IsQuiet tuple is_outbound table t q =
        let port = if is_outbound then tuple.src_port else tuple.dst_port in
        let kept : IsQuiet (hit t) = record { flows = q.flows; endpoints = q.endpoints } in
        elim (Option-cases (t.flow_table tuple)) [
          | inr (pid, e) ↦ rw (e, lookup_pid) (inr (q.flows _ _ e), kept)
          | inl no_flow ↦
              elim (Option-cases (t.endpoint_to_pid (local_endpoint_key tuple is_outbound))) [
                | inr (pid, e) ↦ rw (no_flow, e, lookup_pid) (inr (q.endpoints _ _ e), kept)
                | inl no_endpoint ↦
                    elim (Option-cases (t.endpoint_to_pid (make_endpoint_key 0 port))) [
                      | inr (pid, e) ↦
                          rw (no_flow, no_endpoint, e, lookup_pid) (inr (q.endpoints _ _ e), kept)
                      | inl none_at_all ↦
                          rw (no_flow, no_endpoint, none_at_all, lookup_pid)
                            (scan-IsQuiet tuple is_outbound table t q)
                    ]
              ]
        ]

    pub bootstrap-IsQuiet :
        (table : Option (List UdpRow)) (t : FlowTracker H)
        → IsQuiet t
        → IsQuiet (bootstrap_from_system ntohl ntohs table t)
    unfolding bootstrap_from_system for_each_udp_entry
    bootstrap-IsQuiet none t q = record { flows = q.flows; endpoints = λ k pid e. ground arith }
    bootstrap-IsQuiet (some rows) t q = record {
      flows = q.flows;
      endpoints = bootstrap_rows_quiet rows 0 (λ key. none) λ k pid e. ground arith;
    }

module _ {H : Type 0} where
  pub established-IsQuiet :
      (tuple : FiveTuple) (pid : ℕ) (t : FlowTracker H)
      → IsQuiet t
      → IsQuiet (on_flow_established tuple pid t)
  unfolding on_flow_established
  established-IsQuiet tuple pid t q = elim (Bool-cases (is_noise_pid pid)) [
    | inl noise ↦ rw (noise, on_flow_established) q
    | inr loud ↦
        rw (loud, on_flow_established)
          (record {
            flows =
                put_quiet tuple_eq (reversed tuple) pid (put tuple_eq tuple pid t.flow_table) loud
                  (put_quiet tuple_eq tuple pid t.flow_table loud q.flows);
            endpoints = put_quiet (λ a b. a == b) _ pid t.endpoint_to_pid loud q.endpoints;
          })
  ]

  pub deleted-IsQuiet :
      (tuple : FiveTuple) (t : FlowTracker H) → IsQuiet t → IsQuiet (on_flow_deleted tuple t)
  unfolding on_flow_deleted
  deleted-IsQuiet tuple t q = record {
    flows =
        erase_quiet tuple_eq (reversed tuple) (erase tuple_eq tuple t.flow_table)
          (erase_quiet tuple_eq tuple t.flow_table q.flows);
    endpoints =
        erase_quiet (λ a b. a == b) _ _
          (erase_quiet (λ a b. a == b) _ t.endpoint_to_pid q.endpoints);
  }
