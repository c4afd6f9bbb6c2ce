-- ===== src/Flow/Tracker.antt =====
-- `FlowTracker`, method by method. The two hash maps are functions to `Option`; the driver, the
-- UDP table of the system and the byte order conversions are parameters. A log line is left out.
use scrambler.Prelude.{
  ℕ, ◌+◌, ◌*◌, ◌%◌, ◌^◌, Bool, true, false, Option, none, some, List, [], foldl, ◌==◌, ◌&&◌, ◌||◌,
  not, if◌then◌else◌, bit_or,
}
use scrambler.Types.{FiveTuple, reversed, tuple_eq, system_pid}

unfoldable pub is_noise_pid : ℕ → Bool
is_noise_pid pid = pid == 0 || pid == system_pid

unfoldable pub make_endpoint_key : ℕ → ℕ → ℕ
make_endpoint_key local_addr local_port = bit_or (local_addr * 2 ^ 16) local_port

unfoldable pub local_endpoint_key : FiveTuple → Bool → ℕ
unfolding make_endpoint_key
local_endpoint_key tuple true = make_endpoint_key tuple.src_addr tuple.src_port
local_endpoint_key tuple false = make_endpoint_key tuple.dst_addr tuple.dst_port

-- A map is its `find`.
abbrev pub put {ℓ} : {K : Type ℓ} → (K → K → Bool) → K → ℕ → (K → Option ℕ) → K → Option ℕ
put same key pid table k = if same k key then some pid else table k

abbrev pub erase {ℓ} : {K : Type ℓ} → (K → K → Bool) → K → (K → Option ℕ) → K → Option ℕ
erase same key table k = if same k key then none else table k

-- A row of the system's UDP table, in network byte order.
pub record UdpRow : Type 0 where
  pub local_addr : ℕ
  pub local_port : ℕ
  pub owning_pid : ℕ

-- The handle is `none` for INVALID_HANDLE_VALUE. The last four fields are this class's share of
-- the counters, and the codes that the fatal callback was given.
pub record FlowTracker (H : Type 0) : Type 0 where
  pub flow_table : FiveTuple → Option ℕ
  pub endpoint_to_pid : ℕ → Option ℕ
  pub running : Bool
  pub joinable : Bool
  pub handle : Option H
  pub flow_cache_hits : ℕ
  pub flow_cache_kernel_scans : ℕ
  pub driver_errors : ℕ
  pub notified : List ℕ

unfoldable pub new_tracker : {H : Type 0} → FlowTracker H
new_tracker = record {
  flow_table = λ tuple. none;
  endpoint_to_pid = λ key. none;
  running = false;
  joinable = false;
  handle = none;
  flow_cache_hits = 0;
  flow_cache_kernel_scans = 0;
  driver_errors = 0;
  notified = [];
}

unfoldable pub visit_lookup : (local_addr local_port : ℕ) → ℕ → ℕ → ℕ → ℕ → ℕ
unfolding is_noise_pid
visit_lookup local_addr local_port addr port pid result =
    if port == local_port && ((addr == local_addr || addr == 0) && not (is_noise_pid pid))
    then pid
    else result

unfoldable pub visit_bootstrap : ℕ → ℕ → ℕ → (ℕ → Option ℕ) → ℕ → Option ℕ
unfolding is_noise_pid
visit_bootstrap local_addr port pid snapshot =
    if is_noise_pid pid
    then snapshot
    else put (λ a b. a == b) (make_endpoint_key local_addr port) pid snapshot

module _ {H : Type 0} where
  unfoldable pub insert_flow : FiveTuple → ℕ → FlowTracker H → FlowTracker H
  insert_flow tuple pid t = record t {
    flow_table = put tuple_eq (reversed tuple) pid (put tuple_eq tuple pid t.flow_table);
  }

  abbrev pub hit : FlowTracker H → FlowTracker H
  hit t = record t { flow_cache_hits = t.flow_cache_hits + 1 }

  unfoldable pub on_flow_established : FiveTuple → ℕ → FlowTracker H → FlowTracker H
  unfolding is_noise_pid make_endpoint_key
  on_flow_established tuple pid t = if is_noise_pid pid then t else record t {
    flow_table = put tuple_eq (reversed tuple) pid (put tuple_eq tuple pid t.flow_table);
    endpoint_to_pid =
        put (λ a b. a == b) (make_endpoint_key tuple.src_addr tuple.src_port) pid t.endpoint_to_pid;
  }

  unfoldable pub on_flow_deleted : FiveTuple → FlowTracker H → FlowTracker H
  unfolding make_endpoint_key
  on_flow_deleted tuple t = record t {
    flow_table = erase tuple_eq (reversed tuple) (erase tuple_eq tuple t.flow_table);
    endpoint_to_pid =
        erase (λ a b. a == b) (make_endpoint_key 0 tuple.src_port)
          (erase (λ a b. a == b) (make_endpoint_key tuple.src_addr tuple.src_port)
            t.endpoint_to_pid);
  }

module _ (ntohl ntohs : ℕ → ℕ) where
  -- The walk over the table, `none` if the system refused it, and the driver errors after.
  unfoldable pub for_each_udp_entry :
      {S : Type 0} → (ℕ → ℕ → ℕ → S → S) → Option (List UdpRow) → ℕ → S → S × ℕ
  for_each_udp_entry visitor none driver_errors s = (s, driver_errors + 1)
  for_each_udp_entry visitor (some rows) driver_errors s = (
    foldl
        (λ s' row.
          visitor (ntohl row.local_addr) (ntohs (row.local_port % 2 ^ 16)) row.owning_pid s')
        s rows,
    driver_errors,
  )

  unfoldable pub lookup_pid_from_system :
      (local_addr local_port : ℕ) → Option (List UdpRow) → ℕ → ℕ × ℕ
  unfolding for_each_udp_entry visit_lookup
  lookup_pid_from_system local_addr local_port table driver_errors =
      for_each_udp_entry (visit_lookup local_addr local_port) table driver_errors 0

  unfoldable pub bootstrap_from_system :
      {H : Type 0} → Option (List UdpRow) → FlowTracker H → FlowTracker H
  unfolding for_each_udp_entry visit_bootstrap
  bootstrap_from_system table t =
      let (snapshot, errors) =
        for_each_udp_entry visit_bootstrap table t.driver_errors (λ key. none) in
      record t { endpoint_to_pid = snapshot; driver_errors = errors }

  -- What is left of a lookup when no table has the flow: the scan.
  unfoldable pub scan :
      {H : Type 0} → FiveTuple → Bool → Option (List UdpRow) → FlowTracker H → ℕ × FlowTracker H
  unfolding lookup_pid_from_system insert_flow
  scan tuple is_outbound table t =
      let local_addr = if is_outbound then tuple.src_addr else tuple.dst_addr in
      let local_port = if is_outbound then tuple.src_port else tuple.dst_port in
      let (pid, errors) = lookup_pid_from_system local_addr local_port table t.driver_errors in
      let scanned : FlowTracker _ = record t {
        flow_cache_kernel_scans = t.flow_cache_kernel_scans + 1;
        driver_errors = errors;
      } in
      (pid, if pid == 0 then scanned else insert_flow tuple pid scanned)

  unfoldable pub lookup_pid :
      {H : Type 0} → FiveTuple → Bool → Option (List UdpRow) → FlowTracker H → ℕ × FlowTracker H
  unfolding local_endpoint_key make_endpoint_key scan
  lookup_pid tuple is_outbound table t = elim (t.flow_table tuple) [
    | some pid ↦ (pid, hit t)
    | none ↦ elim (t.endpoint_to_pid (local_endpoint_key tuple is_outbound)) [
      | some pid ↦ (pid, hit t)
      | none ↦
          elim (t.endpoint_to_pid
            (make_endpoint_key 0 (if is_outbound then tuple.src_port else tuple.dst_port))) [
              | some pid ↦ (pid, hit t)
              | none ↦ scan tuple is_outbound table t
            ]
    ]
  ]
