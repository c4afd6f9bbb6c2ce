-- ===== src/Interceptor/Foreign.antt =====
-- A batch without a packet of a chosen process goes back to the driver, less the packets that are
-- longer than the MTU.
use scrambler.Prelude.{
  ℕ, ◌+◌, ◌-◌, ◌≡◌, refl, ◌∙◌, Bool, true, false, not, ◌&&◌, ◌==◌, ltb, none, some, Option-cases,
  Bool-cases, inl, inr, List, [], ◌∷◌, if◌then◌else◌, length, take, drop,
}
use scrambler.Types.{FiveTuple, Parsed, tuple_from_packet}
use scrambler.Rates.{Float, Random}
use scrambler.Targets.{contains}
use scrambler.Flow.Tracker.{lookup_pid}
use scrambler.Delay.Interfaces.{PriorityQueue, SpscQueue}
use scrambler.Delay.Queue.{Entry}
use scrambler.Interceptor.Capture.{WinDivert, Turn}
use scrambler.Interceptor.Kept.{
  Kept, one_packet, kept, IsKept, nothing-IsKept, append_immediate-IsKept, append_rest-IsKept,
  IsKept-then,
}
use scrambler.Interceptor.Packet.{Capturing, handle_packet, handle_udp}
use scrambler.Interceptor.Loop.{walk, begin_batch, send_batch, capture_batch}

pub if_not : {A : Type 0} (b : Bool) (x y : A) → (if b then x else y) ≡ (if not b then y else x)
if_not true x y = refl
if_not false x y = refl

-- What a batch of which some packets are kept makes of a run: one call for what is kept, if it
-- has an address.
pub record IsReturned {capacity : ℕ} (ring : SpscQueue ℕ capacity)
    (heap : PriorityQueue Entry (λ e. e.due)) {A D G H : Type 0} (w : WinDivert A D) (k : Kept A)
    (c c' : Capturing ring heap A D G H) : Type 0 where
  pub sent : c'.queue ≡ (
      if ltb 0 (length k.addrs)
      then record c.queue { divert = (w.send_ex k.buffer k.addrs c.queue.divert).1 }
      else c.queue)
  pub reinjected : c'.counts.reinjected ≡ (
      if ltb 0 (length k.addrs) && (w.send_ex k.buffer k.addrs c.queue.divert).0
      then c.counts.reinjected + length k.addrs
      else c.counts.reinjected)
  pub failed : c'.counts.reinject_failures ≡ (
      if ltb 0 (length k.addrs) && not (w.send_ex k.buffer k.addrs c.queue.divert).0
      then c.counts.reinject_failures + length k.addrs
      else c.counts.reinject_failures)
  pub left_out : c'.counts.oversized ≡ c.counts.oversized + k.too_long
  pub unparsed : c'.counts.parse_failures ≡ c.counts.parse_failures + k.unparsed
  pub same_engine : c'.engine ≡ c.engine
  pub same_dropped : c'.counts.dropped ≡ c.counts.dropped
  pub same_delayed : c'.counts.delayed ≡ c.counts.delayed
  pub same_duplicated : c'.counts.duplicated ≡ c.counts.duplicated

module _ {capacity : ℕ} (ring : SpscQueue ℕ capacity) (heap : PriorityQueue Entry (λ e. e.due))
    {A D G H : Type 0} (w : WinDivert A D) where
  -- What has been collected from an empty batch is what the call is given.
  send_batch-IsReturned :
      (k : Kept A) (c c₁ : Capturing ring heap A D G H)
      → c.send_buf ≡ []
      → c.send_addrs ≡ []
      → IsKept k c c₁
      → IsReturned ring heap w k c (send_batch ring heap w c₁)
  unfolding send_batch
  send_batch-IsReturned k c c₁ no_bytes no_addrs p =
      let buffer : c₁.send_buf ≡ k.buffer = p.buf ∙ rw no_bytes refl in
      let addrs : c₁.send_addrs ≡ k.addrs = p.addresses ∙ rw no_addrs refl in
      let u = p.unaffected in
      elim (Bool-cases (ltb 0 (length k.addrs))) [
        | inl some_address ↦
            rw (addrs, some_address, send_batch)
              (record {
                sent = rw (some_address, buffer, u.same_queue) refl;
                reinjected = rw (some_address, buffer, u.same_queue, u.same_reinjected) refl;
                failed =
                    rw (some_address, buffer, u.same_queue, u.same_failures)
                      (if_not (w.send_ex k.buffer k.addrs c.queue.divert).0
                        c.counts.reinject_failures (c.counts.reinject_failures + length k.addrs));
                left_out = p.left_out;
                unparsed = p.failures;
                same_engine = u.same_engine;
                same_dropped = u.same_dropped;
                same_delayed = u.same_delayed;
                same_duplicated = u.same_duplicated;
              })
        | inr none_left ↦
            rw (addrs, none_left, send_batch)
              (record {
                sent = rw none_left u.same_queue;
                reinjected = rw none_left u.same_reinjected;
                failed = rw none_left u.same_failures;
                left_out = p.left_out;
                unparsed = p.failures;
                same_engine = u.same_engine;
                same_dropped = u.same_dropped;
                same_delayed = u.same_delayed;
                same_duplicated = u.same_duplicated;
              })
      ]

module _ {capacity : ℕ} (ring : SpscQueue ℕ capacity) (heap : PriorityQueue Entry (λ e. e.due))
    {A D G H F : Type 0} ⦃f : Float F⦄ ⦃r : Random F G⦄ (w : WinDivert A D) where
  -- If a packet is UDP, and of a process that is chosen when its turn comes.
  abbrev pub is_chosen : Turn A F → Parsed → Capturing ring heap A D G H → Bool
  is_chosen t found c = elim found.ip [
    | none ↦ false
    | some ip ↦ elim found.udp [
      | none ↦ false
      | some udp ↦
          let tuple = tuple_from_packet w.ntohl w.ntohs ip udp in
          let pid = (lookup_pid w.ntohl w.ntohs tuple (w.is_outbound t.addr) t.table c.tracker).0 in
          not (pid == 0) && contains t.targets pid
    ]
  ]

  handle_udp-IsKept :
      (t : Turn A F) (tuple : FiveTuple) (packet_data : List ℕ) (c : Capturing ring heap A D G H)
      → let pid = (lookup_pid w.ntohl w.ntohs tuple (w.is_outbound t.addr) t.table c.tracker).0 in
        (not (pid == 0) && contains t.targets pid) ≡ false
        → IsKept (one_packet packet_data t.addr) c (handle_udp ring heap w t tuple packet_data c)
  unfolding handle_udp
  handle_udp-IsKept t tuple packet_data c other =
      let tracker = (lookup_pid w.ntohl w.ntohs tuple (w.is_outbound t.addr) t.table c.tracker).1 in
      let p = append_immediate-IsKept packet_data t.addr (record c { tracker = tracker }) in
      let u = p.unaffected in
      rw (other, handle_udp)
        (record {
          unaffected = record {
            same_queue = u.same_queue;
            same_engine = u.same_engine;
            same_reinjected = u.same_reinjected;
            same_failures = u.same_failures;
            same_dropped = u.same_dropped;
            same_delayed = u.same_delayed;
            same_duplicated = u.same_duplicated;
          };
          buf = p.buf;
          addresses = p.addresses;
          left_out = p.left_out;
          failures = p.failures;
        })

  handle_packet-IsKept :
      (t : Turn A F) (found : Parsed) (packet_data : List ℕ) (c : Capturing ring heap A D G H)
      → is_chosen t found c ≡ false
      → IsKept (one_packet packet_data t.addr) c (handle_packet ring heap w t found packet_data c)
  unfolding handle_packet handle_udp
  handle_packet-IsKept t found packet_data c other = elim (Option-cases found.ip) [
    | inl no_ip ↦ rw (no_ip, handle_packet) (append_immediate-IsKept packet_data t.addr c)
    | inr (ip, is_ip) ↦ elim (Option-cases found.udp) [
      | inl no_udp ↦
          rw (is_ip, no_udp, handle_packet) (append_immediate-IsKept packet_data t.addr c)
      | inr (udp, is_udp) ↦
          rw (is_ip, is_udp, handle_packet)
            (handle_udp-IsKept t _ packet_data c (rw (is_ip, is_udp) at other))
    ]
  ]

  -- No packet of a batch that is parsed is chosen when its turn comes. If one cannot be parsed,
  -- nothing is asked of those after it.
  abbrev pub IsForeign : List (Turn A F) → List ℕ → Capturing ring heap A D G H → Type 0
  IsForeign [] current c = Unit
  IsForeign (t ∷ ts) current c = elim (w.parse current) [
    | none ↦ Unit
    | some found ↦
        let pkt_len = length current - found.next_len in
        (is_chosen t found c ≡ false)
        × (if found.next_len == 0
            then Unit
            else IsForeign ts (drop pkt_len current)
                (handle_packet ring heap w t found (take pkt_len current) c))
  ]

  walk-IsKept :
      (ts : List (Turn A F)) (current : List ℕ) (c : Capturing ring heap A D G H)
      → IsForeign ts current c
      → IsKept (kept w ts current) c (walk ring heap w ts current c)
  unfolding walk
  walk-IsKept [] current c h = nothing-IsKept c
  walk-IsKept (t ∷ ts) current c h = elim (Option-cases (w.parse current)) [
    | inl unparsed ↦ rw (unparsed, kept, walk) (append_rest-IsKept (t ∷ ts) current c)
    | inr (found, parsed) ↦
        let n = length current - found.next_len in
        let (other, rest) = rw (parsed, IsForeign) at h in
        let handled = handle_packet ring heap w t found (take n current) c in
        let one = handle_packet-IsKept t found (take n current) c other in
        elim (Bool-cases (found.next_len == 0)) [
          | inl last ↦
              rw (parsed, last, kept, walk)
                (IsKept-then _ _ c handled handled one (nothing-IsKept handled))
          | inr more ↦
              rw (parsed, more, kept, walk)
                (IsKept-then _ _ c handled _ one
                  (walk-IsKept ts (drop n current) handled (rw more at rest)))
        ]
  ]

  pub capture_batch_foreign :
      (ts : List (Turn A F)) (received_bytes : List ℕ) (c : Capturing ring heap A D G H)
      → IsForeign ts received_bytes (begin_batch w.is_outbound ts c)
      → IsReturned ring heap w
          (kept w ts received_bytes)
          c
          (capture_batch ring heap w received_bytes ts c)
  unfolding capture_batch send_batch begin_batch
  capture_batch_foreign ts received_bytes c h =
      let began = begin_batch w.is_outbound ts c in
      let returned =
        send_batch-IsReturned ring heap w _ began _ refl refl
          (walk-IsKept ts received_bytes began h) in
      record {
        sent = returned.sent;
        reinjected = returned.reinjected;
        failed = returned.failed;
        left_out = returned.left_out;
        unparsed = returned.unparsed;
        same_engine = returned.same_engine;
        same_dropped = returned.same_dropped;
        same_delayed = returned.same_delayed;
        same_duplicated = returned.same_duplicated;
      }
