-- ===== src/Interceptor/Kept.antt =====
-- What of a batch goes out again when no packet of it is of a chosen process: every packet that
-- is no longer than the MTU, with its address, and the rest as it is once a packet cannot be
-- parsed.
use mathlib.Core.List.{append-nil, append_assoc}
use scrambler.Prelude.{
  ℕ, ◌+◌, ◌-◌, ◌≡◌, refl, ◌∙◌, ◌==◌, ltb, Bool-cases, inl, inr, List, [], ◌∷◌, ◌++◌, map, length,
  take, drop, if◌then◌else◌, none, some, arith,
}
use scrambler.Types.{standard_mtu_size}
use scrambler.Interceptor.Capture.{WinDivert, Turn, Capture, append_immediate_packet}
use scrambler.Interceptor.Loop.{append_rest}

-- The bytes and addresses that are kept, how many packets are too long, and whether the batch had
-- a packet that cannot be parsed, as a number.
pub record Kept (A : Type 0) : Type 0 where
  pub buffer : List ℕ
  pub addrs : List A
  pub too_long : ℕ
  pub unparsed : ℕ

abbrev pub nothing : {A : Type 0} → Kept A
nothing = record { buffer = []; addrs = []; too_long = 0; unparsed = 0 }

abbrev pub one_packet : {A : Type 0} → List ℕ → A → Kept A
one_packet packet_data addr =
    if ltb standard_mtu_size (length packet_data)
    then record nothing { too_long = 1 }
    else record nothing { buffer = packet_data; addrs = addr ∷ [] }

abbrev pub followed_by : {A : Type 0} → Kept A → Kept A → Kept A
followed_by k l = record {
  buffer = k.buffer ++ l.buffer;
  addrs = k.addrs ++ l.addrs;
  too_long = k.too_long + l.too_long;
  unparsed = k.unparsed + l.unparsed;
}

abbrev pub kept : {A D F : Type 0} → WinDivert A D → List (Turn A F) → List ℕ → Kept A
kept w [] current = nothing
kept w (t ∷ ts) current = elim (w.parse current) [
  | none ↦ record nothing { buffer = current; addrs = map (λ u. u.addr) (t ∷ ts); unparsed = 1 }
  | some found ↦
      let pkt_len = length current - found.next_len in
      let others = if found.next_len == 0 then nothing else kept w ts (drop pkt_len current) in
      followed_by (one_packet (take pkt_len current) t.addr) others
]

-- Nothing is scheduled, sent or counted as an effect.
pub record IsUnaffected {A G H Q : Type 0} (c c' : Capture A G H Q) : Type 0 where
  pub same_queue : c'.queue ≡ c.queue
  pub same_engine : c'.engine ≡ c.engine
  pub same_reinjected : c'.counts.reinjected ≡ c.counts.reinjected
  pub same_failures : c'.counts.reinject_failures ≡ c.counts.reinject_failures
  pub same_dropped : c'.counts.dropped ≡ c.counts.dropped
  pub same_delayed : c'.counts.delayed ≡ c.counts.delayed
  pub same_duplicated : c'.counts.duplicated ≡ c.counts.duplicated

-- What goes out at once has grown by what is kept, and nothing comes later for it.
pub record IsKept {A G H Q : Type 0} (k : Kept A) (c c' : Capture A G H Q) : Type 0 where
  pub unaffected : IsUnaffected c c'
  pub buf : c'.send_buf ≡ c.send_buf ++ k.buffer
  pub addresses : c'.send_addrs ≡ c.send_addrs ++ k.addrs
  pub left_out : c'.counts.oversized ≡ c.counts.oversized + k.too_long
  pub failures : c'.counts.parse_failures ≡ c.counts.parse_failures + k.unparsed

module _ {A G H Q : Type 0} where
  appended-IsUnaffected :
      (c : Capture A G H Q) (buffer : List ℕ) (addrs : List A) (oversized parse_failures : ℕ)
      → IsUnaffected c (record c {
        send_buf = buffer;
        send_addrs = addrs;
        counts = record c.counts { oversized = oversized; parse_failures = parse_failures };
      })
  appended-IsUnaffected c buffer addrs oversized parse_failures = record {
    same_queue = refl;
    same_engine = refl;
    same_reinjected = refl;
    same_failures = refl;
    same_dropped = refl;
    same_delayed = refl;
    same_duplicated = refl;
  }

  pub nothing-IsKept : (c : Capture A G H Q) → IsKept nothing c c
  nothing-IsKept c = record {
    unaffected = appended-IsUnaffected c _ _ _ _;
    buf = rw append-nil refl;
    addresses = rw append-nil refl;
    left_out = omega arith;
    failures = omega arith;
  }

  pub append_immediate-IsKept :
      (packet_data : List ℕ) (addr : A) (c : Capture A G H Q)
      → IsKept (one_packet packet_data addr) c (append_immediate_packet packet_data addr c)
  unfolding append_immediate_packet
  append_immediate-IsKept packet_data addr c =
      elim (Bool-cases (ltb standard_mtu_size (length packet_data))) [
        | inl long ↦
            rw (long, append_immediate_packet)
              (record {
                unaffected = appended-IsUnaffected c _ _ _ _;
                buf = rw append-nil refl;
                addresses = rw append-nil refl;
                left_out = refl;
                failures = omega arith;
              })
        | inr short ↦
            rw (short, append_immediate_packet)
              (record {
                unaffected = appended-IsUnaffected c _ _ _ _;
                buf = refl;
                addresses = refl;
                left_out = omega arith;
                failures = omega arith;
              })
      ]

  pub append_rest-IsKept :
      {F : Type 0} (ts : List (Turn A F)) (rest : List ℕ) (c : Capture A G H Q)
      → IsKept
          (record nothing { buffer = rest; addrs = map (λ t. t.addr) ts; unparsed = 1 })
          c
          (append_rest ts rest c)
  unfolding append_rest
  append_rest-IsKept ts rest c = record {
    unaffected = appended-IsUnaffected c _ _ _ _;
    buf = refl;
    addresses = refl;
    left_out = omega arith;
    failures = refl;
  }

  IsUnaffected-then :
      (c c₁ c₂ : Capture A G H Q) → IsUnaffected c c₁ → IsUnaffected c₁ c₂ → IsUnaffected c c₂
  IsUnaffected-then c c₁ c₂ p q = record {
    same_queue = q.same_queue ∙ p.same_queue;
    same_engine = q.same_engine ∙ p.same_engine;
    same_reinjected = q.same_reinjected ∙ p.same_reinjected;
    same_failures = q.same_failures ∙ p.same_failures;
    same_dropped = q.same_dropped ∙ p.same_dropped;
    same_delayed = q.same_delayed ∙ p.same_delayed;
    same_duplicated = q.same_duplicated ∙ p.same_duplicated;
  }

  pub IsKept-then :
      (k l : Kept A) (c c₁ c₂ : Capture A G H Q)
      → IsKept k c c₁
      → IsKept l c₁ c₂
      → IsKept (followed_by k l) c c₂
  IsKept-then k l c c₁ c₂ p q = record {
    unaffected = IsUnaffected-then c c₁ c₂ p.unaffected q.unaffected;
    buf = q.buf ∙ rw (p.buf, append_assoc c.send_buf k.buffer l.buffer) refl;
    addresses = q.addresses ∙ rw (p.addresses, append_assoc c.send_addrs k.addrs l.addrs) refl;
    left_out = omega (arith, p.left_out, q.left_out);
    failures = omega (arith, p.failures, q.failures);
  }
