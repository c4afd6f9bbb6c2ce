-- ===== src/Interceptor/Passed.antt =====
-- What is appended to the batch that goes out at once, with the rest left alone.
use mathlib.Core.List.{append_assoc}
use scrambler.Prelude.{ℕ, ◌≤◌, ◌≡◌, refl, ◌∙◌, ltb, false, List, [], ◌∷◌, ◌++◌, length, arith}
use scrambler.Types.{standard_mtu_size}
use scrambler.Interceptor.Capture.{Capture, append_immediate_packet}

-- What is sent at once has grown by bytes and addresses, and what comes later is as before.
pub record IsPassed {A G H Q : Type 0} (added : List ℕ) (addrs : List A) (c c' : Capture A G H Q)
    : Type 0 where
  pub buf : c'.send_buf ≡ c.send_buf ++ added
  pub addresses : c'.send_addrs ≡ c.send_addrs ++ addrs
  pub same_queue : c'.queue ≡ c.queue
  pub same_engine : c'.engine ≡ c.engine
  pub same_reinjected : c'.counts.reinjected ≡ c.counts.reinjected
  pub same_failures : c'.counts.reinject_failures ≡ c.counts.reinject_failures
  pub same_dropped : c'.counts.dropped ≡ c.counts.dropped
  pub same_delayed : c'.counts.delayed ≡ c.counts.delayed
  pub same_duplicated : c'.counts.duplicated ≡ c.counts.duplicated

pub append_immediate-IsPassed :
    {A G H Q : Type 0} (packet_data : List ℕ) (addr : A) (c : Capture A G H Q)
    → length packet_data ≤ standard_mtu_size
    → IsPassed packet_data (addr ∷ []) c (append_immediate_packet packet_data addr c)
unfolding append_immediate_packet
append_immediate-IsPassed packet_data addr c fits =
    let short : ltb standard_mtu_size (length packet_data) ≡ false = ground arith in
    rw (short, append_immediate_packet)
      (record {
        buf = refl;
        addresses = refl;
        same_queue = refl;
        same_engine = refl;
        same_reinjected = refl;
        same_failures = refl;
        same_dropped = refl;
        same_delayed = refl;
        same_duplicated = refl;
      })

pub IsPassed-then :
    {A G H Q : Type 0} (added rest : List ℕ) (addr : A) (addrs : List A) (c c₁ c₂ : Capture A G H Q)
    → IsPassed added (addr ∷ []) c c₁
    → IsPassed rest addrs c₁ c₂
    → IsPassed (added ++ rest) (addr ∷ addrs) c c₂
IsPassed-then added rest addr addrs c c₁ c₂ p q = record {
  buf = q.buf ∙ rw (p.buf, append_assoc c.send_buf added rest) refl;
  addresses = q.addresses ∙ rw (p.addresses, append_assoc c.send_addrs (addr ∷ []) addrs) refl;
  same_queue = q.same_queue ∙ p.same_queue;
  same_engine = q.same_engine ∙ p.same_engine;
  same_reinjected = q.same_reinjected ∙ p.same_reinjected;
  same_failures = q.same_failures ∙ p.same_failures;
  same_dropped = q.same_dropped ∙ p.same_dropped;
  same_delayed = q.same_delayed ∙ p.same_delayed;
  same_duplicated = q.same_duplicated ∙ p.same_duplicated;
}
