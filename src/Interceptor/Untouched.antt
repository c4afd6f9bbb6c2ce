-- ===== src/Interceptor/Untouched.antt =====
-- A batch of which every packet goes back: none is of a process that is chosen, none is too long.
use mathlib.Core.List.{append-nil}
use scrambler.Prelude.{
  ℕ, zero, suc, ◌+◌, ◌-◌, ◌≤◌, ◌<◌, ◌≡◌, refl, ◌∙◌, ap, sym, true, false, ◌==◌, ltb, none, some,
  Option-cases, Bool-cases, inl, inr, List, [], ◌∷◌, ◌++◌, map, if◌then◌else◌, length, take, drop,
  length-map, arith,
}
use scrambler.Types.{standard_mtu_size}
use scrambler.Rates.{Float, Random}
use scrambler.Delay.Interfaces.{PriorityQueue, SpscQueue}
use scrambler.Delay.Queue.{Entry}
use scrambler.Interceptor.Capture.{WinDivert, Turn}
use scrambler.Interceptor.Kept.{kept}
use scrambler.Interceptor.Packet.{Capturing}
use scrambler.Interceptor.Loop.{begin_batch, capture_batch}
use scrambler.Interceptor.Foreign.{if_not, IsForeign, capture_batch_foreign}

take-drop : (n : ℕ) (xs : List ℕ) → take n xs ++ drop n xs ≡ xs
take-drop zero xs = refl
take-drop (suc n) [] = refl
take-drop (suc n) (x ∷ xs) = ap (λ ys. x ∷ ys) (take-drop n xs)

length-take_le : (n : ℕ) (xs : List ℕ) → length (take n xs) ≤ n
length-take_le zero xs = omega arith
length-take_le (suc n) [] = omega arith
length-take_le (suc n) (x ∷ xs) = omega (arith, length-take_le n xs)

take_all : (n : ℕ) (xs : List ℕ) → n ≡ length xs → take n xs ≡ xs
take_all zero [] h = refl
take_all zero (x ∷ xs) h = ground (arith, h)
take_all (suc n) [] h = refl
take_all (suc n) (x ∷ xs) h = ap (λ ys. x ∷ ys) (take_all n xs (omega (arith, h)))

module _ {A D F : Type 0} (w : WinDivert A D) where
  -- No packet that is parsed is longer than the MTU, and the packets are as many as the
  -- addresses. If one cannot be parsed, nothing is asked of those after it.
  abbrev pub IsWhole : List (Turn A F) → List ℕ → Type 0
  IsWhole [] current = current ≡ []
  IsWhole (t ∷ ts) current = elim (w.parse current) [
    | none ↦ Unit
    | some found ↦
        let pkt_len = length current - found.next_len in
        (pkt_len ≤ standard_mtu_size)
        × (if found.next_len == 0 then ts ≡ [] else IsWhole ts (drop pkt_len current))
  ]

  kept-whole :
      (ts : List (Turn A F)) (current : List ℕ)
      → IsWhole ts current
      → ((kept w ts current).buffer ≡ current) × ((kept w ts current).addrs ≡ map (λ t. t.addr) ts)
  kept-whole [] current h = (rw h refl, refl)
  kept-whole (t ∷ ts) current h = elim (Option-cases (w.parse current)) [
    | inl unparsed ↦ rw (unparsed, kept) (refl, refl)
    | inr (found, parsed) ↦
        let n = length current - found.next_len in
        let (fits, rest) = rw (parsed, IsWhole) at h in
        let short : ltb standard_mtu_size (length (take n current)) ≡ false =
          ground (arith, fits, length-take_le n current) in
        elim (Bool-cases (found.next_len == 0)) [
          | inl last ↦
              let none_left : ts ≡ [] = rw last at rest in
              rw (parsed, kept, last, short)
                (append-nil _ ∙ take_all n current (ground arith), rw none_left refl)
          | inr more ↦
              let (bytes, addrs) = kept-whole ts (drop n current) (rw more at rest) in
              rw (parsed, kept, more, short)
                (
                  ap (λ ys. take n current ++ ys) bytes ∙ take-drop n current,
                  ap (λ rest_addrs. t.addr ∷ rest_addrs) addrs,
                )
        ]
  ]

module _ {capacity : ℕ} (ring : SpscQueue ℕ capacity) (heap : PriorityQueue Entry (λ e. e.due))
    {A D G H F : Type 0} ⦃f : Float F⦄ ⦃r : Random F G⦄ (w : WinDivert A D) where
  -- A batch without a packet of a chosen process, in which no packet that is parsed is longer than
  -- the MTU and the packets are as many as the addresses: if it has an address, the driver is
  -- given the bytes and the addresses just as they were received, in one call, and its packets are
  -- counted as sent or as failed; the engine and the rest of the delay queue are left alone. This
  -- holds too of a batch that cannot be parsed to its end, of which the conditions ask nothing
  -- from there on.
  pub capture_batch_untouched :
      (ts : List (Turn A F)) (received_bytes : List ℕ) (c : Capturing ring heap A D G H)
      → IsForeign ring heap w ts received_bytes (begin_batch w.is_outbound ts c)
      → IsWhole w ts received_bytes
      → 0 < length ts
      → let c' = capture_batch ring heap w received_bytes ts c in
        let call = w.send_ex received_bytes (map (λ t. t.addr) ts) c.queue.divert in
        (c'.queue ≡ record c.queue { divert = call.1 })
        × (c'.engine ≡ c.engine)
        × (c'.counts.reinjected
            ≡ (if call.0 then c.counts.reinjected + length ts else c.counts.reinjected))
        × (c'.counts.reinject_failures ≡ (
            if call.0 then c.counts.reinject_failures else c.counts.reinject_failures + length ts))
  capture_batch_untouched ts received_bytes c foreign whole some_packet =
      let p = capture_batch_foreign ring heap w ts received_bytes c foreign in
      let (bytes, addrs) = kept-whole w ts received_bytes whole in
      let as_many = length-map (λ (t : Turn A F). t.addr) ts in
      let some_address : ltb 0 (length (map (λ (t : Turn A F). t.addr) ts)) ≡ true =
        ground (arith, as_many, some_packet) in
      (
        p.sent ∙ rw (bytes, addrs, some_address) refl,
        p.same_engine,
        p.reinjected ∙ rw (bytes, addrs, some_address, as_many) refl,
        p.failed
            ∙ rw (bytes, addrs, some_address, as_many)
                (sym (
                  if_not (w.send_ex received_bytes (map (λ t. t.addr) ts) c.queue.divert).0
                    c.counts.reinject_failures (c.counts.reinject_failures + length ts))),
      )
