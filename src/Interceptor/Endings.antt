-- ===== src/Interceptor/Endings.antt =====
-- How the capture loop ends on failures of the driver.
use scrambler.Prelude.{
  ℕ, suc, ◌+◌, ◌≤◌, ◌<◌, ◌≡◌, refl, ap, ◌∙◌, inl, inr, true, false, List, [], ◌∷◌, ◌++◌, map,
  length, All, Bool-cases, ltb, arith,
}
use scrambler.Types.{max_consecutive_recv_failures}
use scrambler.Startup.{WindowsErrors}
use scrambler.Rates.{Float, Random}
use scrambler.Flow.Endings.{IsTransient, classify_transient}
use scrambler.Delay.Interfaces.{PriorityQueue, SpscQueue}
use scrambler.Delay.Queue.{Entry}
use scrambler.Interceptor.Capture.{WinDivert, Capture}
use scrambler.Interceptor.Packet.{Capturing}
use scrambler.Interceptor.Loop.{Event, failed, fatal, after_failure, capture_loop}

module _ {A G H Q : Type 0} where
  -- The state with so many more driver errors.
  abbrev pub with_errors : ℕ → Capture A G H Q → Capture A G H Q
  with_errors n c = record c {
    counts = record c.counts { driver_errors = c.counts.driver_errors + n };
  }

module _ {capacity : ℕ} (ring : SpscQueue ℕ capacity) (heap : PriorityQueue Entry (λ e. e.due))
    {A D G H F : Type 0} ⦃f : Float F⦄ ⦃r : Random F G⦄ (w : WinDivert A D)
    (codes : WindowsErrors) where
  goes_on :
      (gle before : ℕ) (events : List (Event A F)) (c : Capturing ring heap A D G H)
      → IsTransient codes gle
      → ltb max_consecutive_recv_failures (before + 1) ≡ false
      → capture_loop ring heap w codes (failed gle ∷ events) before c
        ≡ capture_loop ring heap w codes events (before + 1) (with_errors 1 c)
  unfolding capture_loop after_failure
  goes_on gle before events c h more =
      ap (λ x. after_failure x gle c (capture_loop ring heap w codes events))
        (classify_transient codes gle before c.counts.driver_errors h)
      ∙ rw more refl

  gives_up :
      (gle before : ℕ) (events : List (Event A F)) (c : Capturing ring heap A D G H)
      → IsTransient codes gle
      → ltb max_consecutive_recv_failures (before + 1) ≡ true
      → capture_loop ring heap w codes (failed gle ∷ events) before c
        ≡ (fatal, gle ∷ [], with_errors 1 c)
  unfolding capture_loop after_failure
  gives_up gle before events c h over =
      ap (λ x. after_failure x gle c (capture_loop ring heap w codes events))
        (classify_transient codes gle before c.counts.driver_errors h)
      ∙ rw over refl

  -- Transient failures of WinDivertRecvEx in a row, from a count of `before` on, are counted as
  -- driver errors and nothing else changes; up to 32 in all the loop goes on with what follows.
  -- With more it ends as fatal, whatever follows, and calls the fatal callback once, with the code
  -- of the failure that went over the limit; no packet is touched.
  pub capture_loop_transient :
      (gles : List ℕ) (before : ℕ) (rest : List (Event A F)) (c : Capturing ring heap A D G H)
      → All (IsTransient codes) gles
      → before ≤ 32
      → let result = capture_loop ring heap w codes (map failed gles ++ rest) before c in
        ((before + length gles ≤ 32)
          → result
            ≡ capture_loop ring heap w codes rest
                (before + length gles)
                (with_errors (length gles) c))
        × ((32 < before + length gles)
            → (over : List ℕ) × (gle : ℕ) × (under : List ℕ) × (gles ≡ over ++ gle ∷ under)
              × (before + length over ≡ 32)
              × (result ≡ (fatal, gle ∷ [], with_errors (suc (length over)) c)))
  capture_loop_transient [] before rest c h le =
      let same : before + 0 ≡ before = omega arith in
      let same_errors : c.counts.driver_errors + 0 ≡ c.counts.driver_errors = omega arith in
      (λ fits. rw (same, same_errors) refl, λ over. ground arith)
  capture_loop_transient (gle ∷ gles) before rest c h le =
      elim (Bool-cases (ltb max_consecutive_recv_failures (before + 1))) [
        | inl over ↦ (
          λ fits. ground arith,
          λ lt. (
            [],
            gle,
            gles,
            refl,
            ground arith,
            gives_up gle before (map failed gles ++ rest) c h.0 over,
          ),
        )
        | inr more ↦
            let (onwards, ends) =
              capture_loop_transient gles (before + 1) rest (with_errors 1 c) h.1 (ground arith) in
            let one = goes_on gle before (map failed gles ++ rest) c h.0 more in
            let sum : before + 1 + length gles ≡ before + suc (length gles) = omega arith in
            (
              λ fits.
                  one
                  ∙ onwards (omega (arith, fits))
                  ∙ rw sum (
                      ap
                        (λ n.
                          capture_loop ring heap w codes rest (before + suc (length gles))
                            (record c { counts = record c.counts { driver_errors = n } }))
                        (omega arith)),
              λ lt.
                  let (over, last, under, split, count, result) = ends (omega (arith, lt)) in
                  (
                    gle ∷ over,
                    last,
                    under,
                    ap (λ xs. gle ∷ xs) split,
                    omega (arith, count),
                    one
                        ∙ result
                        ∙ ap
                            (λ n. (
                              fatal,
                              last ∷ [],
                              (record c { counts = record c.counts { driver_errors = n } }),
                            ))
                            (omega arith),
                  ),
            )
      ]
