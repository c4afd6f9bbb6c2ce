-- ===== src/Flow/Endings.antt =====
-- How the tracking loop ends on failures of the driver.
use scrambler.Prelude.{
  ℕ, suc, ◌+◌, ◌≤◌, ◌<◌, ◌≡◌, ◌≢◌, refl, ap, ◌∙◌, inl, inr, true, false, List, [], ◌∷◌, ◌++◌, map,
  length, length-append, All, Bool-cases, ltb, ◌==◌, ◌||◌, if◌then◌else◌, arith,
}
use scrambler.Types.{max_consecutive_recv_failures}
use scrambler.Startup.{WindowsErrors}
use scrambler.Flow.Failures.{classify_recv_failure, exit_fatal, continue_loop}
use scrambler.Flow.Tracker.{FlowTracker}
use scrambler.Flow.Loop.{Turn, failed, fatal, after_failure, tracking_loop}

-- A failure that is neither the end of the queue nor terminal.
abbrev pub IsTransient : WindowsErrors → ℕ → Type 0
IsTransient codes gle =
    (gle ≢ codes.no_data) × (gle ≢ codes.invalid_handle) × (gle ≢ codes.operation_aborted)

pub classify_transient :
    (codes : WindowsErrors) (gle before errors : ℕ)
    → IsTransient codes gle
    → classify_recv_failure codes gle before errors ≡ (
      if ltb max_consecutive_recv_failures (before + 1) then exit_fatal else continue_loop,
      before + 1,
      errors + 1,
    )
unfolding classify_recv_failure
classify_transient codes gle before errors h =
    let open_queue : (gle == codes.no_data) ≡ false = ground (arith, h.0) in
    let working : (gle == codes.invalid_handle || gle == codes.operation_aborted) ≡ false =
      ground (arith, h.1, h.2) in
    elim (Bool-cases (ltb max_consecutive_recv_failures (before + 1))) [
      | inl over ↦ rw (open_queue, working, over, classify_recv_failure) refl
      | inr more ↦ rw (open_queue, working, more, classify_recv_failure) refl
    ]

module _ (codes : WindowsErrors) {H : Type 0} where
  loop_onwards :
      (gle before : ℕ) (turns : List Turn) (t : FlowTracker H)
      → IsTransient codes gle
      → ltb max_consecutive_recv_failures (before + 1) ≡ false
      → tracking_loop codes (failed gle ∷ turns) before t
        ≡ tracking_loop codes turns (before + 1) (record t { driver_errors = t.driver_errors + 1 })
  unfolding tracking_loop after_failure
  loop_onwards gle before turns t h more =
      ap (λ c. after_failure c gle t (tracking_loop codes turns))
        (classify_transient codes gle before t.driver_errors h)
      ∙ rw more refl

  loop_ends :
      (gle before : ℕ) (turns : List Turn) (t : FlowTracker H)
      → IsTransient codes gle
      → ltb max_consecutive_recv_failures (before + 1) ≡ true
      → tracking_loop codes (failed gle ∷ turns) before t ≡ (
        fatal,
        record t { driver_errors = t.driver_errors + 1; notified = t.notified ++ gle ∷ [] },
      )
  unfolding tracking_loop after_failure
  loop_ends gle before turns t h over =
      ap (λ c. after_failure c gle t (tracking_loop codes turns))
        (classify_transient codes gle before t.driver_errors h)
      ∙ rw over refl

  -- Transient failures in a row, from `before` on, are all counted as driver errors; the loop
  -- goes on with what follows as long as there are 32 at most. With more it has ended as fatal,
  -- whatever follows, and the callback was called once.
  pub transient_failures :
      (gles : List ℕ) (before : ℕ) (rest : List Turn) (t : FlowTracker H)
      → All (IsTransient codes) gles
      → before ≤ 32
      → ((before + length gles ≤ 32)
          → tracking_loop codes (map failed gles ++ rest) before t
            ≡ tracking_loop codes rest
                (before + length gles)
                (record t { driver_errors = t.driver_errors + length gles }))
        × ((32 < before + length gles)
            → ((tracking_loop codes (map failed gles ++ rest) before t).0 ≡ fatal)
              × (length (tracking_loop codes (map failed gles ++ rest) before t).1.notified
                  ≡ suc (length t.notified)))
  transient_failures [] before rest t h le =
      let same : before + 0 ≡ before = omega arith in
      let same_errors : t.driver_errors + 0 ≡ t.driver_errors = omega arith in
      (λ fits. rw (same, same_errors) refl, λ over. ground arith)
  transient_failures (gle ∷ gles) before rest t h le =
      let counted : FlowTracker H = record t { driver_errors = t.driver_errors + 1 } in
      elim (Bool-cases (ltb max_consecutive_recv_failures (before + 1))) [
        | inl over ↦ (
          λ fits. ground arith,
          λ lt.
              rw (loop_ends gle before (map failed gles ++ rest) t h.0 over)
                (refl, omega (arith, length-append t.notified (gle ∷ []))),
        )
        | inr more ↦
            let (onwards, ends) =
              transient_failures gles (before + 1) rest counted h.1 (ground arith) in
            let sum : before + 1 + length gles ≡ before + suc (length gles) = omega arith in
            let errors : t.driver_errors + 1 + length gles ≡ t.driver_errors + suc (length gles) =
              omega arith in
            rw (loop_onwards gle before (map failed gles ++ rest) t h.0 more) (
              λ fits. rw (sum, errors) at onwards (omega (arith, fits)),
              λ lt. ends (omega (arith, lt)),
            )
      ]
