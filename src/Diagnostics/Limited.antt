-- ===== src/Diagnostics/Limited.antt =====
-- How much a site logs through `LogRateLimited`.
use scrambler.Prelude.{
  ℕ, zero, suc, ◌+◌, ◌/◌, ◌%◌, ◌^◌, ◌<◌, ◌≡◌, refl, ap, Bool-cases, inl, inr, if◌then◌else◌, min,
  arith,
}
use scrambler.Diagnostics.{log_rate_limited}

-- How many of `n` occurrences a site logs from a count on, and its count after.
unfoldable pub occurrences : (n count : ℕ) → ℕ × ℕ
unfolding log_rate_limited
occurrences zero count = (0, count)
occurrences (suc n) count =
    let (logged, after) = occurrences n count in
    let (logs, next) = log_rate_limited after in ((if logs then logged + 1 else logged), next)

one_more :
    (n : ℕ)
    → suc n < 2 ^ 64
    → ((log_rate_limited n).1 ≡ suc n)
      × (min n 5 + n / 1000 + (if (log_rate_limited n).0 then 1 else 0)
          ≡ min (suc n) 5 + suc n / 1000)
unfolding log_rate_limited
one_more n h = let same : (n + 1) % 2 ^ 64 ≡ suc n = omega arith in (same, rw same (ground arith))

-- Of `n` occurrences, as long as the count of 64 bits does not wrap, a site logs the first five, and
-- then one in a thousand.
pub occurrences_logged : (n : ℕ) → n < 2 ^ 64 → occurrences n 0 ≡ (min n 5 + n / 1000, n)
unfolding occurrences
occurrences_logged zero h = refl
occurrences_logged (suc n) h =
    let (next, more) = one_more n h in
    let before = occurrences_logged n (omega arith) in
    rw before (elim (Bool-cases (log_rate_limited n).0) [
      | inl logs ↦ rw (logs, next) (ap (λ k. (k, suc n)) (rw logs at more))
      | inr quiet ↦ rw (quiet, next) (ap (λ k. (k, suc n)) (omega (arith, rw quiet at more)))
    ])
