-- ===== src/Diagnostics/Tests.antt =====
-- Three entries, and what was logged after the first of them.
use scrambler.Prelude.{ℕ, ◌≡◌, refl, List, [], ◌∷◌, map, foldl, min, ◌+◌, ◌/◌, arith}
use scrambler.Diagnostics.{LogLevel, Counter, Diagnostics, new_diagnostics, snapshot_since}
use scrambler.Diagnostics.Limited.{occurrences, occurrences_logged}
use scrambler.Diagnostics.Calls.{DiagnosticsCall, logs, increments, call}

abbrev life : List (DiagnosticsCall ℕ ℕ)
life =
    logs 5 LogLevel.info 70
    ∷ increments Counter.driver_errors 1
    ∷ logs 6 LogLevel.warn 71
    ∷ logs 9 LogLevel.error 72
    ∷ []

abbrev start : Diagnostics ℕ ℕ
start = new_diagnostics

since_first :
    (map (λ e. e.message) (snapshot_since (foldl call start life) 1 8) ≡ 71 ∷ 72 ∷ [])
    × (map (λ e. e.message) (snapshot_since (foldl call start life) 1 1) ≡ 72 ∷ [])
    × (map (λ e. e.message) (snapshot_since (foldl call start life) 1 0) ≡ 72 ∷ [])
unfolding snapshot_since call new_diagnostics
since_first = (refl, refl, refl)

occurrences_logged_example : occurrences 2500 0 ≡ (min 2500 5 + 2500 / 1000, 2500)
occurrences_logged_example = occurrences_logged 2500 (omega arith)
