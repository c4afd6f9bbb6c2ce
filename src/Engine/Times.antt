-- ===== src/Engine/Times.antt =====
-- The release times of the copies of a packet, and which of them have come.
use scrambler.Prelude.{
  ℕ, zero, suc, ◌+◌, ◌*◌, ◌≤◌, ◌<◌, ◌≡◌, refl, max, Bool, true, false, ◌||◌, ◌⊎◌, List, [], ◌∷◌,
  ltb, leb, if◌then◌else◌, Bool-cases, inl, inr, length, replicate, All, All-weaken, All-replicate,
  length-replicate, arith,
}
use scrambler.Engine.Direction.{transmission_time_for_packet}

abbrev pub progression : (first step count : ℕ) → List ℕ
progression first step zero = []
progression first step (suc count) = first ∷ progression (first + step) step count

-- How many of the times have come, and those that have not.
abbrev pub on_time : ℕ → List ℕ → ℕ
on_time now [] = 0
on_time now (t ∷ ts) = if leb t now then suc (on_time now ts) else on_time now ts

abbrev pub late : ℕ → List ℕ → List ℕ
late now [] = []
late now (t ∷ ts) = if leb t now then late now ts else t ∷ late now ts

abbrev pub any_above : ℕ → List ℕ → Bool
any_above base [] = false
any_above base (t ∷ ts) = ltb base t || any_above base ts

-- What is above a time that has come, or a later one, has not come.
pub late-any_above :
    (now base : ℕ) (ts : List ℕ) → now ≤ base → any_above base (late now ts) ≡ any_above base ts
late-any_above now base [] h = refl
late-any_above now base (t ∷ ts) h = ground (arith, late-any_above now base ts h)

pub on_time-add-late : (now : ℕ) (ts : List ℕ) → on_time now ts + length (late now ts) ≡ length ts
on_time-add-late now [] = omega arith
on_time-add-late now (t ∷ ts) = ground (arith, on_time-add-late now ts)

pub length-progression : (first step count : ℕ) → length (progression first step count) ≡ count
length-progression first step zero = refl
length-progression first step (suc count) =
    omega (arith, length-progression (first + step) step count)

-- The release times of the copies: `gate` is the throttle's next free time.
unfoldable pub release_times :
    (size now scheduled_delay throttle_bytes_per_second gate count : ℕ) → List ℕ
release_times size now scheduled_delay throttle_bytes_per_second gate count =
    let base = now + scheduled_delay * 1_000_000 in
    if ltb 0 throttle_bytes_per_second
    then progression (max base gate) (transmission_time_for_packet size throttle_bytes_per_second)
        count
    else replicate count base

pub length-release_times :
    (size now scheduled_delay throttle gate count : ℕ)
    → length (release_times size now scheduled_delay throttle gate count) ≡ count
unfolding release_times
length-release_times size now scheduled_delay throttle gate count =
    let base = now + scheduled_delay * 1_000_000 in
    ground (
      arith,
      length-replicate count base,
      length-progression (max base gate) (transmission_time_for_packet size throttle) count,
    )

progression-ge : (first step count : ℕ) → All (λ t. first ≤ t) (progression first step count)
progression-ge first step zero = tt
progression-ge first step (suc count) = (
  omega arith,
  All-weaken (progression (first + step) step count) (λ t h. omega arith)
      (progression-ge (first + step) step count),
)

-- No copy is released before the base time, nor, under a throttle, before its gate.
pub release_times-ge :
    (size now scheduled_delay throttle gate count : ℕ)
    → All
        (λ t. (now + scheduled_delay * 1_000_000 ≤ t) × (ltb 0 throttle ≡ true → gate ≤ t))
        (release_times size now scheduled_delay throttle gate count)
unfolding release_times
release_times-ge size now scheduled_delay throttle gate count = elim (Bool-cases (ltb 0 throttle)) [
  | inl limited ↦
      rw limited (All-weaken _ (λ t h. (omega arith, λ _. omega arith)) (progression-ge _ _ count))
  | inr free ↦ rw free (All-replicate _ count _ (omega arith, λ e. absurd (ground arith)))
]

-- Without a throttle every copy has the base time.
pub release_times_plain :
    (size now scheduled_delay gate count : ℕ)
    → release_times size now scheduled_delay 0 gate count
      ≡ replicate count (now + scheduled_delay * 1_000_000)
unfolding release_times
release_times_plain size now scheduled_delay gate count = refl

pub late-IsLate : (now : ℕ) (ts : List ℕ) → All (λ t. now < t) (late now ts)
late-IsLate now [] = tt
late-IsLate now (t ∷ ts) = ground (arith, late-IsLate now ts)

pub All-late {ℓ} : (P : ℕ → Type ℓ) (now : ℕ) (ts : List ℕ) → All P ts → All P (late now ts)
All-late P now [] h = tt
All-late P now (t ∷ ts) h = elim (Bool-cases (leb t now)) [
  | inl due ↦ rw due (All-late P now ts h.1)
  | inr wait ↦ rw wait (h.0, All-late P now ts h.1)
]

pub on_time-eq-zero : (now : ℕ) (ts : List ℕ) → All (λ t. now < t) ts → on_time now ts ≡ 0
on_time-eq-zero now [] h = refl
on_time-eq-zero now (t ∷ ts) h = ground (arith, on_time-eq-zero now ts h.1)

pub on_time_gate :
    (now gate : ℕ) (ts : List ℕ) → All (λ t. gate ≤ t) ts → (on_time now ts ≡ 0) ⊎ (gate ≤ now)
on_time_gate now gate [] h = inl refl
on_time_gate now gate (t ∷ ts) h = ground (arith, on_time_gate now gate ts h.1)
