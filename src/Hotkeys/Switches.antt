-- ===== src/Hotkeys/Switches.antt =====
-- A switch on a key, and the one with its cases turned around.
use scrambler.Prelude.{
  ℕ, ◌≡◌, ◌≢◌, refl, sym, ◌∙◌, ◌⊎◌, inl, inr, true, false, List, [], ◌∷◌, map, ◌==◌, All, arith,
}
use scrambler.Hotkeys.Keys.{switch_on}

abbrev pub flip : ℕ × ℕ → ℕ × ℕ
flip (a, b) = (b, a)

-- No value stands at two cases.
abbrev pub IsDistinct : List (ℕ × ℕ) → Type 0
IsDistinct [] = Unit
IsDistinct ((label, value) ∷ cases) = All (λ p. p.1 ≢ value) cases × IsDistinct cases

switch_on-here :
    (key label value : ℕ) (cases : List (ℕ × ℕ))
    → key ≡ label
    → switch_on key ((label, value) ∷ cases) ≡ value
unfolding switch_on
switch_on-here key label value cases h =
    let here : (key == label) ≡ true = ground (arith, h) in rw (here, switch_on) refl

switch_on-later :
    (key label value : ℕ) (cases : List (ℕ × ℕ))
    → key ≢ label
    → switch_on key ((label, value) ∷ cases) ≡ switch_on key cases
unfolding switch_on
switch_on-later key label value cases h =
    let later : (key == label) ≡ false = ground (arith, h) in rw (later, switch_on) refl

switch_on-none : (key : ℕ) → switch_on key [] ≡ 0
unfolding switch_on
switch_on-none key = refl

same_or_not : (m n : ℕ) → (m ≡ n) ⊎ (m ≢ n)
same_or_not m n = ground arith

pub isnt_zero : (n : ℕ) → n ≢ 0 → (n == 0) ≡ false
isnt_zero n h = ground arith

pub switch_on-All :
    (P : ℕ → Type 0) (key : ℕ) (cases : List (ℕ × ℕ))
    → All (λ p. P p.1) cases
    → switch_on key cases ≢ 0
    → P (switch_on key cases)
switch_on-All P key [] h found = absurd (found (switch_on-none key))
switch_on-All P key ((label, value) ∷ cases) h found = elim (same_or_not key label) [
  | inl here ↦ rw (switch_on-here key label value cases here) h.0
  | inr later ↦
      let step = switch_on-later key label value cases later in
      rw step (switch_on-All P key cases h.1 (rw step at found))
]

pub switch_on-flip :
    (key : ℕ) (cases : List (ℕ × ℕ))
    → IsDistinct cases
    → switch_on key cases ≢ 0
    → switch_on (switch_on key cases) (map flip cases) ≡ key
switch_on-flip key [] d found = absurd (found (switch_on-none key))
switch_on-flip key ((label, value) ∷ cases) d found = elim (same_or_not key label) [
  | inl here ↦
      rw (switch_on-here key label value cases here)
        (switch_on-here value value label (map flip cases) refl ∙ sym here)
  | inr later ↦
      let step = switch_on-later key label value cases later in
      let rest : switch_on key cases ≢ 0 = rw step at found in
      rw step (
        switch_on-later (switch_on key cases) value label (map flip cases)
          (switch_on-All (λ v. v ≢ value) key cases d.0 rest)
        ∙ switch_on-flip key cases d.1 rest)
]
