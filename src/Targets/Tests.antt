-- ===== src/Targets/Tests.antt =====
-- A run of the target set.
use scrambler.Prelude.{◌≡◌, refl, true, false, List, [], ◌∷◌, foldl}
use scrambler.Targets.{
  TargetCall, adds, removes, call, call_test, contains, no_targets, contains_refines,
}

abbrev choices : List TargetCall
choices = adds 7 ∷ adds 9 ∷ removes 7 ∷ []

still_chosen :
    (contains (foldl call no_targets choices) 9 ≡ true)
    × (contains (foldl call no_targets choices) 7 ≡ false)
unfolding contains call
still_chosen = (refl, refl)

contains_refines_example :
    contains (foldl call no_targets (adds 7 ∷ adds 9 ∷ removes 7 ∷ [])) 9
    ≡ foldl call_test (λ q. false) (adds 7 ∷ adds 9 ∷ removes 7 ∷ []) 9
contains_refines_example = contains_refines (adds 7 ∷ adds 9 ∷ removes 7 ∷ []) 9
