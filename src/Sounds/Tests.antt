-- ===== src/Sounds/Tests.antt =====
-- Two tones, of which the second cuts the first off.
use scrambler.Prelude.{ℕ, ◌*◌, ◌/◌, ◌≡◌, refl, pos, true, false, some, List, [], ◌∷◌, foldl}
use scrambler.Sounds.{Double, new_player, cleanup}
use scrambler.Sounds.Tones.{SoundEvent, plays, tells, sound_step, IsPlaying, IsSilent, tones_end}

-- Whole numbers, with a sine that is its argument.
abbrev whole : Double ℕ
whole = record {
  of_int = λ n. n;
  times = λ a b. a * b;
  over = λ a b. a / b;
  sin = λ a. a;
  pi = 3;
  to_int16 = pos;
}

abbrev events : List (SoundEvent ℕ)
events =
    plays true 880 1 (pos 25)
    ∷ plays true 440 0 (pos 250)
    ∷ tells 0 true
    ∷ plays false 440 20 (pos 25)
    ∷ plays true 440 0 (pos 25)
    ∷ tells 2 false
    ∷ []

last_plays : (foldl (sound_step whole) new_player events).sink ≡ some 2
unfolding sound_step
last_plays = refl

tones_end_example :
    let p = foldl (sound_step whole) new_player events in IsPlaying p × IsSilent (cleanup p) p.tones
tones_end_example = tones_end whole events
