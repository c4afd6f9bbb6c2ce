-- ===== src/Sounds/Tones.antt =====
-- What becomes of every sink and buffer of the player.
use mathlib.Core.List.{append_assoc}
use scrambler.Prelude.{
  ℕ, zero, suc, ◌≡◌, refl, ◌∙◌, ap, ℤ, Bool, true, false, Option, none, some, List, [], ◌∷◌, ◌++◌,
  foldl, ◌==◌, if◌then◌else◌, arith,
}
use scrambler.Sounds.{
  Double, AudioCall, opens_buffer, starts_sink, disconnects_sink, stops_sink, deletes_sink,
  closes_buffer, deletes_buffer, SoundPlayer, new_player, cleanup, cleanup_sink, cleanup_buffer,
  play_tone, state_changed,
}

-- The calls on the sink and the buffer of a tone that is over, and of one that plays.
abbrev pub begun : ℕ → List AudioCall
begun k = opens_buffer k ∷ starts_sink k ∷ []

abbrev pub ended : ℕ → List AudioCall
ended k =
    disconnects_sink k ∷ stops_sink k ∷ deletes_sink k ∷ closes_buffer k ∷ deletes_buffer k ∷ []

-- The first `n` tones, one after the other.
abbrev pub whole_tones : ℕ → List AudioCall
whole_tones zero = []
whole_tones (suc n) = whole_tones n ++ begun n ++ ended n

-- No tone plays, or the last one does, and all before it are over.
pub data IsPlaying : SoundPlayer → Type 0 where
  silent :
      (p : SoundPlayer)
      → p.sink ≡ none
      → p.buffer ≡ none
      → p.calls ≡ whole_tones p.tones
      → IsPlaying p
  sounding :
      (p : SoundPlayer) (k : ℕ)
      → p.sink ≡ some k
      → p.buffer ≡ some k
      → p.tones ≡ suc k
      → p.calls ≡ whole_tones k ++ begun k
      → IsPlaying p

pub record IsSilent (p : SoundPlayer) (tones : ℕ) : Type 0 where
  pub no_sink : p.sink ≡ none
  pub no_buffer : p.buffer ≡ none
  pub same_tones : p.tones ≡ tones
  pub all_over : p.calls ≡ whole_tones tones

abbrev after_sink : SoundPlayer → ℕ → SoundPlayer
after_sink p k = record p {
  sink = none;
  calls = p.calls ++ disconnects_sink k ∷ stops_sink k ∷ deletes_sink k ∷ [];
}

abbrev after_buffer : SoundPlayer → ℕ → SoundPlayer
after_buffer p k = record p {
  buffer = none;
  calls = p.calls ++ closes_buffer k ∷ deletes_buffer k ∷ [];
}

cleanup_sink-none : (p : SoundPlayer) → p.sink ≡ none → cleanup_sink p ≡ p
unfolding cleanup_sink
cleanup_sink-none p s = ap (λ (o : Option ℕ). elim o [ none ↦ p | some k ↦ after_sink p k ]) s

cleanup_buffer-none : (p : SoundPlayer) → p.buffer ≡ none → cleanup_buffer p ≡ p
unfolding cleanup_buffer
cleanup_buffer-none p b = ap (λ (o : Option ℕ). elim o [ none ↦ p | some k ↦ after_buffer p k ]) b

cleanup_sink-some : (p : SoundPlayer) (k : ℕ) → p.sink ≡ some k → cleanup_sink p ≡ after_sink p k
unfolding cleanup_sink
cleanup_sink-some p k s = rw (s, cleanup_sink) refl

cleanup_buffer-some :
    (p : SoundPlayer) (k : ℕ) → p.buffer ≡ some k → cleanup_buffer p ≡ after_buffer p k
unfolding cleanup_buffer
cleanup_buffer-some p k b = rw (b, cleanup_buffer) refl

cleanup-silent : (p : SoundPlayer) → p.sink ≡ none → p.buffer ≡ none → cleanup p ≡ p
unfolding cleanup
cleanup-silent p s b = ap cleanup_buffer (cleanup_sink-none p s) ∙ cleanup_buffer-none p b

abbrev cleaned : SoundPlayer → ℕ → SoundPlayer
cleaned p k = record p { sink = none; buffer = none; calls = p.calls ++ ended k }

cleanup-sounding :
    (p : SoundPlayer) (k : ℕ) → p.sink ≡ some k → p.buffer ≡ some k → cleanup p ≡ cleaned p k
unfolding cleanup
cleanup-sounding p k s b =
    ap cleanup_buffer (cleanup_sink-some p k s)
    ∙ cleanup_buffer-some (after_sink p k) k b
    ∙ ap (λ calls. record p { sink = none; buffer = none; calls = calls })
        (append_assoc p.calls (disconnects_sink k ∷ stops_sink k ∷ deletes_sink k ∷ [])
          (closes_buffer k ∷ deletes_buffer k ∷ []))

cleanup-IsSilent : (p : SoundPlayer) → IsPlaying p → IsSilent (cleanup p) p.tones
cleanup-IsSilent p (silent _ s b c) =
    rw (cleanup-silent p s b)
      (record { no_sink = s; no_buffer = b; same_tones = refl; all_over = c })
cleanup-IsSilent p (sounding _ k s b n c) =
    rw (cleanup-sounding p k s b)
      (record { no_sink = refl; no_buffer = refl; same_tones = refl; all_over = rw (n, c) refl })

IsSilent-IsPlaying : (p : SoundPlayer) (tones : ℕ) → IsSilent p tones → IsPlaying p
IsSilent-IsPlaying p tones s = silent p s.no_sink s.no_buffer (rw s.same_tones s.all_over)

-- What the window does with the player, and what the audio system tells it.
pub data SoundEvent (D : Type 0) : Type 0 where
  plays : (supported : Bool) → D → (duration_ms : ℕ) → (volume_percent : ℤ) → SoundEvent D
  tells : (of_sink : ℕ) → (idle : Bool) → SoundEvent D

module _ {D : Type 0} (real : Double D) where
  unfoldable pub sound_step : SoundPlayer → SoundEvent D → SoundPlayer
  unfolding play_tone state_changed
  sound_step p (plays supported frequency duration volume) =
      play_tone real supported frequency duration volume p
  sound_step p (tells of_sink idle) = state_changed of_sink idle p

  play_tone-IsPlaying :
      (supported : Bool) (frequency : D) (duration : ℕ) (volume : ℤ) (p : SoundPlayer)
      → IsPlaying p
      → IsPlaying (play_tone real supported frequency duration volume p)
  unfolding play_tone
  play_tone-IsPlaying true frequency duration volume p h =
      let c = cleanup-IsSilent p h in
      sounding _ (cleanup p).tones refl refl (omega arith) (rw (c.all_over, c.same_tones) refl)
  play_tone-IsPlaying false frequency duration volume p h =
      IsSilent-IsPlaying (cleanup p) p.tones (cleanup-IsSilent p h)

  state_changed-IsPlaying :
      (of_sink : ℕ) (idle : Bool) (p : SoundPlayer)
      → IsPlaying p
      → IsPlaying (state_changed of_sink idle p)
  unfolding state_changed
  state_changed-IsPlaying of_sink idle p h =
      let clean = IsSilent-IsPlaying (cleanup p) p.tones (cleanup-IsSilent p h) in
      elim p.sink
        as (λ o. IsPlaying (elim o [
          | none ↦ p
          | some k ↦ if k == of_sink then if idle then cleanup p else p else p
        ])) [
          | none ↦ h
          | some k ↦
              elim (k == of_sink)
                as (λ b. IsPlaying (if b then if idle then cleanup p else p else p)) [
                  | true ↦ elim idle as (λ b. IsPlaying (if b then cleanup p else p)) [
                    | true ↦ clean
                    | false ↦ h
                  ]
                  | false ↦ h
                ]
        ]

  run-IsPlaying :
      (p : SoundPlayer) (es : List (SoundEvent D)) → IsPlaying p → IsPlaying (foldl sound_step p es)
  unfolding sound_step
  run-IsPlaying p [] h = h
  run-IsPlaying p (plays supported frequency duration volume ∷ es) h =
      run-IsPlaying (play_tone real supported frequency duration volume p) es
        (play_tone-IsPlaying supported frequency duration volume p h)
  run-IsPlaying p (tells of_sink idle ∷ es) h =
      run-IsPlaying (state_changed of_sink idle p) es (state_changed-IsPlaying of_sink idle p h)

  -- Over any tones, and whatever the audio system tells of any sink, also of one that is gone: at
  -- most the last sink plays, with the buffer of its tone. Every one before it was opened, started,
  -- disconnected, stopped and deleted once, in this order, then its buffer was closed and deleted
  -- once, and only then the next tone began. The destructor does the same to the last.
  pub tones_end :
      (es : List (SoundEvent D))
      → let p = foldl sound_step new_player es in IsPlaying p × IsSilent (cleanup p) p.tones
  tones_end es =
      let h = run-IsPlaying new_player es (silent new_player refl refl refl) in
      (h, cleanup-IsSilent (foldl sound_step new_player es) h)
