-- ===== src/Sounds.antt =====
-- src/ui/SoundPlayer.cpp and its header. The calls that the player makes on sinks and buffers are
-- recorded in order; a sink and the buffer it plays have the number of their tone. The doubles
-- are a parameter, and so is the answer whether the device has the format.
use scrambler.Prelude.{
  ℕ, zero, suc, ◌+◌, ◌*◌, ◌/◌, ℤ, clamp, Bool, true, false, Option, none, some, List, [], ◌∷◌, ◌++◌,
  foldl, ◌==◌, if◌then◌else◌,
}
pub mod Tones
mod Tests

-- The doubles of `PlayTone`; `to_int16` is the conversion to `int16_t`.
pub record Double (D : Type 0) : Type 0 where
  pub of_int : ℕ → D
  pub times : D → D → D
  pub over : D → D → D
  pub sin : D → D
  pub pi : D
  pub to_int16 : D → ℤ

pub data AudioCall : Type 0 where
  opens_buffer starts_sink disconnects_sink stops_sink deletes_sink closes_buffer deletes_buffer :
      ℕ → AudioCall

-- `tones` counts the tones so far, which names the next one.
pub record SoundPlayer : Type 0 where
  pub sink : Option ℕ
  pub buffer : Option ℕ
  pub samples : List ℤ
  pub tones : ℕ
  pub calls : List AudioCall

abbrev pub new_player : SoundPlayer
new_player = record { sink = none; buffer = none; samples = []; tones = 0; calls = [] }

abbrev pub sample_rate : ℕ
sample_rate = 44_100

abbrev pub int16_max : ℕ
int16_max = 32_767

unfoldable pub cleanup_sink : SoundPlayer → SoundPlayer
cleanup_sink p = elim p.sink [
  | none ↦ p
  | some k ↦ record p {
    sink = none;
    calls = p.calls ++ disconnects_sink k ∷ stops_sink k ∷ deletes_sink k ∷ [];
  }
]

unfoldable pub cleanup_buffer : SoundPlayer → SoundPlayer
cleanup_buffer p = elim p.buffer [
  | none ↦ p
  | some k ↦ record p { buffer = none; calls = p.calls ++ closes_buffer k ∷ deletes_buffer k ∷ [] }
]

unfoldable pub cleanup : SoundPlayer → SoundPlayer
unfolding cleanup_sink cleanup_buffer
cleanup p = cleanup_buffer (cleanup_sink p)

module _ {D : Type 0} (real : Double D) where
  open real use {of_int, times, over, sin, pi, to_int16}

  -- One round of the loop over the samples.
  unfoldable pub sample_at : (frequency_hz : D) (volume_percent : ℤ) → ℕ → ℤ
  sample_at frequency_hz volume_percent i =
      let amplitude = over (of_int (clamp volume_percent 0 100)) (of_int 100) in
      let t = over (of_int i) (of_int sample_rate) in
      let sample = times (sin (times (times (times (of_int 2) pi) frequency_hz) t)) amplitude in
      to_int16 (times sample (of_int int16_max))

  -- The samples from `i` on.
  unfoldable pub samples_from : (frequency_hz : D) (volume_percent : ℤ) (i count : ℕ) → List ℤ
  unfolding sample_at
  samples_from frequency_hz volume_percent i zero = []
  samples_from frequency_hz volume_percent i (suc count) =
      sample_at frequency_hz volume_percent i
      ∷ samples_from frequency_hz volume_percent (i + 1) count

  -- The window plays tones of a fraction of a second. The product of the rate and the duration is an
  -- `int` in the source, which would overflow only for tones of more than 48 seconds.
  unfoldable pub play_tone :
      (supported : Bool) (frequency_hz : D) (duration_ms : ℕ) (volume_percent : ℤ)
      → SoundPlayer
      → SoundPlayer
  unfolding cleanup samples_from
  play_tone supported frequency_hz duration_ms volume_percent p =
      let clean = cleanup p in
      if supported
      then record clean {
        samples = samples_from frequency_hz volume_percent 0 (sample_rate * duration_ms / 1000);
        buffer = some clean.tones;
        sink = some clean.tones;
        tones = clean.tones + 1;
        calls = clean.calls ++ opens_buffer clean.tones ∷ starts_sink clean.tones ∷ [];
      }
      else clean

-- The slot on the state of a sink, which is connected until the sink is disconnected.
unfoldable pub state_changed : (of_sink : ℕ) (idle : Bool) → SoundPlayer → SoundPlayer
unfolding cleanup
state_changed of_sink idle p = elim p.sink [
  | none ↦ p
  | some k ↦ if k == of_sink then if idle then cleanup p else p else p
]
