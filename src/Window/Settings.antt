-- ===== src/Window/Settings.antt =====
-- The tab of settings of `MainWindow`: the steps of the hotkeys and the sound, stored under "UI". The
-- signals of the controls are connected after they are loaded. A stored value is what `toInt` makes
-- of it.
use scrambler.Prelude.{
  ℕ, ◌≤◌, ◌≡◌, refl, ℤ, pos, clamp, clamp_bounds, Bool, false, not, Option, none, some, List, [],
  ◌∷◌, foldl, ◌==◌, if◌then◌else◌, arith,
}
use scrambler.Window.Shown.{by_if, clamp_fits}

-- What is stored; `none` where there is no value.
pub record UiSettings : Type 0 where
  pub delay_step : Option ℤ
  pub drop_step : Option ℤ
  pub sound_enabled : Option Bool
  pub volume : Option ℤ

-- `volume_label` is the number that the label shows.
pub record SettingsTab : Type 0 where
  pub delay_step : ℕ
  pub drop_step : ℕ
  pub sound : Bool
  pub volume : ℕ
  pub volume_label : ℤ
  pub settings : UiSettings

-- `value` of QSettings with its default.
abbrev pub value_or : {A : Type 0} → A → Option A → A
value_or a none = a
value_or a (some b) = b

abbrev pub max_delay_step : ℕ
max_delay_step = 500

abbrev pub max_drop_step : ℕ
max_drop_step = 50

-- The part of `SetupUi` that loads the saved state.
unfoldable pub load_ui : UiSettings → SettingsTab
load_ui s = record {
  delay_step = clamp (value_or (pos 10) s.delay_step) 1 max_delay_step;
  drop_step = clamp (value_or (pos 1) s.drop_step) 1 max_drop_step;
  sound = value_or false s.sound_enabled;
  volume = clamp (value_or (pos 25) s.volume) 0 100;
  volume_label = value_or (pos 25) s.volume;
  settings = s;
}

-- What the user does on the tab.
pub data SettingsAction : Type 0 where
  sets_delay_step sets_drop_step sets_volume : ℤ → SettingsAction
  clicks_sound : SettingsAction

-- The slots, which store what they are told.
abbrev pub delay_step_changed : ℕ → SettingsTab → SettingsTab
delay_step_changed value t = record t {
  delay_step = value;
  settings = record t.settings { delay_step = some (pos value) };
}

abbrev pub drop_step_changed : ℕ → SettingsTab → SettingsTab
drop_step_changed value t = record t {
  drop_step = value;
  settings = record t.settings { drop_step = some (pos value) };
}

abbrev pub volume_changed : ℕ → SettingsTab → SettingsTab
volume_changed value t = record t {
  volume = value;
  volume_label = pos value;
  settings = record t.settings { volume = some (pos value) };
}

-- A control that keeps its value tells nothing.
unfoldable pub settings_act : SettingsTab → SettingsAction → SettingsTab
settings_act t (sets_delay_step v) =
    let value = clamp v 1 max_delay_step in
    if value == t.delay_step then t else delay_step_changed value t
settings_act t (sets_drop_step v) =
    let value = clamp v 1 max_drop_step in
    if value == t.drop_step then t else drop_step_changed value t
settings_act t (sets_volume v) =
    let value = clamp v 0 100 in if value == t.volume then t else volume_changed value t
settings_act t clicks_sound =
    let checked = not t.sound in
    record t { sound = checked; settings = record t.settings { sound_enabled = some checked } }

clamp_again :
    (v : ℤ) (low high : ℕ) → low ≤ high → clamp (pos (clamp v low high)) low high ≡ clamp v low high
clamp_again v low high h =
    let (l, u) = clamp_bounds v low high h in clamp_fits (clamp v low high) low high l u

-- The controls show what loading the settings would show.
record IsStored (t : SettingsTab) : Type 0 where
  delay_step : clamp (value_or (pos 10) t.settings.delay_step) 1 max_delay_step ≡ t.delay_step
  drop_step : clamp (value_or (pos 1) t.settings.drop_step) 1 max_drop_step ≡ t.drop_step
  sound : value_or false t.settings.sound_enabled ≡ t.sound
  volume : clamp (value_or (pos 25) t.settings.volume) 0 100 ≡ t.volume
  volume_label : value_or (pos 25) t.settings.volume ≡ t.volume_label

load_ui-IsStored : (s : UiSettings) → IsStored (load_ui s)
unfolding load_ui
load_ui-IsStored s = record {
  delay_step = refl;
  drop_step = refl;
  sound = refl;
  volume = refl;
  volume_label = refl;
}

act-IsStored : (t : SettingsTab) (a : SettingsAction) → IsStored t → IsStored (settings_act t a)
unfolding settings_act
act-IsStored t (sets_delay_step v) i =
    by_if IsStored (clamp v 1 max_delay_step == t.delay_step) t
      (delay_step_changed (clamp v 1 max_delay_step) t) (λ e. i)
      (λ e. record {
        delay_step = clamp_again v 1 max_delay_step (omega arith);
        drop_step = i.drop_step;
        sound = i.sound;
        volume = i.volume;
        volume_label = i.volume_label;
      })
act-IsStored t (sets_drop_step v) i =
    by_if IsStored (clamp v 1 max_drop_step == t.drop_step) t
      (drop_step_changed (clamp v 1 max_drop_step) t) (λ e. i)
      (λ e. record {
        delay_step = i.delay_step;
        drop_step = clamp_again v 1 max_drop_step (omega arith);
        sound = i.sound;
        volume = i.volume;
        volume_label = i.volume_label;
      })
act-IsStored t (sets_volume v) i =
    by_if IsStored (clamp v 0 100 == t.volume) t (volume_changed (clamp v 0 100) t) (λ e. i)
      (λ e. record {
        delay_step = i.delay_step;
        drop_step = i.drop_step;
        sound = i.sound;
        volume = clamp_again v 0 100 (omega arith);
        volume_label = refl;
      })
act-IsStored t clicks_sound i = record {
  delay_step = i.delay_step;
  drop_step = i.drop_step;
  sound = refl;
  volume = i.volume;
  volume_label = i.volume_label;
}

acts-IsStored :
    (t : SettingsTab) (acts : List SettingsAction)
    → IsStored t
    → IsStored (foldl settings_act t acts)
acts-IsStored t [] i = i
acts-IsStored t (a ∷ acts) i = acts-IsStored (settings_act t a) acts (act-IsStored t a i)

stored_all : (t : SettingsTab) → IsStored t → load_ui t.settings ≡ t
unfolding load_ui
stored_all t i = λ k. record {
  delay_step = i.delay_step k;
  drop_step = i.drop_step k;
  sound = i.sound k;
  volume = i.volume k;
  volume_label = i.volume_label k;
  settings = t.settings;
}

-- Whatever is stored at first, also nothing or a value out of range: after any use of the tab of
-- settings, a window that loads what is stored then shows the same steps, sound and volume.
pub settings_restored :
    (s : UiSettings) (acts : List SettingsAction)
    → let t = foldl settings_act (load_ui s) acts in load_ui t.settings ≡ t
settings_restored s acts =
    stored_all (foldl settings_act (load_ui s) acts)
      (acts-IsStored (load_ui s) acts (load_ui-IsStored s))
