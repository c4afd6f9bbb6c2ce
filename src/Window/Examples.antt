-- ===== src/Window/Examples.antt =====
-- The process tree on a launcher with a game, and on two processes that name each other as parent;
-- the controls of bursts and duplicates and the tab of settings in use.
use scrambler.Prelude.{
  ℕ, ◌*◌, ◌≡◌, ◌↔◌, refl, inl, true, false, pos, negsuc, some, none, List, [], ◌∷◌, foldl, arith,
}
use scrambler.Rates.{clamp_rate}
use scrambler.Samples.{Milli, milli_float}
use scrambler.Config.Direction
use scrambler.Config.Effects
use scrambler.Config.Effects.{EffectConfig, default_effects}
use scrambler.Processes.{ProcessInfo}
use scrambler.Window.Pipeline.{item_with}
use scrambler.Window.Listing.{no_items, list_processes}
use scrambler.Window.Rooted.{IsListed, IsRooted}
use scrambler.Window.Lineage.{IsListed-list_processes}
use scrambler.Window.Unchecked.{moves_shared}
use scrambler.Window.Bursts.{
  BurstControls, BurstAction, on_drop, clicks_burst_drop, clicks_burst_asymmetric, moves_chance,
  moves_length_of, new_burst_controls, burst_act,
}
use scrambler.Window.BurstShown.{IsBurstSet, IsUsable}
use scrambler.Window.BurstRuns.{IsBurstShown, burst_controls_shown, new_controls-IsBurstShown}
use scrambler.Window.Duplicates.{
  DuplicateControls, DuplicateAction, moves_duplicates, moves_count, moves_count_of, clicks_custom,
  clicks_duplicate_asymmetric, new_duplicate_controls, duplicate_act,
}
use scrambler.Window.DuplicateSteps.{IsDuplicateSet, IsCopyUsable}
use scrambler.Window.DuplicateRuns.{duplicate_controls_shown}
use scrambler.Window.Settings.{
  UiSettings, SettingsAction, sets_delay_step, sets_volume, clicks_sound, load_ui, settings_act,
  settings_restored,
}

abbrev process : (pid parent_pid : ℕ) → ProcessInfo
process pid parent_pid = record {
  pid = pid;
  parent_pid = parent_pid;
  creation_time = 1;
  name = [];
  exe_path = [];
}

-- A launcher whose own parent is gone, its game and the game's helper.
abbrev family : List ProcessInfo
family = process 12 11 ∷ process 10 4 ∷ process 11 10 ∷ []

family_shown :
    let t = list_processes family no_items in
    (t.top_level ≡ 10 ∷ []) × (t.children 10 ≡ 11 ∷ []) × (t.children 11 ≡ 12 ∷ [])
unfolding list_processes item_with
family_shown = (refl, refl, refl)

IsListed-list_processes_example :
    IsListed (list_processes family no_items) 12 ↔ IsRooted family (process 12 11)
IsListed-list_processes_example =
    IsListed-list_processes family no_items (process 12 11)
      ((omega arith, (omega arith, tt)), ((omega arith, tt), (tt, tt))) (inl refl)

-- The pid 11 was used again for a process that was started by its former child.
abbrev ring : List ProcessInfo
ring = process 12 11 ∷ process 11 12 ∷ []

ring_not_shown :
    let t = list_processes ring no_items in
    (t.top_level ≡ []) × (t.children 11 ≡ 12 ∷ []) × (t.children 12 ≡ 11 ∷ [])
unfolding list_processes item_with
ring_not_shown = (refl, refl, refl)

-- Ten thousandths for each percent.
abbrev percent : ℕ → Milli
percent n = some (n * 10)

abbrev bursts : BurstControls (EffectConfig Milli)
bursts = new_burst_controls default_effects

bursts-IsBurstShown : IsBurstShown percent bursts
unfolding default_effects Direction.default_config clamp_rate Effects.drop_rate
    Effects.burst_drop_rate Effects.burst_drop_length Effects.burst_drop_enabled
bursts-IsBurstShown =
    new_controls-IsBurstShown percent default_effects (elim [ true ↦ refl | false ↦ refl ])
      (elim [ true ↦ refl | false ↦ refl ]) (elim [ true ↦ refl | false ↦ refl ])
      (elim [ true ↦ refl | false ↦ refl ])

abbrev burst_moves : List BurstAction
burst_moves =
    on_drop (moves_shared (pos 30))
    ∷ clicks_burst_drop
    ∷ moves_chance (pos 5)
    ∷ clicks_burst_asymmetric
    ∷ moves_length_of false (pos 900)
    ∷ []

burst_lengths :
    let c = foldl (burst_act percent) bursts burst_moves in
    (c.length.direction false ≡ 32) × (c.shared_enabled ≡ false) × (c.drop_box_enabled ≡ false)
unfolding burst_act new_burst_controls
burst_lengths = (refl, refl, refl)

burst_controls_shown_example :
    let c = foldl (burst_act percent) bursts burst_moves in
    IsBurstSet percent c × IsUsable percent c
burst_controls_shown_example =
    burst_controls_shown percent bursts burst_moves bursts-IsBurstShown.0 bursts-IsBurstShown.1

abbrev duplicates : DuplicateControls (EffectConfig Milli)
duplicates = new_duplicate_controls default_effects

duplicates-IsDuplicateSet : IsDuplicateSet percent duplicates
unfolding default_effects Direction.default_config Effects.duplicate_count clamp_rate
    Effects.duplicate_rate
duplicates-IsDuplicateSet = record {
  chance = record {
    in_range = λ dir. omega arith;
    shared_in_range = omega arith;
    reads = elim [ true ↦ refl | false ↦ refl ];
  };
  count = (omega arith, (refl, refl));
}

abbrev duplicate_moves : List DuplicateAction
duplicate_moves =
    moves_duplicates (pos 20)
    ∷ clicks_custom
    ∷ moves_count (pos 3)
    ∷ clicks_duplicate_asymmetric
    ∷ moves_count_of false (pos 7)
    ∷ clicks_duplicate_asymmetric
    ∷ []

-- The box is cleared, and the inbound copies stay seven.
inbound_copies :
    let c = foldl (duplicate_act percent) duplicates duplicate_moves in
    (Effects.duplicate_count c.chance.effects true ≡ 3)
    × (Effects.duplicate_count c.chance.effects false ≡ 7)
unfolding duplicate_act Effects.duplicate_count Effects.set_duplicate_count
    Direction.set_duplicate_count
inbound_copies = (refl, refl)

duplicate_controls_shown_example :
    let c = foldl (duplicate_act percent) duplicates duplicate_moves in
    IsDuplicateSet percent c × IsCopyUsable c
duplicate_controls_shown_example =
    duplicate_controls_shown percent duplicates duplicate_moves duplicates-IsDuplicateSet
      (record { visible = refl; directions = refl; enabled = refl })

-- Nothing is stored but a volume that is out of range.
abbrev stored : UiSettings
stored = record {
  delay_step = none;
  drop_step = none;
  sound_enabled = none;
  volume = some (pos 300);
}

abbrev settings_moves : List SettingsAction
settings_moves = sets_delay_step (pos 900) ∷ clicks_sound ∷ sets_volume (negsuc 4) ∷ []

settings_restored_example :
    let t = foldl settings_act (load_ui stored) settings_moves in load_ui t.settings ≡ t
settings_restored_example = settings_restored stored settings_moves
