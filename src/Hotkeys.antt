-- ===== src/Hotkeys.antt =====
-- The bindings of src/ui/HotkeyManager.cpp and how they are stored. An action is its number; the
-- settings of Qt are a map from keys to numbers, where a missing key reads as 0.
use scrambler.Prelude.{
  ℕ, ◌≤◌, ◌<◌, ◌≡◌, ◌≢◌, refl, sym, ◌∙◌, subst, ◌⊎◌, inl, inr, Bool-cases, Bool, true, false, not,
  ◌&&◌, List, [], ◌∷◌, ◌++◌, foldl, ltb, ◌==◌, if◌then◌else◌, arith,
}
pub mod Keys
pub mod Hooks
pub mod Edit
pub mod Captured
pub mod Handles
pub mod Held
pub mod Switches
pub mod Sequences
mod Tests

abbrev pub hotkey_action_count : ℕ
hotkey_action_count = 5

pub record HotkeyBinding : Type 0 where
  pub modifiers : ℕ
  pub vk : ℕ

abbrev pub unbound : HotkeyBinding
unbound = record { modifiers = 0; vk = 0 }

abbrev pub is_valid : HotkeyBinding → Bool
is_valid b = not (b.vk == 0)

-- `ActionToSettingsKey`, a constructor for each text.
pub data ActionKey : Type 0 where
  toggle_effects increment_delay decrement_delay increment_drop_rate decrement_drop_rate unknown :
      ActionKey

unfoldable pub action_to_settings_key : ℕ → ActionKey
action_to_settings_key action =
    if action == 0
    then toggle_effects
    else if action == 1
    then increment_delay
    else if action == 2
    then decrement_delay
    else if action == 3
    then increment_drop_rate
    else if action == 4
    then decrement_drop_rate
    else unknown

abbrev pub same_key : ActionKey → ActionKey → Bool
same_key toggle_effects toggle_effects = true
same_key increment_delay increment_delay = true
same_key decrement_delay decrement_delay = true
same_key increment_drop_rate increment_drop_rate = true
same_key decrement_drop_rate decrement_drop_rate = true
same_key unknown unknown = true
same_key _ _ = false

-- What is stored under a key with `_mods` and with `_vk`.
pub record Settings : Type 0 where
  pub mods_of : ActionKey → ℕ
  pub vk_of : ActionKey → ℕ

unfoldable pub set_values : ActionKey → HotkeyBinding → Settings → Settings
set_values key b s = record {
  mods_of = λ k. if same_key k key then b.modifiers else s.mods_of k;
  vk_of = λ k. if same_key k key then b.vk else s.vk_of k;
}

pub record HotkeyManager : Type 0 where
  pub bindings : ℕ → HotkeyBinding
  pub registered : Bool
  pub settings : Settings

-- The body of the loop of `SaveSettings`, and the loop over the five actions.
unfoldable pub save_binding : HotkeyManager → ℕ → HotkeyManager
unfolding set_values action_to_settings_key
save_binding m i = record m {
  settings = set_values (action_to_settings_key i) (m.bindings i) m.settings;
}

abbrev pub actions : List ℕ
actions = 0 ∷ 1 ∷ 2 ∷ 3 ∷ 4 ∷ []

unfoldable pub save_settings : HotkeyManager → HotkeyManager
unfolding save_binding
save_settings m = foldl save_binding m actions

unfoldable pub load_binding : HotkeyManager → ℕ → HotkeyManager
unfolding action_to_settings_key
load_binding m i =
    let key = action_to_settings_key i in
    let b : HotkeyBinding = record {
      modifiers = m.settings.mods_of key;
      vk = m.settings.vk_of key;
    } in
    record m { bindings = λ j. if j == i then b else m.bindings j }

unfoldable pub load_settings : HotkeyManager → HotkeyManager
unfolding load_binding
load_settings m = foldl load_binding m actions

-- `InstallHooks`, with the answer of Windows.
abbrev pub install_hooks : (installed : Bool) → HotkeyManager → HotkeyManager
install_hooks installed m = record m { registered = installed }

abbrev pub remove_hooks : HotkeyManager → HotkeyManager
remove_hooks m = record m { registered = false }

-- `SetBinding` before it saves.
unfoldable pub rebind : (installed : Bool) → ℕ → HotkeyBinding → HotkeyManager → HotkeyManager
rebind installed action b m =
    let free = if m.registered then remove_hooks m else m in
    let bound : HotkeyManager = record free {
      bindings = λ j. if j == action then b else free.bindings j;
    } in
    if m.registered then install_hooks installed bound else bound

unfoldable pub set_binding : (installed : Bool) → ℕ → HotkeyBinding → HotkeyManager → HotkeyManager
unfolding rebind save_settings
set_binding installed action b m =
    if ltb action hotkey_action_count then save_settings (rebind installed action b m) else m

unfoldable pub get_binding : HotkeyManager → ℕ → HotkeyBinding
get_binding m action = if ltb action hotkey_action_count then m.bindings action else unbound

-- `CheckAndTrigger`: the actions that it emits, in order.
unfoldable pub check_and_trigger :
    (in_foreground : Bool) (vk modifiers : ℕ) → HotkeyManager → List ℕ
check_and_trigger true vk modifiers m = []
check_and_trigger false vk modifiers m =
    foldl
      (λ emitted i.
        if is_valid (m.bindings i)
          && ((m.bindings i).vk == vk && (m.bindings i).modifiers == modifiers)
        then emitted ++ i ∷ []
        else emitted)
      [] actions

below_five : (i : ℕ) → i < 5 → (i ≡ 0) ⊎ ((i ≡ 1) ⊎ ((i ≡ 2) ⊎ ((i ≡ 3) ⊎ (i ≡ 4))))
below_five i h = ground arith

pub by_action : (P : ℕ → Type 0) → P 0 → P 1 → P 2 → P 3 → P 4 → (i : ℕ) → i < 5 → P i
by_action P p₀ p₁ p₂ p₃ p₄ i h = elim (below_five i h) [
  | inl e ↦ subst P (sym e) p₀
  | inr (inl e) ↦ subst P (sym e) p₁
  | inr (inr (inl e)) ↦ subst P (sym e) p₂
  | inr (inr (inr (inl e))) ↦ subst P (sym e) p₃
  | inr (inr (inr (inr e))) ↦ subst P (sym e) p₄
]

-- What `SaveSettings` stored, `LoadSettings` reads back into any manager, for every action.
pub load-save :
    (m other : HotkeyManager) (i : ℕ)
    → i < 5
    → get_binding (load_settings (record other { settings = (save_settings m).settings })) i
      ≡ get_binding m i
unfolding load_settings load_binding save_settings save_binding set_values action_to_settings_key
    get_binding
load-save m other =
    by_action
      (λ i.
        get_binding (load_settings (record other { settings = (save_settings m).settings })) i
        ≡ get_binding m i)
      refl refl refl refl refl

pub rebound :
    (m : HotkeyManager) (installed : Bool) (action : ℕ) (b : HotkeyBinding) (i : ℕ)
    → (rebind installed action b m).bindings i ≡ (if i == action then b else m.bindings i)
unfolding rebind
rebound m installed action b i = elim (Bool-cases m.registered) [
  | inl hooked ↦ rw (hooked, rebind) refl
  | inr loose ↦ rw (loose, rebind) refl
]

-- A binding that is set is stored: whoever loads the settings after `SetBinding` finds the new
-- binding for its action and the bindings from before for all the others.
pub load-set_binding :
    (m other : HotkeyManager) (installed : Bool) (action : ℕ) (b : HotkeyBinding) (i : ℕ)
    → action < 5
    → i < 5
    → get_binding
        (load_settings (record other { settings = (set_binding installed action b m).settings }))
        i
      ≡ (if i == action then b else get_binding m i)
unfolding set_binding get_binding
load-set_binding m other installed action b i fits h =
    let inside : ltb action hotkey_action_count ≡ true = ground arith in
    let known : ltb i hotkey_action_count ≡ true = ground arith in
    rw (inside, set_binding)
      (load-save (rebind installed action b m) other i h
        ∙ rw (known, get_binding) (rebound m installed action b i))
