-- ===== src/Window/Bindings.antt =====
-- The hotkey fields of `MainWindow` beside the manager: how they are loaded, set and cleared.
-- `installed` is what Windows answers each time the hooks are put back.
use scrambler.Prelude.{
  ℕ, ◌<◌, ◌≡◌, refl, ◌∙◌, ap, All, ◌||◌, Bool, true, false, Option, List, [], ◌∷◌, foldl, ltb, ◌==◌,
  if◌then◌else◌, arith,
}
use scrambler.Hotkeys.{
  HotkeyBinding, HotkeyManager, unbound, actions, hotkey_action_count, set_binding, get_binding,
  save_settings, save_binding, load_settings, check_and_trigger, rebound, by_action,
  load-set_binding,
}
use scrambler.Hotkeys.Keys.{QtConstants, WinConstants}
use scrambler.Hotkeys.Edit.{HotkeyEdit, set_edit_binding, binding_to_string}

-- The manager and the field of each action.
pub record Bindings (N : Type 0) : Type 0 where
  pub manager : HotkeyManager
  pub edits : ℕ → HotkeyEdit N

module _ (qt : QtConstants) (win : WinConstants) {N : Type 0} (key_name_text : ℕ → Option N) where
  -- The loop over `load_hotkey_edit`.
  unfoldable pub load_hotkey_edits : HotkeyManager → Bindings N
  load_hotkey_edits m = record {
    manager = m;
    edits = λ action. set_edit_binding qt win key_name_text (get_binding m action);
  }

  -- A field takes a binding and tells it: `SetBinding`, then the slot on `BindingChanged`.
  unfoldable pub bind_edit : (installed : Bool) → HotkeyBinding → Bindings N → ℕ → Bindings N
  bind_edit installed b s action = record {
    manager = set_binding installed action b s.manager;
    edits = λ a. if a == action then set_edit_binding qt win key_name_text b else s.edits a;
  }

  -- The button that clears all.
  unfoldable pub clear_all : (installed : Bool) → Bindings N → Bindings N
  unfolding bind_edit
  clear_all installed s = foldl (bind_edit installed unbound) s actions

set_binding-bindings :
    (installed : Bool) (action : ℕ) (b : HotkeyBinding) (m : HotkeyManager) (i : ℕ)
    → action < 5
    → (set_binding installed action b m).bindings i ≡ (if i == action then b else m.bindings i)
unfolding set_binding save_settings save_binding
set_binding-bindings installed action b m i h =
    let inside : ltb action hotkey_action_count ≡ true = ground arith in
    rw inside (rebound m installed action b i)

has_action : ℕ → List ℕ → Bool
has_action i [] = false
has_action i (a ∷ rest) = has_action i rest || i == a

cleared_first :
    (t u : Bool) (b : HotkeyBinding)
    → (if t then unbound else (if u then unbound else b)) ≡ (if t || u then unbound else b)
cleared_first true u b = refl
cleared_first false u b = refl

module _ (qt : QtConstants) (win : WinConstants) {N : Type 0} (key_name_text : ℕ → Option N)
    (installed : Bool) where
  bindings-cleared :
      (clearing : List ℕ) (s : Bindings N) (i : ℕ)
      → All (λ a. a < 5) clearing
      → (foldl (bind_edit qt win key_name_text installed unbound) s clearing).manager.bindings i
        ≡ (if has_action i clearing then unbound else s.manager.bindings i)
  unfolding bind_edit has_action
  bindings-cleared [] s i h = refl
  bindings-cleared (a ∷ rest) s i (fits, others) =
      bindings-cleared rest (bind_edit qt win key_name_text installed unbound s a) i others
      ∙ ap (λ b. if has_action i rest then unbound else b)
          (set_binding-bindings installed a unbound s.manager i fits)
      ∙ cleared_first (has_action i rest) (i == a) (s.manager.bindings i)

  fields-cleared :
      (clearing : List ℕ) (s : Bindings N) (i : ℕ)
      → (foldl (bind_edit qt win key_name_text installed unbound) s clearing).edits i ≡ (
          if has_action i clearing
          then set_edit_binding qt win key_name_text unbound
          else s.edits i)
  unfolding bind_edit has_action
  fields-cleared [] s i = refl
  fields-cleared (a ∷ rest) s i =
      ground (arith, fields-cleared rest (bind_edit qt win key_name_text installed unbound s a) i)

  all_unbound :
      (s : Bindings N) (i : ℕ)
      → i < 5
      → (clear_all qt win key_name_text installed s).manager.bindings i ≡ unbound
  unfolding clear_all has_action
  all_unbound s =
      by_action (λ i. (clear_all qt win key_name_text installed s).manager.bindings i ≡ unbound)
        (bindings-cleared actions s 0 (omega arith)) (bindings-cleared actions s 1 (omega arith))
        (bindings-cleared actions s 2 (omega arith)) (bindings-cleared actions s 3 (omega arith))
        (bindings-cleared actions s 4 (omega arith))

nothing_emitted :
    (m : HotkeyManager) (in_foreground : Bool) (vk modifiers : ℕ)
    → ((i : ℕ) → i < 5 → m.bindings i ≡ unbound)
    → check_and_trigger in_foreground vk modifiers m ≡ []
unfolding check_and_trigger
nothing_emitted m true vk modifiers h = refl
nothing_emitted m false vk modifiers h =
    rw
      (
        h 0 (omega arith),
        h 1 (omega arith),
        h 2 (omega arith),
        h 3 (omega arith),
        h 4 (omega arith),
      )
      refl

module _ (qt : QtConstants) (win : WinConstants) {N : Type 0} (key_name_text : ℕ → Option N)
    (installed : Bool) (s : Bindings N) where
  stored_unbound :
      (other : HotkeyManager) (i : ℕ)
      → i < 5
      → get_binding
          (load_settings (record other {
            settings = (clear_all qt win key_name_text installed s).manager.settings;
          }))
          i
        ≡ unbound
  unfolding clear_all bind_edit get_binding has_action
  stored_unbound other i h =
      let four : 4 < 5 = omega arith in
      let first : List ℕ = 0 ∷ 1 ∷ 2 ∷ 3 ∷ [] in
      let fit : All (λ (a : ℕ). a < 5) first = omega arith in
      let before : Bindings N = foldl (bind_edit qt win key_name_text installed unbound) s first in
      load-set_binding before.manager other installed 4 unbound i four h
      ∙ by_action (λ j. (if j == 4 then unbound else get_binding before.manager j) ≡ unbound)
          (bindings-cleared qt win key_name_text installed first s 0 fit)
          (bindings-cleared qt win key_name_text installed first s 1 fit)
          (bindings-cleared qt win key_name_text installed first s 2 fit)
          (bindings-cleared qt win key_name_text installed first s 3 fit) refl i h

  -- After "Clear All Hotkeys", whatever was bound before and also if Windows does not install
  -- the hooks again: no key or button triggers an action, with any modifiers and in any window,
  -- every field shows no binding, and a manager that loads the settings later has none.
  pub all_hotkeys_cleared :
      (other : HotkeyManager) (in_foreground : Bool) (vk modifiers i : ℕ)
      → i < 5
      → let cleared = clear_all qt win key_name_text installed s in
        (check_and_trigger in_foreground vk modifiers cleared.manager ≡ [])
        × (cleared.edits i ≡ record { binding = unbound; text = [] })
        × (get_binding (load_settings (record other { settings = cleared.manager.settings })) i
            ≡ unbound)
  unfolding clear_all set_edit_binding binding_to_string has_action
  all_hotkeys_cleared other in_foreground vk modifiers i h = (
    nothing_emitted (clear_all qt win key_name_text installed s).manager in_foreground vk modifiers
        (all_unbound qt win key_name_text installed s),
    by_action
        (λ j.
          (clear_all qt win key_name_text installed s).edits j
          ≡ record { binding = unbound; text = [] })
        (fields-cleared qt win key_name_text installed actions s 0)
        (fields-cleared qt win key_name_text installed actions s 1)
        (fields-cleared qt win key_name_text installed actions s 2)
        (fields-cleared qt win key_name_text installed actions s 3)
        (fields-cleared qt win key_name_text installed actions s 4) i h,
    stored_unbound other i h,
  )
