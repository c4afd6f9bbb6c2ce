-- ===== src/Hotkeys/Captured.antt =====
-- A binding that the field captures is one that the hook finds.
use scrambler.Prelude.{
  [], List, ℕ, ◌<◌, ◌≡◌, ◌≢◌, refl, sym, ◌∙◌, ap, Bool, Bool-cases, true, false, not, ◌&&◌, ◌||◌,
  Option, some, inl, inr, ltb, ◌==◌, bit_and, if◌then◌else◌, filter, filter_loop, filter_same,
  arith,
}
use scrambler.Hotkeys.{
  HotkeyBinding, HotkeyManager, is_valid, actions, save_settings, save_binding, rebind, rebound,
  set_binding, hotkey_action_count, check_and_trigger,
}
use scrambler.Hotkeys.Keys.{QtConstants, WinConstants}
use scrambler.Hotkeys.Hooks.{
  get_current_modifiers, is_modifier_key, keyboard_hook_proc, key_message,
}
use scrambler.Hotkeys.Edit.{HotkeyEdit, Press, hotkey_mods, key_press_event}

abbrev pub same_binding : HotkeyBinding → HotkeyBinding → Bool
same_binding a b = a.vk == b.vk && a.modifiers == b.modifiers

saved_bindings : (m : HotkeyManager) (i : ℕ) → (save_settings m).bindings i ≡ m.bindings i
unfolding save_settings save_binding
saved_bindings m i = refl

set_binding-bindings :
    (installed : Bool) (action : ℕ) (b : HotkeyBinding) (m : HotkeyManager) (i : ℕ)
    → action < 5
    → (set_binding installed action b m).bindings i ≡ (if i == action then b else m.bindings i)
unfolding set_binding
set_binding-bindings installed action b m i h =
    let inside : ltb action hotkey_action_count ≡ true = ground arith in
    rw (inside, set_binding)
      (saved_bindings (rebind installed action b m) i ∙ rebound m installed action b i)

found_again :
    (code mods vk modifiers : ℕ)
    → vk ≢ 0
    → (not (code == 0) && (code == vk && mods == modifiers)) ≡ (code == vk && mods == modifiers)
found_again code mods vk modifiers h = ground arith

found_itself :
    (vk modifiers : ℕ) → vk ≢ 0 → (not (vk == 0) && (vk == vk && modifiers == modifiers)) ≡ true
found_itself vk modifiers h = ground arith

-- What `CheckAndTrigger` emits for a key that is set as a binding.
check_set_binding :
    (installed : Bool) (action : ℕ) (b : HotkeyBinding) (m : HotkeyManager)
    → action < 5
    → b.vk ≢ 0
    → check_and_trigger false b.vk b.modifiers (set_binding installed action b m)
      ≡ filter (λ i. i == action || same_binding (m.bindings i) b) actions
unfolding check_and_trigger
check_set_binding installed action b m h valid =
    let m' = set_binding installed action b m in
    let matches : ℕ → Bool = λ i. is_valid (m'.bindings i) && same_binding (m'.bindings i) b in
    filter_loop matches actions
    ∙ filter_same matches (λ i. i == action || same_binding (m.bindings i) b) actions
        (λ i. elim (Bool-cases (i == action)) [
          | inl this ↦
              rw (set_binding-bindings installed action b m i h, this)
                (found_itself b.vk b.modifiers valid)
          | inr other ↦
              rw (set_binding-bindings installed action b m i h, other)
                (found_again (m.bindings i).vk (m.bindings i).modifiers b.vk b.modifiers valid)
        ])

module _ (qt : QtConstants) (win : WinConstants) where
  -- The modifiers that Qt reports are those that are down.
  pub record IsHeld (mods : ℕ) (key_state : ℕ → ℕ) : Type 0 where
    pub control :
        (bit_and mods qt.control_modifier == 0) ≡ (bit_and (key_state win.vk_control) 0x8000 == 0)
    pub alt : (bit_and mods qt.alt_modifier == 0) ≡ (bit_and (key_state win.vk_menu) 0x8000 == 0)
    pub shift :
        (bit_and mods qt.shift_modifier == 0) ≡ (bit_and (key_state win.vk_shift) 0x8000 == 0)

  held_mods :
      (mods : ℕ) (key_state : ℕ → ℕ)
      → IsHeld mods key_state
      → hotkey_mods qt win mods ≡ get_current_modifiers win key_state
  unfolding hotkey_mods get_current_modifiers
  held_mods mods key_state h = rw (h.control, h.alt, h.shift) refl

branches :
    (hooked goes_down : Bool) (found expected : List ℕ)
    → found ≡ expected
    → (if hooked then if goes_down && true then found else [] else [])
      ≡ (if hooked then if goes_down then expected else [] else [])
branches true true found expected e = e
branches true false found expected e = refl
branches false goes_down found expected e = refl

set_binding-registered :
    (installed : Bool) (action : ℕ) (b : HotkeyBinding) (m : HotkeyManager)
    → action < 5
    → (set_binding installed action b m).registered ≡ (m.registered && installed)
unfolding set_binding rebind save_settings save_binding
set_binding-registered installed action b m h =
    let inside : ltb action hotkey_action_count ≡ true = ground arith in
    elim (Bool-cases m.registered) [
      | inl on ↦ rw (inside, on, set_binding, rebind) refl
      | inr off ↦ rw (inside, off, set_binding, rebind) refl
    ]

module _ (qt : QtConstants) (win : WinConstants) {N : Type 0} (key_name_text : ℕ → Option N) where
  -- A key pressed in a hotkey field, other than a modifier and other than Escape alone, becomes the
  -- field's binding, which it tells. When this is set for an action, the hooks are installed
  -- exactly if they were before and Windows installs them again. While they are, a message for the
  -- same key with the same modifiers held, in another program's window, emits that action and those
  -- that had this binding before, in order, and no other, if the message is that of a key that goes
  -- down, be it with Alt or without; any other message emits nothing. Without hooks nothing is
  -- emitted.
  pub captured_key_triggers :
      (edit : HotkeyEdit N) (press : Press) (m : HotkeyManager) (installed : Bool) (action : ℕ)
      (key_state : ℕ → ℕ) (w_param : ℕ)
      → action < 5
      → press.code ≢ 0
      → is_modifier_key win press.code ≡ false
      → (press.code ≡ win.vk_escape → hotkey_mods qt win press.modifiers ≢ 0)
      → IsHeld qt win press.modifiers key_state
      → let (edit', told) = key_press_event qt win key_name_text press edit in
        let m' = set_binding installed action edit'.binding m in
        (told ≡ some edit'.binding)
        × (m'.registered ≡ (m.registered && installed))
        × (key_message win false key_state m' w_param press.code ≡ (
            if m.registered && installed
            then if w_param == win.wm_keydown || w_param == win.wm_syskeydown
              then filter (λ i. i == action || same_binding (m.bindings i) edit'.binding) actions
              else []
            else []))
  unfolding key_press_event keyboard_hook_proc
  captured_key_triggers edit press m installed action key_state w_param h some_key plain not_cleared
        held =
      let kept : (press.code == win.vk_escape && hotkey_mods qt win press.modifiers == 0) ≡ false =
        ground (arith, not_cleared) in
      let b : HotkeyBinding = record {
        modifiers = hotkey_mods qt win press.modifiers;
        vk = press.code;
      } in
      let hooked = set_binding-registered installed action b m h in
      let emitted =
        ap (λ n. check_and_trigger false press.code n (set_binding installed action b m))
          (sym (held_mods qt win press.modifiers key_state held))
        ∙ check_set_binding installed action b m h some_key in
      rw (plain, kept, key_press_event, hooked)
        (
          refl,
          refl,
          branches (m.registered && installed)
              (w_param == win.wm_keydown || w_param == win.wm_syskeydown) _ _ emitted,
        )
