-- ===== src/Hotkeys/Edit.antt =====
-- include/ui/HotkeyEdit.h: the field that takes a binding from a key or a mouse button.
use scrambler.Prelude.{
  ℕ, not, ◌&&◌, Option, none, some, List, [], ◌∷◌, ◌++◌, ◌==◌, bit_and, if◌then◌else◌,
}
use scrambler.Hotkeys.{HotkeyBinding, unbound, is_valid}
use scrambler.Hotkeys.Keys.{QtConstants, WinConstants, carry_flag}
use scrambler.Hotkeys.Hooks.{is_modifier_key}

-- A part of the text of a binding; the text joins its parts by a plus. `N` is the type of the names
-- that Windows has for keys.
pub data Part (N : Type 0) : Type 0 where
  ctrl alt shift left_click right_click middle_click mouse_4 mouse_5 : Part N
  key_name : N → Part N
  number : ℕ → Part N

pub record HotkeyEdit (N : Type 0) : Type 0 where
  pub binding : HotkeyBinding
  pub text : List (Part N)

-- A press on the field: the button or the key's virtual key, and the modifiers.
pub record Press : Type 0 where
  pub code : ℕ
  pub modifiers : ℕ

abbrev named_or_number : {N : Type 0} → ℕ → Option N → Part N
named_or_number vk none = number vk
named_or_number vk (some name) = key_name name

module _ (win : WinConstants) {N : Type 0} (key_name_text : ℕ → Option N) where
  unfoldable pub name_of : ℕ → Part N
  name_of vk =
      if vk == win.vk_lbutton
      then left_click
      else if vk == win.vk_rbutton
      then right_click
      else if vk == win.vk_mbutton
      then middle_click
      else if vk == win.vk_xbutton1
      then mouse_4
      else if vk == win.vk_xbutton2
      then mouse_5
      else named_or_number vk (key_name_text vk)

  -- A part for a modifier that is set.
  abbrev part_if : (mods flag : ℕ) → Part N → List (Part N)
  part_if mods flag part = if not (bit_and mods flag == 0) then part ∷ [] else []

  unfoldable pub binding_to_string : HotkeyBinding → List (Part N)
  unfolding name_of
  binding_to_string b =
      if not (is_valid b)
      then []
      else part_if b.modifiers win.mod_control ctrl
        ++ part_if b.modifiers win.mod_alt alt
        ++ part_if b.modifiers win.mod_shift shift
        ++ name_of b.vk ∷ []

module _ (qt : QtConstants) (win : WinConstants) where
  -- The modifiers of a press, in the flags of Windows.
  unfoldable pub hotkey_mods : ℕ → ℕ
  hotkey_mods mods = carry_flag mods qt.alt_modifier win.mod_alt (
      carry_flag mods qt.shift_modifier win.mod_shift
        (carry_flag mods qt.control_modifier win.mod_control 0))

module _ (qt : QtConstants) (win : WinConstants) {N : Type 0} (key_name_text : ℕ → Option N) where
  -- The field takes a binding and tells it; what it tells is the second part of a result.
  abbrev take_binding : HotkeyBinding → HotkeyEdit N × Option HotkeyBinding
  take_binding b = (record { binding = b; text = binding_to_string win key_name_text b }, some b)

  unfoldable pub set_edit_binding : HotkeyBinding → HotkeyEdit N
  unfolding binding_to_string
  set_edit_binding b = record { binding = b; text = binding_to_string win key_name_text b }

  unfoldable pub mouse_press_event : Press → HotkeyEdit N → HotkeyEdit N × Option HotkeyBinding
  unfolding hotkey_mods binding_to_string
  mouse_press_event p e =
      if p.code == qt.x_button1
      then take_binding
          (record { modifiers = hotkey_mods qt win p.modifiers; vk = win.vk_xbutton1 })
      else if p.code == qt.x_button2
      then take_binding
          (record { modifiers = hotkey_mods qt win p.modifiers; vk = win.vk_xbutton2 })
      else (e, none)

  unfoldable pub key_press_event : Press → HotkeyEdit N → HotkeyEdit N × Option HotkeyBinding
  unfolding hotkey_mods binding_to_string is_modifier_key
  key_press_event p e =
      if is_modifier_key win p.code
      then (e, none)
      else if p.code == win.vk_escape && hotkey_mods qt win p.modifiers == 0
      then (record { binding = unbound; text = [] }, some unbound)
      else take_binding (record { modifiers = hotkey_mods qt win p.modifiers; vk = p.code })
