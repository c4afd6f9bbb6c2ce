-- ===== src/Hotkeys/Hooks.antt =====
-- The hooks of src/ui/HotkeyManager.cpp: `GetCurrentModifiers`, `KeyboardHookProc` and
-- `MouseHookProc`. The result is the actions that are emitted, in order; the call of the next hook
-- is always made.
use scrambler.Prelude.{
  ℕ, ◌/◌, ◌%◌, ◌^◌, ℤ, pos, negsuc, Bool, true, false, not, ◌&&◌, ◌||◌, Option, none, some, List,
  [], ◌==◌, if◌then◌else◌,
}
use scrambler.Hotkeys.{HotkeyManager, check_and_trigger}
use scrambler.Hotkeys.Keys.{WinConstants, carry_flag}

abbrev pub is_negative : ℤ → Bool
is_negative (pos n) = false
is_negative (negsuc n) = true

module _ (win : WinConstants) where
  -- `key_state` is `GetAsyncKeyState`, a number of 16 bits.
  unfoldable pub get_current_modifiers : (key_state : ℕ → ℕ) → ℕ
  get_current_modifiers key_state = carry_flag (key_state win.vk_menu) 0x8000 win.mod_alt (
      carry_flag (key_state win.vk_shift) 0x8000 win.mod_shift
        (carry_flag (key_state win.vk_control) 0x8000 win.mod_control 0))

  unfoldable pub is_modifier_key : ℕ → Bool
  is_modifier_key vk =
      vk == win.vk_control
      || (vk == win.vk_shift
          || (vk == win.vk_menu
              || (vk == win.vk_lcontrol
                  || (vk == win.vk_rcontrol
                      || (vk == win.vk_lshift
                          || (vk == win.vk_rshift
                              || (vk == win.vk_lmenu || vk == win.vk_rmenu)))))))

  module _ (in_foreground : Bool) (key_state : ℕ → ℕ) where
    -- `vk_code` is that of the structure the hook is given.
    unfoldable pub keyboard_hook_proc : Option HotkeyManager → ℤ → (w_param vk_code : ℕ) → List ℕ
    unfolding get_current_modifiers is_modifier_key check_and_trigger
    keyboard_hook_proc none n_code w_param vk_code = []
    keyboard_hook_proc (some inst) n_code w_param vk_code =
        if not (is_negative n_code)
          && ((w_param == win.wm_keydown || w_param == win.wm_syskeydown)
              && not (is_modifier_key vk_code))
        then check_and_trigger in_foreground vk_code (get_current_modifiers key_state) inst
        else []

    -- Windows calls a hook while it is installed, here with a message that may be processed.
    abbrev pub key_message : HotkeyManager → (w_param vk_code : ℕ) → List ℕ
    key_message m w_param vk_code =
        if m.registered then keyboard_hook_proc (some m) (pos 0) w_param vk_code else []

    -- The button of a mouse message, 0 for none.
    unfoldable pub mouse_button : (w_param mouse_data : ℕ) → ℕ
    mouse_button w_param mouse_data =
        if w_param == win.wm_lbuttondown
        then win.vk_lbutton
        else if w_param == win.wm_rbuttondown
        then win.vk_rbutton
        else if w_param == win.wm_mbuttondown
        then win.vk_mbutton
        else if w_param == win.wm_xbuttondown
        then if mouse_data / 2 ^ 16 % 2 ^ 16 == win.xbutton1
          then win.vk_xbutton1
          else win.vk_xbutton2
        else 0

    unfoldable pub mouse_hook_proc : Option HotkeyManager → ℤ → (w_param mouse_data : ℕ) → List ℕ
    unfolding get_current_modifiers mouse_button check_and_trigger
    mouse_hook_proc none n_code w_param mouse_data = []
    mouse_hook_proc (some inst) n_code w_param mouse_data =
        let vk = mouse_button w_param mouse_data in
        if not (is_negative n_code) && not (vk == 0)
        then check_and_trigger in_foreground vk (get_current_modifiers key_state) inst
        else []
