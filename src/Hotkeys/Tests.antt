-- ===== src/Hotkeys/Tests.antt =====
-- A binding that is set, saved and loaded again.
use scrambler.Prelude.{
  ◌&&◌, Bool, List, foldl, ℕ, ◌≡◌, refl, ◌||◌, pos, Option, some, none, true, false, [], ◌∷◌, ◌==◌,
  if◌then◌else◌, filter, arith,
}
use scrambler.Hotkeys.{
  HotkeyBinding, HotkeyManager, unbound, set_binding, get_binding, load_settings, check_and_trigger,
  actions,
}
use scrambler.Hotkeys.Keys.{
  QtConstants, WinConstants, Combination, qt_key_to_vk, from_key_sequence, to_key_sequence,
}
use scrambler.Hotkeys.Handles.{no_hooks, remove_all_hooks, install_all_hooks, rebind_hooks}
use scrambler.Hotkeys.Held.{IsHooked, IsReleased, all_installed, hooks_held}
use scrambler.Hotkeys.Hooks.{is_modifier_key, keyboard_hook_proc, key_message, mouse_hook_proc}
use scrambler.Hotkeys.Edit.{HotkeyEdit, Press, key_press_event, mouse_press_event}
use scrambler.Hotkeys.Captured.{IsHeld, same_binding, captured_key_triggers}
use scrambler.Hotkeys.Sequences.{IsKeyboard, held, to-from_key_sequence}
use scrambler.Window.Bindings.{Bindings, load_hotkey_edits, clear_all, all_hotkeys_cleared}

abbrev manager : HotkeyManager
manager = record {
  bindings = λ i. unbound;
  registered = true;
  settings = record { mods_of = λ k. 0; vk_of = λ k. 0 };
}

abbrev key : HotkeyBinding
key = record { modifiers = 2; vk = 112 }

emits_one : check_and_trigger false 112 2 (set_binding true 3 key manager) ≡ 3 ∷ []
unfolding check_and_trigger set_binding
emits_one = refl

abbrev qt : QtConstants
qt = record {
  key_0 = 48;
  key_9 = 57;
  key_a = 65;
  key_z = 90;
  key_f1 = 0x01000030;
  key_f24 = 0x01000047;
  key_space = 32;
  key_return = 0x01000004;
  key_enter = 0x01000005;
  key_escape = 0x01000000;
  key_tab = 0x01000001;
  key_backspace = 0x01000003;
  key_delete = 0x01000007;
  key_insert = 0x01000006;
  key_home = 0x01000010;
  key_end = 0x01000011;
  key_page_up = 0x01000016;
  key_page_down = 0x01000017;
  key_up = 0x01000013;
  key_down = 0x01000015;
  key_left = 0x01000012;
  key_right = 0x01000014;
  key_plus = 43;
  key_minus = 45;
  key_bracket_left = 91;
  key_bracket_right = 93;
  key_semicolon = 59;
  key_apostrophe = 39;
  key_comma = 44;
  key_period = 46;
  key_slash = 47;
  key_backslash = 92;
  key_quote_left = 96;
  control_modifier = 0x04000000;
  alt_modifier = 0x08000000;
  shift_modifier = 0x02000000;
  x_button1 = 8;
  x_button2 = 16;
}

abbrev win : WinConstants
win = record {
  vk_f1 = 112;
  vk_f24 = 135;
  vk_space = 32;
  vk_return = 13;
  vk_escape = 27;
  vk_tab = 9;
  vk_back = 8;
  vk_delete = 46;
  vk_insert = 45;
  vk_home = 36;
  vk_end = 35;
  vk_prior = 33;
  vk_next = 34;
  vk_up = 38;
  vk_down = 40;
  vk_left = 37;
  vk_right = 39;
  vk_oem_plus = 187;
  vk_oem_minus = 189;
  vk_oem_4 = 219;
  vk_oem_6 = 221;
  vk_oem_1 = 186;
  vk_oem_7 = 222;
  vk_oem_comma = 188;
  vk_oem_period = 190;
  vk_oem_2 = 191;
  vk_oem_5 = 220;
  vk_oem_3 = 192;
  vk_control = 17;
  vk_shift = 16;
  vk_menu = 18;
  vk_lcontrol = 162;
  vk_rcontrol = 163;
  vk_lshift = 160;
  vk_rshift = 161;
  vk_lmenu = 164;
  vk_rmenu = 165;
  vk_lbutton = 1;
  vk_rbutton = 2;
  vk_mbutton = 4;
  vk_xbutton1 = 5;
  vk_xbutton2 = 6;
  mod_control = 2;
  mod_alt = 1;
  mod_shift = 4;
  wm_keydown = 256;
  wm_syskeydown = 260;
  wm_lbuttondown = 513;
  wm_rbuttondown = 516;
  wm_mbuttondown = 519;
  wm_xbuttondown = 523;
  xbutton1 = 1;
}

keyboard : IsKeyboard qt win
keyboard = record {
  key_0 = refl;
  key_9 = refl;
  key_a = refl;
  key_z = refl;
  key_f24 = refl;
  vk_f24 = refl;
  vk_f1 = omega arith;
  special = ground arith;
  distinct = ground arith;
  control_modifier = refl;
  alt_modifier = refl;
  shift_modifier = refl;
  mod_control = refl;
  mod_alt = refl;
  mod_shift = refl;
}

supported : qt_key_to_vk qt win 0x0100_0016 ≡ 33
unfolding qt_key_to_vk
supported = refl

-- Page Up with Control and Shift.
to-from_key_sequence_example :
    let combo : Combination = record {
      key = 0x0100_0016;
      keyboard_modifiers = held qt win true false true;
    } in
    to_key_sequence qt win (from_key_sequence qt win (combo ∷ [])) ≡ combo ∷ []
to-from_key_sequence_example =
    to-from_key_sequence qt win keyboard 0x0100_0016 true false true [] (λ e. ground arith)
      (λ e. ground arith) (λ e. ground (arith, supported))

abbrev no_name : ℕ → Option ℕ
no_name vk = none

abbrev edit : HotkeyEdit ℕ
edit = record { binding = unbound; text = [] }

-- Alt and F1.
abbrev press : Press
press = record { code = 112; modifiers = 0x0800_0000 }

abbrev alt_down : ℕ → ℕ
alt_down vk = if vk == 18 then 0x8000 else 0

IsHeld-alt : IsHeld qt win press.modifiers alt_down
IsHeld-alt = record { control = refl; alt = refl; shift = refl }

not_a_modifier : is_modifier_key win 112 ≡ false
unfolding is_modifier_key
not_a_modifier = refl

-- The message for a key that is pressed with Alt, for the action 3.
captured_key_triggers_example :
    let (edit', told) = key_press_event qt win no_name press edit in
    let m' = set_binding true 3 edit'.binding manager in
    (told ≡ some edit'.binding)
    × (m'.registered ≡ (manager.registered && true))
    × (key_message win false alt_down m' 260 112 ≡ (
        if manager.registered && true
        then if 260 == 256 || 260 == 260
          then filter (λ i. i == 3 || same_binding (manager.bindings i) edit'.binding) actions
          else []
        else []))
captured_key_triggers_example =
    captured_key_triggers qt win no_name edit press manager true 3 alt_down 260 (omega arith)
      (λ e. ground arith) not_a_modifier (λ e. ground arith) IsHeld-alt

with_alt :
    key_message win false alt_down
      (set_binding true 3 (key_press_event qt win no_name press edit).0.binding manager)
      260
      112
    ≡ 3 ∷ []
unfolding key_press_event keyboard_hook_proc set_binding
with_alt = refl

-- Escape alone clears the field; the fourth mouse button is captured and found.
cleared :
    key_press_event qt win no_name (record { code = 27; modifiers = 0 }) edit ≡ (edit, some unbound)
unfolding key_press_event
cleared = refl

mouse_found :
    let (edit', told) =
      mouse_press_event qt win no_name (record { code = 8; modifiers = 0 }) edit in
    mouse_hook_proc win false
      (λ vk. 0)
      (some (set_binding true 1 edit'.binding manager))
      (pos 0)
      523
      0x0001_0000
    ≡ 1 ∷ []
unfolding mouse_press_event mouse_hook_proc set_binding
mouse_found = refl

abbrev bound : Bindings ℕ
bound = load_hotkey_edits qt win no_name (set_binding true 3 key manager)

-- The binding of the action 3 is gone.
all_hotkeys_cleared_example :
    let cleared = clear_all qt win no_name false bound in
    (check_and_trigger false 112 2 cleared.manager ≡ [])
    × (cleared.edits 3 ≡ record { binding = unbound; text = [] })
    × (get_binding (load_settings (record manager { settings = cleared.manager.settings })) 3
        ≡ unbound)
all_hotkeys_cleared_example =
    all_hotkeys_cleared qt win no_name false bound manager false 112 2 3 (omega arith)

-- The mouse hook fails on the second time, and no hooks are installed on the third.
abbrev answers : List (Bool × Bool)
answers = (true, true) ∷ (true, false) ∷ (true, true) ∷ []

hooks_held_example :
    let s = foldl rebind_hooks (install_all_hooks true true no_hooks) answers in
    IsHooked s
    × (s.registered ≡ all_installed ((true, true) ∷ answers))
    × IsReleased (remove_all_hooks s)
hooks_held_example = hooks_held true true answers

off_for_good :
    (foldl rebind_hooks (install_all_hooks true true no_hooks) answers).registered ≡ false
unfolding rebind_hooks install_all_hooks
off_for_good = refl
