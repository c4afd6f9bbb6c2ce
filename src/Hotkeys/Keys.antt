-- ===== src/Hotkeys/Keys.antt =====
-- Keys and modifiers in Qt's numbers and in those of Windows: `QtKeyToVk`, `VkToQtKey`,
-- `QtModsToWin32`, `Win32ModsToQt` and the key sequences of src/ui/HotkeyManager.cpp. The numbers
-- themselves come from headers of Qt and Windows and are parameters.
use scrambler.Prelude.{
  ℕ, ◌+◌, ◌-◌, Bool, not, ◌&&◌, List, [], ◌∷◌, leb, ◌==◌, bit_and, bit_or, if◌then◌else◌,
}
use scrambler.Hotkeys.{HotkeyBinding, unbound, is_valid}

pub record QtConstants : Type 0 where
  pub key_0 : ℕ
  pub key_9 : ℕ
  pub key_a : ℕ
  pub key_z : ℕ
  pub key_f1 : ℕ
  pub key_f24 : ℕ
  pub key_space : ℕ
  pub key_return : ℕ
  pub key_enter : ℕ
  pub key_escape : ℕ
  pub key_tab : ℕ
  pub key_backspace : ℕ
  pub key_delete : ℕ
  pub key_insert : ℕ
  pub key_home : ℕ
  pub key_end : ℕ
  pub key_page_up : ℕ
  pub key_page_down : ℕ
  pub key_up : ℕ
  pub key_down : ℕ
  pub key_left : ℕ
  pub key_right : ℕ
  pub key_plus : ℕ
  pub key_minus : ℕ
  pub key_bracket_left : ℕ
  pub key_bracket_right : ℕ
  pub key_semicolon : ℕ
  pub key_apostrophe : ℕ
  pub key_comma : ℕ
  pub key_period : ℕ
  pub key_slash : ℕ
  pub key_backslash : ℕ
  pub key_quote_left : ℕ
  pub control_modifier : ℕ
  pub alt_modifier : ℕ
  pub shift_modifier : ℕ
  pub x_button1 : ℕ
  pub x_button2 : ℕ

pub record WinConstants : Type 0 where
  pub vk_f1 : ℕ
  pub vk_f24 : ℕ
  pub vk_space : ℕ
  pub vk_return : ℕ
  pub vk_escape : ℕ
  pub vk_tab : ℕ
  pub vk_back : ℕ
  pub vk_delete : ℕ
  pub vk_insert : ℕ
  pub vk_home : ℕ
  pub vk_end : ℕ
  pub vk_prior : ℕ
  pub vk_next : ℕ
  pub vk_up : ℕ
  pub vk_down : ℕ
  pub vk_left : ℕ
  pub vk_right : ℕ
  pub vk_oem_plus : ℕ
  pub vk_oem_minus : ℕ
  pub vk_oem_4 : ℕ
  pub vk_oem_6 : ℕ
  pub vk_oem_1 : ℕ
  pub vk_oem_7 : ℕ
  pub vk_oem_comma : ℕ
  pub vk_oem_period : ℕ
  pub vk_oem_2 : ℕ
  pub vk_oem_5 : ℕ
  pub vk_oem_3 : ℕ
  pub vk_control : ℕ
  pub vk_shift : ℕ
  pub vk_menu : ℕ
  pub vk_lcontrol : ℕ
  pub vk_rcontrol : ℕ
  pub vk_lshift : ℕ
  pub vk_rshift : ℕ
  pub vk_lmenu : ℕ
  pub vk_rmenu : ℕ
  pub vk_lbutton : ℕ
  pub vk_rbutton : ℕ
  pub vk_mbutton : ℕ
  pub vk_xbutton1 : ℕ
  pub vk_xbutton2 : ℕ
  pub mod_control : ℕ
  pub mod_alt : ℕ
  pub mod_shift : ℕ
  pub wm_keydown : ℕ
  pub wm_syskeydown : ℕ
  pub wm_lbuttondown : ℕ
  pub wm_rbuttondown : ℕ
  pub wm_mbuttondown : ℕ
  pub wm_xbuttondown : ℕ
  pub xbutton1 : ℕ

abbrev pub between : ℕ → ℕ → ℕ → Bool
between low high n = leb low n && leb n high

-- A switch on a key, as the list of its cases; 0 is its default.
unfoldable pub switch_on : ℕ → List (ℕ × ℕ) → ℕ
switch_on key [] = 0
switch_on key ((label, value) ∷ cases) = if key == label then value else switch_on key cases

-- A bit of `source`, as a bit of the result.
abbrev pub carry_flag : (source flag target result : ℕ) → ℕ
carry_flag source flag target result =
    if not (bit_and source flag == 0) then bit_or result target else result

pub record Combination : Type 0 where
  pub key : ℕ
  pub keyboard_modifiers : ℕ

module _ (qt : QtConstants) (win : WinConstants) where
  -- The cases of `QtKeyToVk` after Enter.
  abbrev pub other_keys : List (ℕ × ℕ)
  other_keys =
      (qt.key_escape, win.vk_escape)
      ∷ (qt.key_tab, win.vk_tab)
      ∷ (qt.key_backspace, win.vk_back)
      ∷ (qt.key_delete, win.vk_delete)
      ∷ (qt.key_insert, win.vk_insert)
      ∷ (qt.key_home, win.vk_home)
      ∷ (qt.key_end, win.vk_end)
      ∷ (qt.key_page_up, win.vk_prior)
      ∷ (qt.key_page_down, win.vk_next)
      ∷ (qt.key_up, win.vk_up)
      ∷ (qt.key_down, win.vk_down)
      ∷ (qt.key_left, win.vk_left)
      ∷ (qt.key_right, win.vk_right)
      ∷ (qt.key_plus, win.vk_oem_plus)
      ∷ (qt.key_minus, win.vk_oem_minus)
      ∷ (qt.key_bracket_left, win.vk_oem_4)
      ∷ (qt.key_bracket_right, win.vk_oem_6)
      ∷ (qt.key_semicolon, win.vk_oem_1)
      ∷ (qt.key_apostrophe, win.vk_oem_7)
      ∷ (qt.key_comma, win.vk_oem_comma)
      ∷ (qt.key_period, win.vk_oem_period)
      ∷ (qt.key_slash, win.vk_oem_2)
      ∷ (qt.key_backslash, win.vk_oem_5)
      ∷ (qt.key_quote_left, win.vk_oem_3)
      ∷ []

  -- The cases of `QtKeyToVk`.
  abbrev pub qt_cases : List (ℕ × ℕ)
  qt_cases =
      (qt.key_space, win.vk_space)
      ∷ (qt.key_return, win.vk_return)
      ∷ (qt.key_enter, win.vk_return)
      ∷ other_keys

  -- The cases of `VkToQtKey`.
  abbrev pub vk_cases : List (ℕ × ℕ)
  vk_cases =
      (win.vk_space, qt.key_space)
      ∷ (win.vk_return, qt.key_return)
      ∷ (win.vk_escape, qt.key_escape)
      ∷ (win.vk_tab, qt.key_tab)
      ∷ (win.vk_back, qt.key_backspace)
      ∷ (win.vk_delete, qt.key_delete)
      ∷ (win.vk_insert, qt.key_insert)
      ∷ (win.vk_home, qt.key_home)
      ∷ (win.vk_end, qt.key_end)
      ∷ (win.vk_prior, qt.key_page_up)
      ∷ (win.vk_next, qt.key_page_down)
      ∷ (win.vk_up, qt.key_up)
      ∷ (win.vk_down, qt.key_down)
      ∷ (win.vk_left, qt.key_left)
      ∷ (win.vk_right, qt.key_right)
      ∷ (win.vk_oem_plus, qt.key_plus)
      ∷ (win.vk_oem_minus, qt.key_minus)
      ∷ (win.vk_oem_4, qt.key_bracket_left)
      ∷ (win.vk_oem_6, qt.key_bracket_right)
      ∷ (win.vk_oem_1, qt.key_semicolon)
      ∷ (win.vk_oem_7, qt.key_apostrophe)
      ∷ (win.vk_oem_comma, qt.key_comma)
      ∷ (win.vk_oem_period, qt.key_period)
      ∷ (win.vk_oem_2, qt.key_slash)
      ∷ (win.vk_oem_5, qt.key_backslash)
      ∷ (win.vk_oem_3, qt.key_quote_left)
      ∷ []

  unfoldable pub qt_key_to_vk : ℕ → ℕ
  unfolding switch_on
  qt_key_to_vk key =
      if between qt.key_0 qt.key_9 key
      then key
      else if between qt.key_a qt.key_z key
      then key
      else if between qt.key_f1 qt.key_f24 key
      then win.vk_f1 + (key - qt.key_f1)
      else switch_on key qt_cases

  -- 48 to 57 are the digits of ASCII, 65 to 90 its capital letters.
  unfoldable pub vk_to_qt_key : ℕ → ℕ
  unfolding switch_on
  vk_to_qt_key vk =
      if between 48 57 vk
      then qt.key_0 + (vk - 48)
      else if between 65 90 vk
      then qt.key_a + (vk - 65)
      else if between win.vk_f1 win.vk_f24 vk
      then qt.key_f1 + (vk - win.vk_f1)
      else switch_on vk vk_cases

  unfoldable pub qt_mods_to_win32 : ℕ → ℕ
  qt_mods_to_win32 mods = carry_flag mods qt.shift_modifier win.mod_shift (
      carry_flag mods qt.alt_modifier win.mod_alt
        (carry_flag mods qt.control_modifier win.mod_control 0))

  unfoldable pub win32_mods_to_qt : ℕ → ℕ
  win32_mods_to_qt mods = carry_flag mods win.mod_shift qt.shift_modifier (
      carry_flag mods win.mod_alt qt.alt_modifier
        (carry_flag mods win.mod_control qt.control_modifier 0))

  unfoldable pub from_key_sequence : List Combination → HotkeyBinding
  unfolding qt_key_to_vk qt_mods_to_win32
  from_key_sequence [] = unbound
  from_key_sequence (combo ∷ rest) = record {
    modifiers = qt_mods_to_win32 combo.keyboard_modifiers;
    vk = qt_key_to_vk combo.key;
  }

  unfoldable pub to_key_sequence : HotkeyBinding → List Combination
  unfolding vk_to_qt_key win32_mods_to_qt
  to_key_sequence binding =
      if not (is_valid binding)
      then []
      else if vk_to_qt_key binding.vk == 0
      then []
      else record {
        key = vk_to_qt_key binding.vk;
        keyboard_modifiers = win32_mods_to_qt binding.modifiers;
      }
        ∷ []
