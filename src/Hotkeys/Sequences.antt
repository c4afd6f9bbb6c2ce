-- ===== src/Hotkeys/Sequences.antt =====
-- Key sequences and bindings back and forth.
use scrambler.Prelude.{
  ℕ, ◌+◌, ◌-◌, ◌<◌, ◌≡◌, ◌≢◌, refl, ◌∙◌, inl, inr, Bool, Bool-cases, true, false, List, [], ◌∷◌,
  map, ◌==◌, bit_or, if◌then◌else◌, All, arith,
}
use scrambler.Hotkeys.Keys.{
  QtConstants, WinConstants, Combination, between, switch_on, carry_flag, other_keys, qt_cases,
  vk_cases, qt_key_to_vk, vk_to_qt_key, qt_mods_to_win32, win32_mods_to_qt, from_key_sequence,
  to_key_sequence,
}
use scrambler.Hotkeys.Switches.{flip, IsDistinct, switch_on-All, switch_on-flip, isnt_zero}

-- The flags of Qt and of Windows, for each choice of modifiers.
abbrev carried : (mods c a s c' a' s' : ℕ) → ℕ
carried mods c a s c' a' s' = carry_flag mods s s' (carry_flag mods a a' (carry_flag mods c c' 0))

abbrev held_with : (c a s : ℕ) (control alt shift : Bool) → ℕ
held_with c a s control alt shift =
    let with_control = if control then bit_or 0 c else 0 in
    let with_alt = if alt then bit_or with_control a else with_control in
    if shift then bit_or with_alt s else with_alt

each_modifier :
    (control alt shift : Bool)
    → let mods = held_with 0x0400_0000 0x0800_0000 0x0200_0000 control alt shift in
      carried
        (carried mods 0x0400_0000 0x0800_0000 0x0200_0000 2 1 4)
        2
        1
        4
        0x0400_0000
        0x0800_0000
        0x0200_0000
      ≡ mods
each_modifier true true true = refl
each_modifier true true false = refl
each_modifier true false true = refl
each_modifier true false false = refl
each_modifier false true true = refl
each_modifier false true false = refl
each_modifier false false true = refl
each_modifier false false false = refl

-- A function key is one of 24.
function_there :
    (key f₁ f₂₄ v₁ v₂₄ : ℕ)
    → f₂₄ ≡ f₁ + 23
    → v₂₄ ≡ v₁ + 23
    → 90 < v₁
    → between f₁ f₂₄ key ≡ true
    → let vk = v₁ + (key - f₁) in
      (between 48 57 vk ≡ false)
      × (between 65 90 vk ≡ false)
      × (between v₁ v₂₄ vk ≡ true)
      × (f₁ + (vk - v₁) ≡ key)
function_there key f₁ f₂₄ v₁ v₂₄ e e' lt h =
    (ground arith, ground arith, ground arith, ground arith)

module _ (qt : QtConstants) (win : WinConstants) where
  -- The keys and their numbers in Windows, less the Enter key of the number pad, which has the
  -- number of Return.
  abbrev pub both_ways : List (ℕ × ℕ)
  both_ways = (qt.key_space, win.vk_space) ∷ (qt.key_return, win.vk_return) ∷ other_keys qt win

  -- One switch reads the same pairs as the other, the other way round.
  vk_cases-flip : vk_cases qt win ≡ map flip both_ways
  vk_cases-flip = refl

  -- The numbers of modifiers that are held.
  abbrev pub held : (control alt shift : Bool) → ℕ
  held = held_with qt.control_modifier qt.alt_modifier qt.shift_modifier

  -- A key of Windows that is neither a digit, a letter nor a function key.
  abbrev pub IsSpecial : ℕ → Type 0
  IsSpecial vk =
      (between 48 57 vk ≡ false)
      × (between 65 90 vk ≡ false)
      × (between win.vk_f1 win.vk_f24 vk ≡ false)

  -- What the headers of Qt and Windows say of the numbers.
  pub record IsKeyboard : Type 0 where
    pub key_0 : qt.key_0 ≡ 48
    pub key_9 : qt.key_9 ≡ 57
    pub key_a : qt.key_a ≡ 65
    pub key_z : qt.key_z ≡ 90
    pub key_f24 : qt.key_f24 ≡ qt.key_f1 + 23
    pub vk_f24 : win.vk_f24 ≡ win.vk_f1 + 23
    pub vk_f1 : 90 < win.vk_f1
    pub special : All (λ p. IsSpecial p.1) both_ways
    pub distinct : IsDistinct both_ways
    pub control_modifier : qt.control_modifier ≡ 0x0400_0000
    pub alt_modifier : qt.alt_modifier ≡ 0x0800_0000
    pub shift_modifier : qt.shift_modifier ≡ 0x0200_0000
    pub mod_control : win.mod_control ≡ 2
    pub mod_alt : win.mod_alt ≡ 1
    pub mod_shift : win.mod_shift ≡ 4

  module _ (k : IsKeyboard) where
    mods_there_and_back :
        (control alt shift : Bool)
        → win32_mods_to_qt qt win (qt_mods_to_win32 qt win (held control alt shift))
          ≡ held control alt shift
    unfolding win32_mods_to_qt qt_mods_to_win32
    mods_there_and_back control alt shift =
        rw
          (
            k.control_modifier, k.alt_modifier, k.shift_modifier, k.mod_control, k.mod_alt,
            k.mod_shift,
          )
          (each_modifier control alt shift)

    without_enter :
        (key : ℕ) → key ≢ qt.key_enter → switch_on key (qt_cases qt win) ≡ switch_on key both_ways
    unfolding switch_on
    without_enter key h =
        let other : (key == qt.key_enter) ≡ false = ground (arith, h) in rw other refl

    from_digit : (key : ℕ) → between qt.key_0 qt.key_9 key ≡ true → qt_key_to_vk qt win key ≡ key
    unfolding qt_key_to_vk
    from_digit key digit = rw (digit, qt_key_to_vk) refl

    from_letter :
        (key : ℕ)
        → between qt.key_0 qt.key_9 key ≡ false
        → between qt.key_a qt.key_z key ≡ true
        → qt_key_to_vk qt win key ≡ key
    unfolding qt_key_to_vk
    from_letter key no_digit letter = rw (no_digit, letter, qt_key_to_vk) refl

    from_function :
        (key : ℕ)
        → between qt.key_0 qt.key_9 key ≡ false
        → between qt.key_a qt.key_z key ≡ false
        → between qt.key_f1 qt.key_f24 key ≡ true
        → qt_key_to_vk qt win key ≡ win.vk_f1 + (key - qt.key_f1)
    unfolding qt_key_to_vk
    from_function key no_digit no_letter function =
        rw (no_digit, no_letter, function, qt_key_to_vk) refl

    from_other :
        (key : ℕ)
        → key ≢ qt.key_enter
        → between qt.key_0 qt.key_9 key ≡ false
        → between qt.key_a qt.key_z key ≡ false
        → between qt.key_f1 qt.key_f24 key ≡ false
        → qt_key_to_vk qt win key ≡ switch_on key both_ways
    unfolding qt_key_to_vk
    from_other key h no_digit no_letter other =
        rw (no_digit, no_letter, other, qt_key_to_vk) (without_enter key h)

    to_digit : (vk : ℕ) → between 48 57 vk ≡ true → vk_to_qt_key qt win vk ≡ qt.key_0 + (vk - 48)
    unfolding vk_to_qt_key
    to_digit vk digit = rw (digit, vk_to_qt_key) refl

    to_letter :
        (vk : ℕ)
        → between 48 57 vk ≡ false
        → between 65 90 vk ≡ true
        → vk_to_qt_key qt win vk ≡ qt.key_a + (vk - 65)
    unfolding vk_to_qt_key
    to_letter vk no_digit letter = rw (no_digit, letter, vk_to_qt_key) refl

    to_function :
        (vk : ℕ)
        → between 48 57 vk ≡ false
        → between 65 90 vk ≡ false
        → between win.vk_f1 win.vk_f24 vk ≡ true
        → vk_to_qt_key qt win vk ≡ qt.key_f1 + (vk - win.vk_f1)
    unfolding vk_to_qt_key
    to_function vk no_digit no_letter function =
        rw (no_digit, no_letter, function, vk_to_qt_key) refl

    to_other : (vk : ℕ) → IsSpecial vk → vk_to_qt_key qt win vk ≡ switch_on vk (map flip both_ways)
    unfolding vk_to_qt_key
    to_other vk s = rw (s.0, s.1, s.2, vk_to_qt_key) refl

    key_there_and_back :
        (key : ℕ)
        → key ≢ qt.key_enter
        → qt_key_to_vk qt win key ≢ 0
        → vk_to_qt_key qt win (qt_key_to_vk qt win key) ≡ key
    key_there_and_back key h found = elim (Bool-cases (between qt.key_0 qt.key_9 key)) [
      | inl digit ↦ rw (from_digit key digit) (
          to_digit key (ground (arith, digit, k.key_0, k.key_9))
          ∙ ground (arith, digit, k.key_0, k.key_9))
      | inr no_digit ↦ elim (Bool-cases (between qt.key_a qt.key_z key)) [
        | inl letter ↦ rw (from_letter key no_digit letter) (
            to_letter key (ground (arith, letter, k.key_a, k.key_z))
              (ground (arith, letter, k.key_a, k.key_z))
            ∙ ground (arith, letter, k.key_a, k.key_z))
        | inr no_letter ↦ elim (Bool-cases (between qt.key_f1 qt.key_f24 key)) [
          | inl function ↦
              let (no_digit', no_letter', function', back) =
                function_there key qt.key_f1 qt.key_f24 win.vk_f1 win.vk_f24 k.key_f24 k.vk_f24
                  k.vk_f1 function in
              rw (from_function key no_digit no_letter function)
                (to_function _ no_digit' no_letter' function' ∙ back)
          | inr other ↦
              let by_switch = from_other key h no_digit no_letter other in
              let some_key : switch_on key both_ways ≢ 0 = rw by_switch at found in
              rw by_switch (
                to_other _ (switch_on-All IsSpecial key both_ways k.special some_key)
                ∙ switch_on-flip key both_ways k.distinct some_key)
        ]
      ]
    ]

    -- A key sequence that begins with a key the program supports, other than the Enter of the
    -- number pad, and with Control, Alt and Shift held or not, is made into a binding and back
    -- into a sequence of this one combination: neither its key nor a modifier is lost.
    pub to-from_key_sequence :
        (key : ℕ) (control alt shift : Bool) (rest : List Combination)
        → key ≢ 0
        → key ≢ qt.key_enter
        → qt_key_to_vk qt win key ≢ 0
        → let combo : Combination = record {
          key = key;
          keyboard_modifiers = held control alt shift;
        } in
          to_key_sequence qt win (from_key_sequence qt win (combo ∷ rest)) ≡ combo ∷ []
    unfolding to_key_sequence from_key_sequence
    to-from_key_sequence key control alt shift rest some_key h found =
        let valid : (qt_key_to_vk qt win key == 0) ≡ false = isnt_zero _ found in
        let back = key_there_and_back key h found in
        let known : (key == 0) ≡ false = isnt_zero key some_key in
        let mods = mods_there_and_back control alt shift in rw (valid, back, known, mods) refl
