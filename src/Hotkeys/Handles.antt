-- ===== src/Hotkeys/Handles.antt =====
-- The hooks of `HotkeyManager` by their handles. What is called of Windows is recorded in
-- order; Windows gives every hook that it installs a handle of its own, the next number.
use scrambler.Prelude.{
  ℕ, ◌+◌, Bool, true, false, ◌&&◌, Option, none, some, List, [], ◌∷◌, ◌++◌, if◌then◌else◌,
}

pub data HookCall : Type 0 where
  installs unhooks : ℕ → HookCall

pub record Hooks : Type 0 where
  pub keyboard_hook : Option ℕ
  pub mouse_hook : Option ℕ
  pub registered : Bool
  pub next_handle : ℕ
  pub calls : List HookCall

abbrev pub no_hooks : Hooks
no_hooks = record {
  keyboard_hook = none;
  mouse_hook = none;
  registered = false;
  next_handle = 0;
  calls = [];
}

-- A hook that is let go if there is one: an exchange with its test, and `HookCloser`.
unfoldable pub unhook : Option ℕ → Hooks → Hooks
unhook none s = s
unhook (some h) s = record s { calls = s.calls ++ unhooks h ∷ [] }

-- `SetWindowsHookEx`.
unfoldable pub set_windows_hook : (succeeds : Bool) → Hooks → Option ℕ × Hooks
set_windows_hook false s = (none, s)
set_windows_hook true s = (
  some s.next_handle,
  record s { next_handle = s.next_handle + 1; calls = s.calls ++ installs s.next_handle ∷ [] },
)

unfoldable pub remove_all_hooks : Hooks → Hooks
unfolding unhook
remove_all_hooks s =
    let s₁ = unhook s.keyboard_hook (record s { keyboard_hook = none }) in
    let s₂ = unhook s₁.mouse_hook (record s₁ { mouse_hook = none }) in
    record s₂ { registered = false }

-- `InstallHooks`; the hooks that are not kept are let go in the reverse order.
unfoldable pub install_all_hooks : (keyboard mouse : Bool) → Hooks → Hooks
unfolding remove_all_hooks set_windows_hook unhook
install_all_hooks keyboard mouse s =
    let (kb, s₁) = set_windows_hook keyboard (remove_all_hooks s) in
    let (ms, s₂) = set_windows_hook mouse s₁ in
    if keyboard && mouse
    then record s₂ { keyboard_hook = kb; mouse_hook = ms; registered = true }
    else unhook kb
        (unhook ms (record s₂ { keyboard_hook = none; mouse_hook = none; registered = false }))

-- What `SetBinding` does to the hooks, with what Windows answers.
unfoldable pub rebind_hooks : Hooks → Bool × Bool → Hooks
unfolding remove_all_hooks install_all_hooks
rebind_hooks s (keyboard, mouse) =
    if s.registered then install_all_hooks keyboard mouse (remove_all_hooks s) else s
