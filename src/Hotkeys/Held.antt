-- ===== src/Hotkeys/Held.antt =====
-- Which hooks the manager holds.
use scrambler.Prelude.{
  ℕ, ◌+◌, ◌≡◌, refl, ◌∙◌, ap, Bool, true, false, ◌&&◌, Option, none, some, List, [], ◌∷◌, ◌++◌,
  foldl, ◌==◌, ==_refl, if◌then◌else◌, arith,
}
use scrambler.Hotkeys.Handles.{
  HookCall, installs, unhooks, Hooks, no_hooks, unhook, set_windows_hook, remove_all_hooks,
  install_all_hooks, rebind_hooks,
}

-- The hooks that are installed, without one of them; `none` if it is not installed.
abbrev without : ℕ → List ℕ → Option (List ℕ)
without h [] = none
without h (x ∷ xs) =
    if x == h then some xs else elim (without h xs) [ none ↦ none | some ys ↦ some (x ∷ ys) ]

abbrev after_call : Option (List ℕ) → HookCall → Option (List ℕ)
after_call none c = none
after_call (some hs) (installs h) = some (h ∷ hs)
after_call (some hs) (unhooks h) = without h hs

-- What is installed after the calls, the newest first; `none` if a hook was let go that was not
-- installed.
abbrev pub installed_after : List HookCall → Option (List ℕ)
installed_after calls = foldl after_call (some []) calls

one_call :
    (calls : List HookCall) (c : HookCall) (hs : Option (List ℕ))
    → foldl after_call hs (calls ++ c ∷ []) ≡ after_call (foldl after_call hs calls) c
one_call [] c hs = refl
one_call (x ∷ calls) c hs = one_call calls c (after_call hs x)

-- The manager holds both hooks and is registered, or has none and is not, and what it has
-- is what is installed.
pub data IsHooked (s : Hooks) : Type 0 where
  released :
      s.keyboard_hook ≡ none
      → s.mouse_hook ≡ none
      → s.registered ≡ false
      → installed_after s.calls ≡ some []
      → IsHooked s
  held :
      (k m : ℕ)
      → s.keyboard_hook ≡ some k
      → s.mouse_hook ≡ some m
      → s.registered ≡ true
      → installed_after s.calls ≡ some (m ∷ k ∷ [])
      → (m == k) ≡ false
      → IsHooked s

-- Nothing is held.
pub record IsReleased (s : Hooks) : Type 0 where
  pub keyboard : s.keyboard_hook ≡ none
  pub mouse : s.mouse_hook ≡ none
  pub not_registered : s.registered ≡ false
  pub nothing_installed : installed_after s.calls ≡ some []

IsReleased-IsHooked : (s : Hooks) → IsReleased s → IsHooked s
IsReleased-IsHooked s r = released r.keyboard r.mouse r.not_registered r.nothing_installed

remove-IsReleased : (s : Hooks) → IsHooked s → IsReleased (remove_all_hooks s)
unfolding remove_all_hooks unhook
remove-IsReleased s (released kb ms off nothing) =
    let same : remove_all_hooks s
        ≡ record s { keyboard_hook = none; mouse_hook = none; registered = false } =
      rw (kb, ms, remove_all_hooks, unhook) refl in
    rw same
      (record { keyboard = refl; mouse = refl; not_registered = refl; nothing_installed = nothing })
remove-IsReleased s (held k m kb ms on both apart) =
    let calls = (s.calls ++ unhooks k ∷ []) ++ unhooks m ∷ [] in
    let same : remove_all_hooks s
        ≡ record s { keyboard_hook = none; mouse_hook = none; registered = false; calls = calls } =
      rw (kb, ms, remove_all_hooks, unhook) refl in
    let none_left : installed_after calls ≡ some [] =
      one_call (s.calls ++ unhooks k ∷ []) (unhooks m) (some [])
      ∙ ap (λ hs. after_call hs (unhooks m)) (one_call s.calls (unhooks k) (some []))
      ∙ rw (both, apart, ==_refl k, ==_refl m) refl in
    rw same (record {
      keyboard = refl;
      mouse = refl;
      not_registered = refl;
      nothing_installed = none_left;
    })

-- A hook that is installed and let go at once.
passing :
    (calls : List HookCall) (n : ℕ)
    → installed_after calls ≡ some []
    → installed_after ((calls ++ installs n ∷ []) ++ unhooks n ∷ []) ≡ some []
passing calls n nothing =
    one_call (calls ++ installs n ∷ []) (unhooks n) (some [])
    ∙ ap (λ hs. after_call hs (unhooks n)) (one_call calls (installs n) (some []))
    ∙ rw (nothing, ==_refl n) refl

install-IsHooked :
    (keyboard mouse : Bool) (s : Hooks)
    → IsHooked s
    → IsHooked (install_all_hooks keyboard mouse s)
      × ((install_all_hooks keyboard mouse s).registered ≡ (keyboard && mouse))
unfolding install_all_hooks set_windows_hook unhook
install-IsHooked keyboard mouse s h = installed keyboard mouse (remove-IsReleased s h)
  where
    installed :
        (keyboard mouse : Bool)
        → IsReleased (remove_all_hooks s)
        → IsHooked (install_all_hooks keyboard mouse s)
          × ((install_all_hooks keyboard mouse s).registered ≡ (keyboard && mouse))
    installed true true r =
        let calls = (remove_all_hooks s).calls in
        let n = (remove_all_hooks s).next_handle in
        (
          held n (n + 1) refl refl refl
              (one_call (calls ++ installs n ∷ []) (installs (n + 1)) (some [])
                ∙ ap (λ hs. after_call hs (installs (n + 1)))
                    (one_call calls (installs n) (some []))
                ∙ rw r.nothing_installed refl)
              (ground arith),
          refl,
        )
    installed true false r = (
      released refl refl refl
          (passing (remove_all_hooks s).calls (remove_all_hooks s).next_handle r.nothing_installed),
      refl,
    )
    installed false true r = (
      released refl refl refl
          (passing (remove_all_hooks s).calls (remove_all_hooks s).next_handle r.nothing_installed),
      refl,
    )
    installed false false r = (released refl refl refl r.nothing_installed, refl)

-- Windows installed both hooks each time.
abbrev pub all_installed : List (Bool × Bool) → Bool
all_installed [] = true
all_installed ((keyboard, mouse) ∷ answers) = (keyboard && mouse) && all_installed answers

rebind-IsHooked :
    (keyboard mouse : Bool) (s : Hooks)
    → IsHooked s
    → IsHooked (rebind_hooks s (keyboard, mouse))
      × ((rebind_hooks s (keyboard, mouse)).registered ≡ (s.registered && (keyboard && mouse)))
unfolding rebind_hooks
rebind-IsHooked keyboard mouse s h = picked s.registered refl
  where
    picked :
        (b : Bool)
        → s.registered ≡ b
        → let s' = if b then install_all_hooks keyboard mouse (remove_all_hooks s) else s in
          IsHooked s' × (s'.registered ≡ (b && (keyboard && mouse)))
    picked true on =
        install-IsHooked keyboard mouse (remove_all_hooks s)
          (IsReleased-IsHooked (remove_all_hooks s) (remove-IsReleased s h))
    picked false off = (h, off)

and_assoc : (a b c : Bool) → ((a && b) && c) ≡ (a && (b && c))
and_assoc true b c = refl
and_assoc false b c = refl

rebinds-IsHooked :
    (s : Hooks) (answers : List (Bool × Bool))
    → IsHooked s
    → IsHooked (foldl rebind_hooks s answers)
      × ((foldl rebind_hooks s answers).registered ≡ (s.registered && all_installed answers))
rebinds-IsHooked s [] h = (h, ground arith)
rebinds-IsHooked s ((keyboard, mouse) ∷ answers) h =
    let (h', e') = rebind-IsHooked keyboard mouse s h in
    let (h'', e'') = rebinds-IsHooked (rebind_hooks s (keyboard, mouse)) answers h' in
    (
      h'',
      e''
          ∙ ap (λ b. b && all_installed answers) e'
          ∙ and_assoc s.registered (keyboard && mouse) (all_installed answers),
    )

-- Whatever Windows answers when the manager is made and each time a binding is set: a hook is let
-- go only while it is installed, and what is installed is what the manager holds, which is both
-- hooks or none, so that none is lost. After the destructor none is installed. The manager is
-- registered exactly if every answer so far was both hooks; after one failure no hooks are
-- installed again.
pub hooks_held :
    (keyboard mouse : Bool) (answers : List (Bool × Bool))
    → let s = foldl rebind_hooks (install_all_hooks keyboard mouse no_hooks) answers in
      IsHooked s
      × (s.registered ≡ all_installed ((keyboard, mouse) ∷ answers))
      × IsReleased (remove_all_hooks s)
hooks_held keyboard mouse answers =
    let (h, e) = install-IsHooked keyboard mouse no_hooks (released refl refl refl refl) in
    let made = install_all_hooks keyboard mouse no_hooks in
    let (h', e') = rebinds-IsHooked made answers h in
    (
      h',
      e' ∙ ap (λ b. b && all_installed answers) e,
      remove-IsReleased (foldl rebind_hooks made answers) h',
    )
