-- ===== src/Targets.antt =====
-- `TargetPidSet` of include/core/EffectConfig.h: the chosen processes, with the cached pid that
-- spares the lock while there is one. A set of pids is a list without duplicates.
use scrambler.Prelude.{
  ℕ, ◌-◌, ◌^◌, ◌≡◌, refl, sym, ◌∙◌, ◌⊎◌, inl, inr, Bool, true, false, not, ◌&&◌, ◌||◌, List, [],
  ◌∷◌, foldl, ◌==◌, if◌then◌else◌, Bool-cases, ==_true, arith,
}
mod Tests

abbrev pub no_cached_pid : ℕ
no_cached_pid = 2 ^ 32 - 1

pub record TargetPidSet : Type 0 where
  pub pids : List ℕ
  pub cached_pid : ℕ

unfoldable pub set_contains : ℕ → List ℕ → Bool
set_contains pid [] = false
set_contains pid (p ∷ ps) = pid == p || set_contains pid ps

unfoldable pub set_insert : ℕ → List ℕ → List ℕ
set_insert pid pids = if set_contains pid pids then pids else pid ∷ pids

unfoldable pub set_erase : ℕ → List ℕ → List ℕ
set_erase pid [] = []
set_erase pid (p ∷ ps) = let rest = set_erase pid ps in if pid == p then rest else p ∷ rest

-- What `RefreshCachedPidLocked` stores: the one pid of a set of size one.
unfoldable pub cached_of : List ℕ → ℕ
cached_of [] = no_cached_pid
cached_of (p ∷ []) = p
cached_of (p ∷ q ∷ ps) = no_cached_pid

unfoldable pub refresh_cached_pid_locked : TargetPidSet → TargetPidSet
unfolding cached_of
refresh_cached_pid_locked s = record s { cached_pid = cached_of s.pids }

abbrev pub no_targets : TargetPidSet
no_targets = record { pids = []; cached_pid = no_cached_pid }

unfoldable pub add : ℕ → TargetPidSet → TargetPidSet
unfolding set_insert refresh_cached_pid_locked
add pid s = refresh_cached_pid_locked (record s { pids = set_insert pid s.pids })

unfoldable pub remove : ℕ → TargetPidSet → TargetPidSet
unfolding set_erase refresh_cached_pid_locked
remove pid s = refresh_cached_pid_locked (record s { pids = set_erase pid s.pids })

unfoldable pub clear : TargetPidSet → TargetPidSet
clear s = record { pids = []; cached_pid = no_cached_pid }

unfoldable pub set_selected_pid : ℕ → TargetPidSet → TargetPidSet
set_selected_pid pid s = record { pids = pid ∷ []; cached_pid = pid }

unfoldable pub contains : TargetPidSet → ℕ → Bool
unfolding set_contains
contains s pid =
    if s.cached_pid == no_cached_pid then set_contains pid s.pids else s.cached_pid == pid

pub data TargetCall : Type 0 where
  adds removes selects : ℕ → TargetCall
  clears : TargetCall

unfoldable pub call : TargetPidSet → TargetCall → TargetPidSet
unfolding add remove clear set_selected_pid
call s (adds pid) = add pid s
call s (removes pid) = remove pid s
call s (selects pid) = set_selected_pid pid s
call s clears = clear s

-- The same calls on a set that is its membership test.
abbrev pub call_test : (ℕ → Bool) → TargetCall → ℕ → Bool
call_test p (adds pid) q = q == pid || p q
call_test p (removes pid) q = not (q == pid) && p q
call_test p (selects pid) q = q == pid
call_test p clears q = false

set_contains-insert :
    (pid q : ℕ) (ps : List ℕ) → set_contains q (set_insert pid ps) ≡ (q == pid || set_contains q ps)
unfolding set_contains set_insert
set_contains-insert pid q ps = elim (Bool-cases (set_contains pid ps)) [
  | inl there ↦ rw there (elim (Bool-cases (q == pid)) [
    | inl same ↦ rw (==_true q pid same) (rw there (ground arith))
    | inr other ↦ rw other refl
  ])
  | inr new ↦ rw new refl
]

set_contains-erase :
    (pid q : ℕ) (ps : List ℕ)
    → set_contains q (set_erase pid ps) ≡ (not (q == pid) && set_contains q ps)
unfolding set_contains set_erase
set_contains-erase pid q [] = ground arith
set_contains-erase pid q (p ∷ ps) = ground (arith, set_contains-erase pid q ps)

-- The cache is empty, or it is the one pid of the set.
abbrev IsCached : TargetPidSet → Type 0
IsCached s = (s.cached_pid ≡ no_cached_pid) ⊎ (s.pids ≡ s.cached_pid ∷ [])

cached_of_lem : (ps : List ℕ) → IsCached (record { pids = ps; cached_pid = cached_of ps })
unfolding cached_of
cached_of_lem [] = inl refl
cached_of_lem (p ∷ []) = inr refl
cached_of_lem (p ∷ q ∷ ps) = inl refl

contains_cached :
    (s : TargetPidSet) (pid : ℕ) → IsCached s → contains s pid ≡ set_contains pid s.pids
unfolding contains set_contains
contains_cached s pid (inl empty) = ground (arith, empty)
contains_cached s pid (inr one) = rw one (ground arith)

call-IsCached : (s : TargetPidSet) (c : TargetCall) → IsCached (call s c)
unfolding call add remove clear set_selected_pid refresh_cached_pid_locked
call-IsCached s (adds pid) = cached_of_lem (set_insert pid s.pids)
call-IsCached s (removes pid) = cached_of_lem (set_erase pid s.pids)
call-IsCached s (selects pid) = inr refl
call-IsCached s clears = inl refl

call_members :
    (s : TargetPidSet) (p : ℕ → Bool) (c : TargetCall) (q : ℕ)
    → set_contains q s.pids ≡ p q
    → set_contains q (call s c).pids ≡ call_test p c q
unfolding call add remove clear set_selected_pid refresh_cached_pid_locked set_contains
call_members s p (adds pid) q h = set_contains-insert pid q s.pids ∙ rw h refl
call_members s p (removes pid) q h = set_contains-erase pid q s.pids ∙ rw h refl
call_members s p (selects pid) q h = ground arith
call_members s p clears q h = refl

run_members :
    (s : TargetPidSet) (p : ℕ → Bool) (cs : List TargetCall) (q : ℕ)
    → IsCached s
    → set_contains q s.pids ≡ p q
    → contains (foldl call s cs) q ≡ foldl call_test p cs q
run_members s p [] q cached h = contains_cached s q cached ∙ h
run_members s p (c ∷ cs) q cached h =
    run_members (call s c) (call_test p c) cs q (call-IsCached s c) (call_members s p c q h)

-- After any calls on an empty set, `Contains` answers for every pid, the reserved one included,
-- what those calls say of membership: the cache never changes an answer.
pub contains_refines :
    (cs : List TargetCall) (pid : ℕ)
    → contains (foldl call no_targets cs) pid ≡ foldl call_test (λ q. false) cs pid
unfolding set_contains
contains_refines cs pid = run_members no_targets (λ q. false) cs pid (inl refl) refl
