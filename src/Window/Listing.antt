-- ===== src/Window/Listing.antt =====
-- `OnProcessListReady`: the process tree that is made of a list. An item is named by its pid, which
-- is how the code finds it again; its texts and data are those of `item_with`. How Qt sorts the
-- items is left out, and so is its last step, which applies the filter again: what that hides and
-- expands is the filter's, in Tree. No two processes of a list have the same pid.
use scrambler.Prelude.{
  ℕ, Bool, true, false, not, ◌&&◌, ◌||◌, Option, none, some, List, [], ◌∷◌, ◌++◌, foldl, ◌==◌,
  if◌then◌else◌, filter,
}
use scrambler.Processes.{ProcessInfo}
use scrambler.Window.Pipeline.{item_with}

pub record ProcessTree : Type 0 where
  pub top_level : List ℕ
  pub children : ℕ → List ℕ
  pub expanded : ℕ → Bool
  pub selected : Option ℕ

abbrev pub is_some : {A : Type 0} → Option A → Bool
is_some none = false
is_some (some a) = true

abbrev pub contains_pid : List ℕ → ℕ → Bool
contains_pid [] pid = false
contains_pid (p ∷ ps) pid = p == pid || contains_pid ps pid

-- The pid that is selected, zero for none.
abbrev pub pid_of : Option ℕ → ℕ
pid_of none = 0
pid_of (some pid) = pid

-- `clear` of the tree.
abbrev pub no_items : ProcessTree
no_items = record { top_level = []; children = λ pid. []; expanded = λ pid. false; selected = none }

unfoldable pub add_child : (parent pid : ℕ) → ProcessTree → ProcessTree
add_child parent pid t = record t {
  children = λ q. if q == parent then t.children q ++ pid ∷ [] else t.children q;
}

unfoldable pub add_top_level_item : ℕ → ProcessTree → ProcessTree
add_top_level_item pid t = record t { top_level = t.top_level ++ pid ∷ [] }

-- Whether a process is put below another one of the list.
unfoldable pub has_parent : List ProcessInfo → ProcessInfo → Bool
has_parent processes p = is_some (item_with p.parent_pid processes) && not (p.parent_pid == p.pid)

unfoldable pub place_item :
    List ProcessInfo → (selected_pid : ℕ) → ProcessTree → ProcessInfo → ProcessTree
unfolding add_child add_top_level_item has_parent
place_item processes selected_pid t p =
    let placed =
      if has_parent processes p
      then add_child p.parent_pid p.pid t
      else add_top_level_item p.pid t in
    record placed { selected = if p.pid == selected_pid then some p.pid else placed.selected }

-- The items at the top that were expanded before are expanded again.
unfoldable pub list_processes : List ProcessInfo → ProcessTree → ProcessTree
unfolding place_item
list_processes processes t =
    let expanded_pids = filter t.expanded t.top_level in
    let built = foldl (place_item processes (pid_of t.selected)) no_items processes in
    record built {
      expanded = λ pid. contains_pid built.top_level pid && contains_pid expanded_pids pid;
    }
