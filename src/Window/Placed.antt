-- ===== src/Window/Placed.antt =====
-- Where a process of a list is put: below its parent, or at the top.
use scrambler.Prelude.{
  ℕ, ◌≡◌, ◌≢◌, refl, sym, ap, ◌∙◌, inl, inr, ◌⊎◌, Bool, Bool-cases, true, false, not, ◌&&◌, Option,
  none, some, List, [], ◌∷◌, ◌++◌, foldl, ◌==◌, ==_true, ==_refl, if◌then◌else◌, arith,
}
use mathlib.Core.List.{append_assoc, append-nil}
use scrambler.Processes.{ProcessInfo, ProcessIdentity}
use scrambler.Window.Pipeline.{item_with}
use scrambler.Window.Listing.{
  ProcessTree, is_some, has_parent, add_child, add_top_level_item, place_item,
}
use scrambler.Window.Rooted.{Among, IsRooted, root, pids_where}

found_by : ℕ → Option ProcessIdentity → ProcessInfo → Option ProcessIdentity
found_by pid found p =
    if p.pid == pid
    then some (record { pid = p.pid; creation_time = p.creation_time; exe_path = p.exe_path })
    else found

-- A process found so far stays found.
found_from_some :
    (pid : ℕ) (ps : List ProcessInfo) (found : Option ProcessIdentity)
    → is_some found ≡ true
    → is_some (foldl (found_by pid) found ps) ≡ true
unfolding found_by
found_from_some pid [] found h = h
found_from_some pid (x ∷ xs) found h = elim (Bool-cases (x.pid == pid)) [
  | inl e ↦ rw e (found_from_some pid xs _ refl)
  | inr e ↦ rw e (found_from_some pid xs found h)
]

found_of :
    (pid : ℕ) (ps : List ProcessInfo) (found : Option ProcessIdentity) (q : ProcessInfo)
    → Among q ps
    → q.pid ≡ pid
    → is_some (foldl (found_by pid) found ps) ≡ true
unfolding found_by
found_of pid [] found q m e = absurd m
found_of pid (x ∷ xs) found q (inl a) e =
    let here : (x.pid == pid) ≡ true = rw (ap (λ (y : ProcessInfo). y.pid) a ∙ e) (==_refl pid) in
    rw here (found_from_some pid xs _ refl)
found_of pid (x ∷ xs) found q (inr m) e = found_of pid xs _ q m e

of_found :
    (pid : ℕ) (ps : List ProcessInfo) (found : Option ProcessIdentity)
    → is_some (foldl (found_by pid) found ps) ≡ true
    → (is_some found ≡ true) ⊎ ((q : ProcessInfo) × Among q ps × (q.pid ≡ pid))
unfolding found_by
of_found pid [] found h = inl h
of_found pid (x ∷ xs) found h = elim (Bool-cases (x.pid == pid)) [
  | inl e ↦ inr (x, inl refl, ==_true x.pid pid e)
  | inr e ↦ elim (of_found pid xs found (rw e at h)) [
    | inl before ↦ inl before
    | inr (q, m, same) ↦ inr (q, inr m, same)
  ]
]

pids_where-cons :
    (test : ProcessInfo → Bool) (p : ProcessInfo) (ps : List ProcessInfo) (pids : List ℕ)
    → (pids ++ pids_where test (p ∷ [])) ++ pids_where test ps ≡ pids ++ pids_where test (p ∷ ps)
pids_where-cons test p ps pids = elim (Bool-cases (test p)) [
  | inl kept ↦ rw kept (append_assoc pids _ _)
  | inr left ↦ rw (left, append-nil pids) refl
]

module _ (all : List ProcessInfo) (selected_pid : ℕ) where
  top_item-placed :
      (t : ProcessTree) (p : ProcessInfo)
      → (place_item all selected_pid t p).top_level
        ≡ t.top_level ++ pids_where (λ x. not (has_parent all x)) (p ∷ [])
  unfolding place_item add_child add_top_level_item
  top_item-placed t p = elim (Bool-cases (has_parent all p)) [
    | inl has ↦ rw has (sym (append-nil t.top_level))
    | inr none_has ↦ rw none_has refl
  ]

  child-placed :
      (t : ProcessTree) (p : ProcessInfo) (q : ℕ)
      → (place_item all selected_pid t p).children q
        ≡ t.children q ++ pids_where (λ x. has_parent all x && q == x.parent_pid) (p ∷ [])
  unfolding place_item add_child add_top_level_item
  child-placed t p q = elim (Bool-cases (has_parent all p)) [
    | inl has ↦ elim (Bool-cases (q == p.parent_pid)) [
      | inl e ↦ rw (has, e) refl
      | inr e ↦ rw (has, e) (sym (append-nil (t.children q)))
    ]
    | inr none_has ↦ rw none_has (sym (append-nil (t.children q)))
  ]

  -- Every process stands below its parent or at the top.
  pub top_level-built :
      (ps : List ProcessInfo) (t : ProcessTree)
      → (foldl (place_item all selected_pid) t ps).top_level
        ≡ t.top_level ++ pids_where (λ x. not (has_parent all x)) ps
  top_level-built [] t = sym (append-nil t.top_level)
  top_level-built (p ∷ ps) t =
      top_level-built ps (place_item all selected_pid t p)
      ∙ ap (λ pids. pids ++ pids_where (λ x. not (has_parent all x)) ps) (top_item-placed t p)
      ∙ pids_where-cons (λ x. not (has_parent all x)) p ps t.top_level

  pub children-built :
      (ps : List ProcessInfo) (t : ProcessTree) (q : ℕ)
      → (foldl (place_item all selected_pid) t ps).children q
        ≡ t.children q ++ pids_where (λ x. has_parent all x && q == x.parent_pid) ps
  children-built [] t q = sym (append-nil (t.children q))
  children-built (p ∷ ps) t q =
      let test : ProcessInfo → Bool = λ x. has_parent all x && q == x.parent_pid in
      children-built ps (place_item all selected_pid t p) q
      ∙ ap (λ pids. pids ++ pids_where test ps) (child-placed t p q)
      ∙ pids_where-cons test p ps (t.children q)

pub and_parts : (a b : Bool) → (a && b) ≡ true → (a ≡ true) × (b ≡ true)
and_parts true b h = (refl, h)
and_parts false b h = absurd (cc h)

differ : (m n : ℕ) → not (m == n) ≡ true → m ≢ n
differ m n h e = ground arith

differing : (m n : ℕ) → m ≢ n → not (m == n) ≡ true
differing m n h = ground arith

module _ (ps : List ProcessInfo) where
  -- A parent that is shown under its own item is another process of the list.
  pub of_has_parent :
      (p : ProcessInfo)
      → has_parent ps p ≡ true
      → (p.parent_pid ≢ p.pid) × ((q : ProcessInfo) × Among q ps × (q.pid ≡ p.parent_pid))
  unfolding has_parent item_with found_by
  of_has_parent p h =
      let (found, other) =
        and_parts (is_some (item_with p.parent_pid ps)) (not (p.parent_pid == p.pid)) h in
      (
        differ p.parent_pid p.pid other,
        elim (of_found p.parent_pid ps none found) [ inl none_found ↦ absurd (cc) | inr q ↦ q ],
      )

  pub to_has_parent :
      (p q : ProcessInfo)
      → Among q ps
      → q.pid ≡ p.parent_pid
      → p.parent_pid ≢ p.pid
      → has_parent ps p ≡ true
  unfolding has_parent item_with found_by
  to_has_parent p q m e other =
      let found : is_some (item_with p.parent_pid ps) ≡ true =
        found_of p.parent_pid ps none q m e in
      rw found (differing p.parent_pid p.pid other)

  pub no_parent-root : (p : ProcessInfo) → has_parent ps p ≡ false → IsRooted ps p
  no_parent-root p h = root p (λ q m e. elim (Bool-cases (p.parent_pid == p.pid)) [
    | inl same ↦ ==_true p.parent_pid p.pid same
    | inr other ↦ absurd (cc (to_has_parent p q m e (λ same. ground arith)))
  ])
