-- ===== src/Window/Lineage.antt =====
-- The process tree shows a process exactly if the line of its parents ends.
use scrambler.Prelude.{
  not-true, ℕ, ◌≡◌, ◌≢◌, ◌↔◌, refl, sym, ap, ◌∙◌, subst, inl, inr, Bool-cases, true, not, ◌&&◌,
  List, ==_true, ==_refl, ◌==◌,
}
use scrambler.Processes.{ProcessInfo}
use scrambler.Window.Listing.{ProcessTree, has_parent, no_items, pid_of, list_processes}
use scrambler.Window.Rooted.{
  Among, IsDistinct, IsListed, at_top, below, IsRooted, root, under, same_process, pids_where,
  into_pids, out_of_pids,
}
use scrambler.Window.Placed.{
  top_level-built, children-built, of_has_parent, to_has_parent, no_parent-root, and_parts,
}

module _ (ps : List ProcessInfo) (t : ProcessTree) where
  top_level-listed : (list_processes ps t).top_level ≡ pids_where (λ p. not (has_parent ps p)) ps
  unfolding list_processes
  top_level-listed = top_level-built ps (pid_of t.selected) ps no_items

  children-listed :
      (q : ℕ)
      → (list_processes ps t).children q ≡ pids_where (λ p. has_parent ps p && q == p.parent_pid) ps
  unfolding list_processes
  children-listed q = children-built ps (pid_of t.selected) ps no_items q

  IsListed-IsRooted :
      (pid : ℕ) (p : ProcessInfo)
      → IsDistinct ps
      → IsListed (list_processes ps t) pid
      → Among p ps
      → p.pid ≡ pid
      → IsRooted ps p
  IsListed-IsRooted pid p d (at_top _ top) m e =
      let (p', m', test, e') =
        out_of_pids (λ x. not (has_parent ps x)) ps pid (subst (Among pid) top_level-listed top) in
      subst (IsRooted ps) (same_process ps p' p d m' m (e' ∙ sym e))
        (no_parent-root ps p' (not-true _ test))
  IsListed-IsRooted pid p d (below parent _ child shown) m e =
      let (p', m', test, e') =
        out_of_pids (λ x. has_parent ps x && parent == x.parent_pid) ps pid
          (subst (Among pid) (children-listed parent) child) in
      let (has, is_parent) = and_parts (has_parent ps p') (parent == p'.parent_pid) test in
      let (other, (q, m_q, e_q)) = of_has_parent ps p' has in
      let above =
        IsListed-IsRooted parent q d shown m_q
          (e_q ∙ sym (==_true parent p'.parent_pid is_parent)) in
      subst (IsRooted ps) (same_process ps p' p d m' m (e' ∙ sym e))
        (under p' q m_q e_q other above)

  IsRooted-IsListed :
      (p : ProcessInfo) → Among p ps → IsRooted ps p → IsListed (list_processes ps t) p.pid
  IsRooted-IsListed p m (root _ ends) = elim (Bool-cases (has_parent ps p)) [
    | inl has ↦
        let (other, (q, m_q, e_q)) = of_has_parent ps p has in absurd (other (ends q m_q e_q))
    | inr none_has ↦ at_top p.pid (
        subst (Among p.pid) (sym top_level-listed)
          (into_pids (λ x. not (has_parent ps x)) ps p m (ap not none_has)))
  ]
  IsRooted-IsListed p m (under _ q m_q e other above) =
      let test : (has_parent ps p && q.pid == p.parent_pid) ≡ true =
        rw (to_has_parent ps p q m_q e other, e) (==_refl p.parent_pid) in
      below q.pid p.pid
        (subst (Among p.pid) (sym (children-listed q.pid))
          (into_pids (λ x. has_parent ps x && q.pid == x.parent_pid) ps p m test))
        (IsRooted-IsListed q m_q above)

  -- After a list of processes with different pids has arrived, the tree shows a process of the
  -- list exactly if the line of its parents ends: going from it to its parent, and so on, one comes
  -- to a process that is its own parent or whose parent is not in the list.
  pub IsListed-list_processes :
      (p : ProcessInfo)
      → IsDistinct ps
      → Among p ps
      → IsListed (list_processes ps t) p.pid ↔ IsRooted ps p
  IsListed-list_processes p d m =
      (λ shown. IsListed-IsRooted p.pid p d shown m refl, IsRooted-IsListed p m)

-- In a ring of parents no line ends.
IsRooted-below :
    (ps : List ProcessInfo) (C : ProcessInfo → Type 0)
    → ((p : ProcessInfo)
        → C p
        → (p.parent_pid ≢ p.pid) × ((q : ProcessInfo) × Among q ps × C q × (q.pid ≡ p.parent_pid)))
    → IsDistinct ps
    → (p : ProcessInfo) → IsRooted ps p
    → C p
    → ⊥
IsRooted-below ps C closed d p (root _ ends) c =
    let (other, (q, m, _, e)) = closed p c in other (ends q m e)
IsRooted-below ps C closed d p (under _ q m e other above) c =
    let (_, (q', m', c', e')) = closed p c in
    IsRooted-below ps C closed d q above (subst C (same_process ps q' q d m' m (e' ∙ sym e)) c')

-- A set of processes of a list with different pids in which each one's parent is another of the
-- set: the tree shows none of them.
parents_in_ring :
    (ps : List ProcessInfo) (t : ProcessTree) (C : ProcessInfo → Type 0) (p : ProcessInfo)
    → ((q : ProcessInfo)
        → C q
        → (q.parent_pid ≢ q.pid) × ((r : ProcessInfo) × Among r ps × C r × (r.pid ≡ q.parent_pid)))
    → IsDistinct ps
    → Among p ps
    → C p
    → ¬ IsListed (list_processes ps t) p.pid
parents_in_ring ps t C p closed d m c shown =
    IsRooted-below ps C closed d p ((IsListed-list_processes ps t p d m).0 shown) c
