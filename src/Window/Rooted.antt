-- ===== src/Window/Rooted.antt =====
-- Which processes of a list the tree shows.
use scrambler.Prelude.{
  ℕ, ◌≡◌, ◌≢◌, refl, sym, ap, ◌∙◌, subst, inl, inr, ◌⊎◌, Bool, Bool-cases, true, List, [], ◌∷◌, map,
  filter, All,
}
use scrambler.Processes.{ProcessInfo}
use scrambler.Window.Listing.{ProcessTree}

abbrev pub Among : {A : Type 0} → A → List A → Type 0
Among a [] = ⊥
Among a (x ∷ xs) = (x ≡ a) ⊎ Among a xs

-- No two processes have the same pid.
abbrev pub IsDistinct : List ProcessInfo → Type 0
IsDistinct [] = Unit
IsDistinct (p ∷ ps) = All (λ q. q.pid ≢ p.pid) ps × IsDistinct ps

-- An item at the top, or below one that is shown.
pub data IsListed (t : ProcessTree) : ℕ → Type 0 where
  at_top : (pid : ℕ) → Among pid t.top_level → IsListed t pid
  below : (parent pid : ℕ) → Among pid (t.children parent) → IsListed t parent → IsListed t pid

-- Going from a process to its parent, and so on, ends: at one whose parent is itself, or is not
-- in the list.
pub data IsRooted (ps : List ProcessInfo) : ProcessInfo → Type 0 where
  root :
      (p : ProcessInfo)
      → ((q : ProcessInfo) → Among q ps → q.pid ≡ p.parent_pid → p.parent_pid ≡ p.pid)
      → IsRooted ps p
  under :
      (p q : ProcessInfo)
      → Among q ps
      → q.pid ≡ p.parent_pid
      → p.parent_pid ≢ p.pid
      → IsRooted ps q
      → IsRooted ps p

All-Among : {A : Type 0} (P : A → Type 0) (a : A) (xs : List A) → All P xs → Among a xs → P a
All-Among P a [] h m = absurd m
All-Among P a (x ∷ xs) h (inl e) = subst P e h.0
All-Among P a (x ∷ xs) h (inr m) = All-Among P a xs h.1 m

pub same_process :
    (ps : List ProcessInfo) (p q : ProcessInfo)
    → IsDistinct ps
    → Among p ps
    → Among q ps
    → p.pid ≡ q.pid
    → p ≡ q
same_process [] p q d m n e = absurd m
same_process (x ∷ xs) p q d (inl a) (inl b) e = sym a ∙ b
same_process (x ∷ xs) p q d (inl a) (inr n) e =
    absurd
      (All-Among (λ y. y.pid ≢ x.pid) q xs d.0 n (sym e ∙ ap (λ (y : ProcessInfo). y.pid) (sym a)))
same_process (x ∷ xs) p q d (inr m) (inl b) e =
    absurd (All-Among (λ y. y.pid ≢ x.pid) p xs d.0 m (e ∙ ap (λ (y : ProcessInfo). y.pid) (sym b)))
same_process (x ∷ xs) p q d (inr m) (inr n) e = same_process xs p q d.1 m n e

-- The pids of the processes that pass a test.
abbrev pub pids_where : (ProcessInfo → Bool) → List ProcessInfo → List ℕ
pids_where test ps = map (λ p. p.pid) (filter test ps)

pub into_pids :
    (test : ProcessInfo → Bool) (ps : List ProcessInfo) (p : ProcessInfo)
    → Among p ps
    → test p ≡ true
    → Among p.pid (pids_where test ps)
into_pids test [] p m h = absurd m
into_pids test (x ∷ xs) p (inl e) h = rw (ap test e ∙ h) (inl (ap (λ (y : ProcessInfo). y.pid) e))
into_pids test (x ∷ xs) p (inr m) h = elim (Bool-cases (test x)) [
  | inl kept ↦ rw kept (inr (into_pids test xs p m h))
  | inr left ↦ rw left (into_pids test xs p m h)
]

pub out_of_pids :
    (test : ProcessInfo → Bool) (ps : List ProcessInfo) (pid : ℕ)
    → Among pid (pids_where test ps)
    → (p : ProcessInfo) × Among p ps × (test p ≡ true) × (p.pid ≡ pid)
out_of_pids test [] pid m = absurd m
out_of_pids test (x ∷ xs) pid m = elim (Bool-cases (test x)) [
  | inl kept ↦ elim (rw kept at m) [
    | inl e ↦ (x, inl refl, kept, e)
    | inr n ↦ let (p, a, t, e) = out_of_pids test xs pid n in (p, inr a, t, e)
  ]
  | inr left ↦ let (p, a, t, e) = out_of_pids test xs pid (rw left at m) in (p, inr a, t, e)
]
