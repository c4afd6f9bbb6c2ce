-- ===== src/Delay/Ready.antt =====
-- `PopReady` and `DrainAll` against the packets that they hand out.
use scrambler.Prelude.{
  ℕ, zero, suc, ◌+◌, ◌≤◌, ◌<◌, ◌≡◌, refl, ◌∙◌, some, List, [], ◌∷◌, ◌++◌, foldl, inl, inr,
  Bool-cases, Option-cases, leb, length, All, All-weaken, All-Perm, All-append_left, length-Perm,
  Permᴰ, arith,
}
use mathlib.Core.List.Permᴰ
use scrambler.Delay.Interfaces.{PriorityQueue}
use scrambler.Delay.Schedule.{pop_loop, pop_ready, drain_loop, drain_all}

-- In order of release.
abbrev pub IsSorted : {P : Type 0} → (P → ℕ) → List P → Type 0
IsSorted release_at [] = Unit
IsSorted release_at (p ∷ ps) = All (λ x. release_at p ≤ release_at x) ps × IsSorted release_at ps

module _ {P : Type 0} {release_at : P → ℕ} (q : PriorityQueue P release_at) where
  open q use {Queue, top, pop, items, top-none, top-some, top-least}

  -- The packets `ps` are those that a call hands out, and `t` is what it leaves of `s`.
  pub record IsReady (now limit : ℕ) (s : Queue) (ps : List P) (t : Queue) : Type 0 where
    pub same : Permᴰ (items s) (ps ++ items t)
    pub sorted : IsSorted release_at ps
    pub due : All (λ p. release_at p ≤ now) ps
    pub within : length ps ≤ limit
    pub rest_waits : length ps < limit → All (λ p. now < release_at p) (items t)

  stop_lem :
      (now limit : ℕ) (s : Queue)
      → ((0 < limit) → All (λ p. now < release_at p) (items s))
      → IsReady now limit s [] s
  stop_lem now limit s waits = record {
    same = Permᴰ.refl (items s);
    sorted = tt;
    due = tt;
    within = omega arith;
    rest_waits = waits;
  }

  next_lem :
      (now left : ℕ) (s : Queue) (p : P) (ps : List P) (t : Queue)
      → top s ≡ some p
      → release_at p ≤ now
      → IsReady now left (pop s) ps t
      → IsReady now (suc left) s (p ∷ ps) t
  next_lem now left s p ps t first passed rest =
      let same = Permᴰ.trans (top-some s p first) (Permᴰ.cons refl rest.same) in
      let least = All-Perm (λ x. release_at p ≤ release_at x) same (top-least s p first) in
      record {
        same = same;
        sorted =
            (All-append_left (λ x. release_at p ≤ release_at x) ps (items t) least.1, rest.sorted);
        due = (passed, rest.due);
        within = omega (arith, rest.within);
        rest_waits = λ h. rest.rest_waits (omega arith);
      }

  module _ {S : Type 0} (on_packet : P → S → S) (now : ℕ) where
    pop_loop_lem :
        (left popped : ℕ) (s : Queue) (state : S)
        → (ps : List P) × (t : Queue) × (pop_loop q on_packet now left popped s state
            ≡ (popped + length ps, t, foldl (λ st p. on_packet p st) state ps))
          × IsReady now left s ps t
    unfolding pop_loop
    pop_loop_lem zero popped s state =
        ([], s, ground arith, stop_lem now 0 s (λ h. absurd (omega arith)))
    pop_loop_lem (suc left) popped s state = elim (Option-cases (top s)) [
      | inl none_left ↦ (
        [],
        s,
        rw (none_left, pop_loop) (ground arith),
        stop_lem now (suc left) s (λ h. rw (top-none s none_left) tt),
      )
      | inr (p, first) ↦ elim (Bool-cases (leb (release_at p) now)) [
        | inl passed ↦
            let (ps, t, e, ready) = pop_loop_lem left (popped + 1) (pop s) (on_packet p state) in
            (
              p ∷ ps,
              t,
              rw (first, pop_loop, passed) (e ∙ ground arith),
              next_lem now left s p ps t first (ground arith) ready,
            )
        | inr waits ↦ (
          [],
          s,
          rw (first, pop_loop, waits) (ground arith),
          stop_lem now (suc left) s
              (λ h. All-weaken (items s) (λ x least. ground arith) (top-least s p first)),
        )
      ]
    ]

    -- `PopReady` hands its callback the packets that are due, earliest first, and no more than
    -- the limit; it returns their number, loses none of the rest, and stops below the limit only
    -- if all the rest must still wait.
    pub pop_ready_lem :
        (limit : ℕ) (s : Queue) (state : S)
        → (ps : List P) × (t : Queue) × (pop_ready q on_packet now limit s state
            ≡ (length ps, t, foldl (λ st p. on_packet p st) state ps))
          × IsReady now limit s ps t
    unfolding pop_ready
    pop_ready_lem limit s state =
        let (ps, t, e, ready) = pop_loop_lem limit 0 s state in (ps, t, e ∙ ground arith, ready)

  module _ {S : Type 0} (on_packet : P → S → S) where
    drain_loop_lem :
        (fuel : ℕ) (s : Queue) (state : S)
        → length (items s) ≤ fuel
        → (ps : List P) × (t : Queue) × (drain_loop q on_packet fuel s state
            ≡ (t, foldl (λ st p. on_packet p st) state ps))
          × (items t ≡ [])
          × Permᴰ (items s) ps
          × IsSorted release_at ps
    unfolding drain_loop
    drain_loop_lem zero s state enough =
        let none_left : items s ≡ [] = ground arith in
        ([], s, ground arith, none_left, rw none_left Permᴰ.nil, tt)
    drain_loop_lem (suc fuel) s state enough = elim (Option-cases (top s)) [
      | inl none_left ↦
          let gone = top-none s none_left in
          ([], s, rw (none_left, drain_loop) (ground arith), gone, rw gone Permᴰ.nil, tt)
      | inr (p, first) ↦
          let split = top-some s p first in
          let (ps, t, e, gone, same, sorted) =
            drain_loop_lem fuel (pop s) (on_packet p state) (omega (arith, length-Perm split)) in
          let all = Permᴰ.trans split (Permᴰ.cons refl same) in
          let least = All-Perm (λ x. release_at p ≤ release_at x) all (top-least s p first) in
          (p ∷ ps, t, rw (first, drain_loop) e, gone, all, (least.1, sorted))
    ]

    -- `DrainAll` ends, hands its callback every packet once, earliest first, and leaves none.
    pub drain_all_lem :
        (s : Queue) (state : S)
        → (ps : List P) × (t : Queue) × (drain_all q on_packet s state
            ≡ (t, foldl (λ st p. on_packet p st) state ps))
          × (items t ≡ [])
          × Permᴰ (items s) ps
          × IsSorted release_at ps
    unfolding drain_all
    drain_all_lem s state = drain_loop_lem (length (items s)) s state (omega arith)
