-- ===== src/Diagnostics/Parts.antt =====
-- `Log` as two threads interleave it: the number is taken before the lock.
use scrambler.Prelude.{
  ℕ, ◌+◌, ◌<◌, ◌≡◌, refl, inl, inr, Bool, Bool-cases, true, false, Option, none, some, List, [],
  ◌∷◌, ◌++◌, leb, length, drop, All, All-weaken, suc, ap, if◌then◌else◌, arith,
}
use scrambler.Diagnostics.{
  LogLevel, LogEntry, Diagnostics, ring_capacity, log, walk, walk_entry, snapshot_since,
}
use scrambler.Diagnostics.Since.{Newer, Consecutive, IsRing}

module _ {S K : Type 0} where
  unfoldable pub take_seq : Diagnostics S K → ℕ × Diagnostics S K
  take_seq d = (d.next_seq, record d { next_seq = d.next_seq + 1 })

  -- From the lock on.
  unfoldable pub push_entry :
      LogEntry S → Diagnostics S K → Option (K × LogEntry S) × Diagnostics S K
  push_entry entry d =
      let room = if leb ring_capacity (length d.ring) then drop 1 d.ring else d.ring in
      (
        elim d.sink [ none ↦ none | some k ↦ some (k, entry) ],
        record d { ring = room ++ entry ∷ [] },
      )

  log-in_parts :
      (now : ℕ) (level : LogLevel) (text : S) (d : Diagnostics S K)
      → log now level text d ≡ (
          let (n, taken) = take_seq d in
          push_entry (record { seq = n; when = now; level = level; message = text }) taken)
  unfolding log take_seq push_entry
  log-in_parts now level text d = refl

module _ {S : Type 0} (since max_entries : ℕ) where
  walk_entry-Newer :
      (e : LogEntry S) (out : List (LogEntry S)) (left : Bool)
      → Newer since out
      → Newer since (walk_entry since max_entries e (out, left)).0
  unfolding walk_entry
  walk_entry-Newer e out true h = h
  walk_entry-Newer e out false h = elim (Bool-cases (leb e.seq since)) [
    | inl old ↦ rw old h
    | inr fresh ↦ rw fresh (ground arith, h)
  ]

  walk-Newer : (es : List (LogEntry S)) → Newer since (walk since max_entries es).0
  unfolding walk
  walk-Newer [] = tt
  walk-Newer (e ∷ es) =
      walk_entry-Newer e (walk since max_entries es).0 (walk since max_entries es).1 (walk-Newer es)

  -- The entry at the back is answered last, if it is newer.
  kept-last :
      (e x : LogEntry S) (out ys : List (LogEntry S)) (left : Bool)
      → out ≡ ys ++ e ∷ []
      → (zs : List (LogEntry S)) × ((walk_entry since max_entries x (out, left)).0 ≡ zs ++ e ∷ [])
  unfolding walk_entry
  kept-last e x out ys true h = (ys, h)
  kept-last e x out ys false h = elim (Bool-cases (leb x.seq since)) [
    | inl old ↦ (ys, rw old h)
    | inr fresh ↦ (x ∷ ys, rw fresh (ap (λ o. x ∷ o) h))
  ]

  pub walk-last :
      (es : List (LogEntry S)) (e : LogEntry S)
      → since < e.seq
      → (ys : List (LogEntry S)) × ((walk since max_entries (es ++ e ∷ [])).0 ≡ ys ++ e ∷ [])
  unfolding walk walk_entry
  walk-last [] e h = let fresh : leb e.seq since ≡ false = ground arith in ([], rw fresh refl)
  walk-last (x ∷ es) e h =
      let (ys, same) = walk-last es e h in
      kept-last e x (walk since max_entries (es ++ e ∷ [])).0 ys
        (walk since max_entries (es ++ e ∷ [])).1 same

  walk_entry-All :
      (P : LogEntry S → Type 0) (e : LogEntry S) (out : List (LogEntry S)) (left : Bool)
      → P e
      → All P out
      → All P (walk_entry since max_entries e (out, left)).0
  unfolding walk_entry
  walk_entry-All P e out true p h = h
  walk_entry-All P e out false p h = elim (Bool-cases (leb e.seq since)) [
    | inl old ↦ rw old h
    | inr fresh ↦ rw fresh (p, h)
  ]

  pub walk-All :
      (P : LogEntry S → Type 0) (es : List (LogEntry S))
      → All P es
      → All P (walk since max_entries es).0
  unfolding walk
  walk-All P [] h = tt
  walk-All P (e ∷ es) (p, h) =
      walk_entry-All P e (walk since max_entries es).0 (walk since max_entries es).1 p
        (walk-All P es h)

Consecutive-below :
    {S : Type 0} (n : ℕ) (es : List (LogEntry S))
    → Consecutive n es
    → All (λ e. e.seq < n + length es) es
Consecutive-below n [] c = tt
Consecutive-below n (e ∷ es) c =
    (omega (arith, c.0), All-weaken es (λ x h. omega (arith, h)) (Consecutive-below (suc n) es c.1))

-- Only numbers that were given out.
pub Ring-below :
    {S K : Type 0} (d : Diagnostics S K) → IsRing d → All (λ e. e.seq < d.next_seq) d.ring
Ring-below d r =
    All-weaken d.ring (λ x h. omega (arith, h, r.up_to))
      (Consecutive-below r.first d.ring r.in_a_row)

-- In whatever order the ring has its entries, what is answered is newer.
pub snapshot_since-Newer :
    {S K : Type 0} (d : Diagnostics S K) (since max_entries : ℕ)
    → Newer since (snapshot_since d since max_entries)
unfolding snapshot_since
snapshot_since-Newer d since max_entries = walk-Newer since max_entries d.ring
