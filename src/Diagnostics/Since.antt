-- ===== src/Diagnostics/Since.antt =====
-- What the ring holds after any log, and what `SnapshotSince` answers on it.
use scrambler.Prelude.{
  ℕ, suc, ◌+◌, ◌≤◌, ◌<◌, ◌≡◌, refl, ap, ◌∙◌, ◌⊎◌, inl, inr, Bool, true, false, List, [], ◌∷◌, ◌++◌,
  leb, Bool-cases, length, drop, max, All, length-append, arith,
}
use scrambler.Diagnostics.{LogEntry, LogLevel, Diagnostics, log, walk, walk_entry, ring_capacity}

-- Sequence numbers in a row from `n`.
abbrev pub Consecutive : {S : Type 0} → ℕ → List (LogEntry S) → Type 0
Consecutive n [] = Unit
Consecutive n (e ∷ es) = (e.seq ≡ n) × Consecutive (suc n) es

abbrev pub Newer : {S : Type 0} → ℕ → List (LogEntry S) → Type 0
Newer since = All (λ e. since < e.seq)

abbrev pub Older : {S : Type 0} → ℕ → List (LogEntry S) → Type 0
Older since = All (λ e. e.seq ≤ since)

pub record IsWalk {S : Type 0} (since m : ℕ) (es out : List (LogEntry S)) (left : Bool)
    : Type 0 where
  pub older : List (LogEntry S)
  pub split : es ≡ older ++ out
  pub newer : Newer since out
  pub within : length out ≤ max 1 m
  pub reason :
      ((m ≤ length out) × (left ≡ true)) ⊎ (Older since older × (left ≡ true → 0 < length older))
  pub all_seen : left ≡ false → (older ≡ []) × ((length out < m) ⊎ (length out ≡ 0))

first-Older :
    {S : Type 0} (since n : ℕ) (older out : List (LogEntry S))
    → Consecutive (suc n) (older ++ out)
    → Older since older
    → 0 < length older
    → n ≤ since
first-Older since n [] out c h some_older = ground arith
first-Older since n (x ∷ xs) out c h some_older = omega (arith, c.0, h.0)

module _ {S : Type 0} (since m : ℕ) where
  walk_entry-IsWalk :
      (n : ℕ) (e : LogEntry S) (es out : List (LogEntry S)) (left : Bool)
      → e.seq ≡ n
      → Consecutive (suc n) es
      → IsWalk since m es out left
      → IsWalk since m
          (e ∷ es)
          (walk_entry since m e (out, left)).0
          (walk_entry since m e (out, left)).1
  unfolding walk_entry
  walk_entry-IsWalk n e es out true at_n c w = record {
    older = e ∷ w.older;
    split = ap (λ xs. e ∷ xs) w.split;
    newer = w.newer;
    within = w.within;
    reason = elim w.reason [
      | inl enough ↦ inl enough
      | inr (all_older, some_older) ↦
          let before =
            first-Older since n w.older out (rw w.split at c) all_older (some_older refl) in
          inr ((omega (arith, at_n, before), all_older), λ h. omega arith)
    ];
    all_seen = λ h. ground arith;
  }
  walk_entry-IsWalk n e es out false at_n c w =
      let (none_older, room) = w.all_seen refl in
      let same : es ≡ out = w.split ∙ ap (λ xs. xs ++ out) none_older in
      elim (Bool-cases (leb e.seq since)) [
        | inl old ↦ rw old (record {
          older = e ∷ [];
          split = ap (λ xs. e ∷ xs) same;
          newer = w.newer;
          within = w.within;
          reason = inr ((ground arith, tt), λ h. omega arith);
          all_seen = λ h. ground arith;
        })
        | inr fresh ↦ rw fresh (record {
          older = [];
          split = ap (λ xs. e ∷ xs) same;
          newer = (ground arith, w.newer);
          within = ground arith;
          reason = elim (Bool-cases (leb m (suc (length out)))) [
            | inl full ↦ inl (ground arith, full)
            | inr more ↦ inr (tt, λ h. ground arith)
          ];
          all_seen = λ h. (refl, inl (ground arith));
        })
      ]

  pub walk-IsWalk :
      (n : ℕ) (es : List (LogEntry S))
      → Consecutive n es
      → IsWalk since m es (walk since m es).0 (walk since m es).1
  unfolding walk
  walk-IsWalk n [] c = record {
    older = [];
    split = refl;
    newer = tt;
    within = ground arith;
    reason = inr (tt, λ h. ground arith);
    all_seen = λ h. (refl, inr refl);
  }
  walk-IsWalk n (e ∷ es) c =
      walk_entry-IsWalk n e es (walk since m es).0 (walk since m es).1 c.0 c.1
        (walk-IsWalk (suc n) es c.1)

-- At most `ring_capacity` entries, in a row up to the last number given out; all that were logged,
-- unless the ring is full.
pub record IsRing {S K : Type 0} (d : Diagnostics S K) : Type 0 where
  pub first : ℕ
  pub in_a_row : Consecutive first d.ring
  pub up_to : first + length d.ring ≡ d.next_seq
  pub bounded : length d.ring ≤ ring_capacity
  pub whole : (first ≡ 1) ⊎ (length d.ring ≡ ring_capacity)

Consecutive-append :
    {S : Type 0} (n : ℕ) (es : List (LogEntry S)) (e : LogEntry S)
    → Consecutive n es
    → e.seq ≡ n + length es
    → Consecutive n (es ++ e ∷ [])
Consecutive-append n [] e c h = (omega (arith, h), tt)
Consecutive-append n (x ∷ xs) e c h = (c.0, Consecutive-append (suc n) xs e c.1 (omega (arith, h)))

Consecutive-drop :
    {S : Type 0} (n : ℕ) (es : List (LogEntry S))
    → Consecutive n es
    → 0 < length es
    → Consecutive (suc n) (drop 1 es) × (length es ≡ suc (length (drop 1 es)))
Consecutive-drop n [] c h = ground arith
Consecutive-drop n (e ∷ es) c h = (c.1, refl)

module _ {S K : Type 0} where
  pub log-IsRing :
      (now : ℕ) (level : LogLevel) (text : S) (d : Diagnostics S K)
      → IsRing d
      → IsRing (log now level text d).1
  unfolding log
  log-IsRing now level text d r = elim (Bool-cases (leb ring_capacity (length d.ring))) [
    | inl full ↦
        let here : length d.ring ≡ ring_capacity = ground (arith, r.bounded) in
        let (in_a_row, shorter) = Consecutive-drop r.first d.ring r.in_a_row (ground arith) in
        rw (full, log)
          (record {
            first = suc r.first;
            in_a_row =
                Consecutive-append (suc r.first) (drop 1 d.ring) _ in_a_row
                  (omega (arith, r.up_to, shorter));
            up_to = omega (arith, r.up_to, shorter, length-append (drop 1 d.ring) (_ ∷ []));
            bounded = omega (arith, r.bounded, shorter, length-append (drop 1 d.ring) (_ ∷ []));
            whole = inr (omega (arith, here, shorter, length-append (drop 1 d.ring) (_ ∷ [])));
          })
    | inr room ↦
        let small : length d.ring < ring_capacity = ground arith in
        rw (room, log)
          (record {
            first = r.first;
            in_a_row = Consecutive-append r.first d.ring _ r.in_a_row (omega (arith, r.up_to));
            up_to = omega (arith, r.up_to, length-append d.ring (_ ∷ []));
            bounded = omega (arith, small, length-append d.ring (_ ∷ []));
            whole = elim r.whole [
              | inl from_one ↦ inl from_one
              | inr full ↦ absurd (omega (arith, small, full))
            ];
          })
  ]
