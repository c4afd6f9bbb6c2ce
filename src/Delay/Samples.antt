-- ===== src/Delay/Samples.antt =====
-- The interfaces can be met: a ring as a list, and a priority queue as a list that is searched for
-- its least entry.
use scrambler.Prelude.{
  ℕ, ◌≤◌, ◌≡◌, refl, subst, Option, none, some, List, [], ◌∷◌, ◌++◌, leb, if◌then◌else◌, inl, inr,
  Bool-cases, All, All-weaken, Permᴰ, arith,
}
use mathlib.Core.Option.{some-injective}
use mathlib.Core.List.Permᴰ
use scrambler.Delay.Interfaces.{PriorityQueue, SpscQueue}

abbrev head? : List ℕ → Option ℕ
head? [] = none
head? (x ∷ xs) = some x

abbrev tail : List ℕ → List ℕ
tail [] = []
tail (x ∷ xs) = xs

pub head?-none : (xs : List ℕ) → head? xs ≡ none → xs ≡ []
head?-none [] h = refl
head?-none (x ∷ xs) h = cc

pub head?-some : (xs : List ℕ) (x : ℕ) → head? xs ≡ some x → xs ≡ x ∷ tail xs
head?-some [] x h = cc
head?-some (y ∷ ys) x h = ground arith

abbrev pub list_ring : (capacity : ℕ) → SpscQueue ℕ capacity
list_ring capacity = record {
  Queue = List ℕ;
  empty = [];
  front = head?;
  pop = tail;
  push = λ p q. q ++ p ∷ [];
  items = λ q. q;
  items-empty = refl;
  front-none = head?-none;
  front-some = head?-some;
  items-push = λ p q room. refl;
}

module _ {P : Type 0} (release_at : P → ℕ) where
  -- The first of the least entries, and the others.
  abbrev earlier : P → List P → Option (P × List P) → P × List P
  earlier x xs none = (x, [])
  earlier x xs (some (m, rest)) =
      if leb (release_at x) (release_at m) then (x, xs) else (m, x ∷ rest)

  abbrev extract : List P → Option (P × List P)
  extract [] = none
  extract (x ∷ xs) = some (earlier x xs (extract xs))

  abbrev least : List P → Option P
  least xs = elim (extract xs) [ none ↦ none | some (m, rest) ↦ some m ]

  abbrev others : List P → List P
  others xs = elim (extract xs) [ none ↦ [] | some (m, rest) ↦ rest ]

  pub least-none : (xs : List P) → least xs ≡ none → xs ≡ []
  least-none [] h = refl
  least-none (x ∷ xs) h = cc

  record IsExtracted (xs : List P) (m : P) (rest : List P) : Type 0 where
    same : Permᴰ xs (m ∷ rest)
    smallest : All (λ x. release_at m ≤ release_at x) xs

  extract-IsExtracted :
      (x : P) (xs : List P)
      → IsExtracted (x ∷ xs) (earlier x xs (extract xs)).0 (earlier x xs (extract xs)).1
  extract-IsExtracted x [] = record { same = Permᴰ.refl _; smallest = omega arith }
  extract-IsExtracted x (y ∷ ys) =
      let rest = extract-IsExtracted y ys in
      let found = earlier y ys (extract ys) in
      elim (Bool-cases (leb (release_at x) (release_at found.0))) [
        | inl first ↦ rw first (record {
          same = Permᴰ.refl _;
          smallest = (omega arith, All-weaken (y ∷ ys) (λ z h. ground arith) rest.smallest);
        })
        | inr later ↦ rw later (record {
          same = Permᴰ.trans (Permᴰ.cons refl rest.same) (Permᴰ.swap refl refl);
          smallest = (ground arith, rest.smallest);
        })
      ]

  pub least-some : (xs : List P) (p : P) → least xs ≡ some p → Permᴰ xs (p ∷ others xs)
  least-some [] p h = cc
  least-some (x ∷ xs) p h =
      subst (λ z. Permᴰ (x ∷ xs) (z ∷ others (x ∷ xs))) (some-injective _ _ h)
        (extract-IsExtracted x xs).same

  pub least-least :
      (xs : List P) (p : P) → least xs ≡ some p → All (λ x. release_at p ≤ release_at x) xs
  least-least [] p h = cc
  least-least (x ∷ xs) p h =
      subst (λ z. All (λ y. release_at z ≤ release_at y) (x ∷ xs)) (some-injective _ _ h)
        (extract-IsExtracted x xs).smallest

  abbrev pub list_heap : PriorityQueue P release_at
  list_heap = record {
    Queue = List P;
    empty = [];
    push = λ p q. p ∷ q;
    top = least;
    pop = others;
    items = λ q. q;
    items-empty = refl;
    items-push = λ p q. Permᴰ.refl (p ∷ q);
    top-none = least-none;
    top-some = least-some;
    top-least = least-least;
  }
