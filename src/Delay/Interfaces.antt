-- ===== src/Delay/Interfaces.antt =====
-- The containers that the delay queue is built on, as interfaces with the laws that it relies on:
-- `std::priority_queue` ordered by release time (ties in any order), and the single-producer
-- single-consumer queue of third_party/rigtorp, whose `push` waits while the queue is full.
use scrambler.Prelude.{
  ℕ, ◌≤◌, ◌<◌, ◌≡◌, Option, none, some, List, [], ◌∷◌, ◌++◌, length, All, Permᴰ,
}

pub record PriorityQueue (P : Type 0) (release_at : P → ℕ) : Type 1 where
  pub Queue : Type 0
  pub empty : Queue
  pub push : P → Queue → Queue
  pub top : Queue → Option P
  pub pop : Queue → Queue
  pub items : Queue → List P
  pub items-empty : items empty ≡ []
  pub items-push : (p : P) (q : Queue) → Permᴰ (items (push p q)) (p ∷ items q)
  pub top-none : (q : Queue) → top q ≡ none → items q ≡ []
  pub top-some : (q : Queue) (p : P) → top q ≡ some p → Permᴰ (items q) (p ∷ items (pop q))
  pub top-least :
      (q : Queue) (p : P) → top q ≡ some p → All (λ x. release_at p ≤ release_at x) (items q)

-- `front` is the oldest entry; `push` is only described where it does not wait.
pub record SpscQueue (P : Type 0) (capacity : ℕ) : Type 1 where
  pub Queue : Type 0
  pub empty : Queue
  pub front : Queue → Option P
  pub pop : Queue → Queue
  pub push : P → Queue → Queue
  pub items : Queue → List P
  pub items-empty : items empty ≡ []
  pub front-none : (q : Queue) → front q ≡ none → items q ≡ []
  pub front-some : (q : Queue) (p : P) → front q ≡ some p → items q ≡ p ∷ items (pop q)
  pub items-push :
      (p : P) (q : Queue) → length (items q) < capacity → items (push p q) ≡ items q ++ p ∷ []
