-- ===== src/Prelude/Perms.antt =====
-- Permutations as data, and what they keep.
use Prim.Native.Nat.{ℕ, suc, ◌+◌}
use mathlib.Core.Path.{◌≡◌, refl, ap, ap₂, ◌∙◌, subst}
use mathlib.Core.List.{List, [], ◌∷◌, ◌++◌, map, Permᴰ}
use native.Mathlib.Omega.{arith}
use scrambler.Prelude.Num.{◌==◌, if◌then◌else◌}
use scrambler.Prelude.Lists.{All, length}

-- How often a slot's number occurs.
abbrev pub count : ℕ → List ℕ → ℕ
count slot [] = 0
count slot (first ∷ rest) = (if first == slot then 1 else 0) + count slot rest

pub count-append :
    (slot : ℕ) (free used : List ℕ) → count slot (free ++ used) ≡ count slot free + count slot used
count-append slot [] used = omega arith
count-append slot (first ∷ rest) used = omega (count-append slot rest used, arith)

module _ {ℓ} {A : Type ℓ} where
  pub All-Perm {κ} : (P : A → Type κ) {xs ys : List A} → Permᴰ xs ys → All P xs → All P ys
  All-Perm P Permᴰ.nil h = tt
  All-Perm P (Permᴰ.cons e d) h = (subst P e h.0, All-Perm P d h.1)
  All-Perm P (Permᴰ.swap e₁ e₂) h = (subst P e₂ h.1.0, (subst P e₁ h.0, h.1.1))
  All-Perm P (Permᴰ.trans d₁ d₂) h = All-Perm P d₂ (All-Perm P d₁ h)

  pub All-append_left {κ} : (P : A → Type κ) (xs ys : List A) → All P (xs ++ ys) → All P xs
  All-append_left P [] ys h = tt
  All-append_left P (x ∷ xs) ys h = (h.0, All-append_left P xs ys h.1)

  pub All-append_right {κ} : (P : A → Type κ) (xs ys : List A) → All P (xs ++ ys) → All P ys
  All-append_right P [] ys h = h
  All-append_right P (x ∷ xs) ys h = All-append_right P xs ys h.1

  pub length-Perm : {xs ys : List A} → Permᴰ xs ys → length xs ≡ length ys
  length-Perm Permᴰ.nil = refl
  length-Perm (Permᴰ.cons e d) = ap suc (length-Perm d)
  length-Perm (Permᴰ.swap e₁ e₂) = refl
  length-Perm (Permᴰ.trans d₁ d₂) = length-Perm d₁ ∙ length-Perm d₂

  -- A permutation has every number as often.
  pub count-Perm :
      (f : A → ℕ) (a : ℕ) {xs ys : List A} → Permᴰ xs ys → count a (map f xs) ≡ count a (map f ys)
  count-Perm f a Permᴰ.nil = refl
  count-Perm f a (Permᴰ.cons e d) =
      ap₂ (λ x n. (if f x == a then 1 else 0) + n) e (count-Perm f a d)
  count-Perm f a (Permᴰ.swap e₁ e₂) = rw (e₁, e₂) (omega arith)
  count-Perm f a (Permᴰ.trans d₁ d₂) = count-Perm f a d₁ ∙ count-Perm f a d₂
