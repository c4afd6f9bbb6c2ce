-- ===== src/Window/Shown.antt =====
-- What the controls of an effect show, and what the effect is.
use scrambler.Prelude.{
  ℕ, ◌≤◌, ◌≡◌, refl, sym, ◌∙◌, ℤ, pos, clamp, clamp_bounds, Bool, true, false, not, ◌==◌, ==_true,
  if◌then◌else◌, arith,
}
use scrambler.Window.Sliders.{
  Effect, Controls, direction_changed, set_direction, sync_slider_value, shared_changed, set_shared,
}

pub by_if :
    {A : Type 0} (P : A → Type 0) (b : Bool) (x y : A)
    → (b ≡ true → P x)
    → (b ≡ false → P y)
    → P (if b then x else y)
by_if P true x y f g = f refl
by_if P false x y f g = g refl

pub clamp_fits : (v low high : ℕ) → low ≤ v → v ≤ high → clamp (pos v) low high ≡ v
clamp_fits v low high l h = ground arith

module _ {E V : Type 0} (effect : Effect E V) (low high : ℕ) where
  -- A setting is what it was set to, for a value of the slider, and does not depend on the other
  -- direction.
  pub record IsEffect (shown : ℕ → V) : Type 0 where
    pub set :
        (dir : Bool) (v : ℕ) (e : E)
        → low ≤ v
        → v ≤ high
        → effect.read dir (effect.apply dir v e) ≡ shown v
    pub other :
        (dir : Bool) (v : ℕ) (e : E)
        → effect.read (not dir) (effect.apply dir v e) ≡ effect.read (not dir) e

  module _ (shown : ℕ → V) where
    -- The setting of each direction is what its slider shows.
    pub record IsShown (c : Controls E) : Type 0 where
      pub in_range : (dir : Bool) → (low ≤ c.direction dir) × (c.direction dir ≤ high)
      pub shared_in_range : (low ≤ c.shared) × (c.shared ≤ high)
      pub reads : (dir : Bool) → effect.read dir c.effects ≡ shown (c.direction dir)

    module _ (i : IsEffect shown) (range : low ≤ high) where
      direction_changed-IsShown :
          (dir : Bool) (v : ℕ) (c : Controls E)
          → low ≤ v
          → v ≤ high
          → IsShown c
          → IsShown (direction_changed effect low high dir v c)
      direction_changed-IsShown true v c l h s = record {
        in_range = elim [ true ↦ (l, h) | false ↦ s.in_range false ];
        shared_in_range = s.shared_in_range;
        reads = elim [
          | true ↦ i.set true v c.effects l h
          | false ↦ i.other true v c.effects ∙ s.reads false
        ];
      }
      direction_changed-IsShown false v c l h s = record {
        in_range = elim [ true ↦ s.in_range true | false ↦ (l, h) ];
        shared_in_range = s.shared_in_range;
        reads = elim [
          | true ↦ i.other false v c.effects ∙ s.reads true
          | false ↦ i.set false v c.effects l h
        ];
      }

      pub set_direction-IsShown :
          (dir : Bool) (v : ℤ) (c : Controls E)
          → IsShown c
          → IsShown (set_direction effect low high dir v c)
      unfolding set_direction
      set_direction-IsShown dir v c s =
          let (l, h) = clamp_bounds v low high range in
          by_if IsShown (clamp v low high == c.direction dir) c _ (λ e. s)
            (λ e. direction_changed-IsShown dir (clamp v low high) c l h s)

      -- Both settings are `v` while the sliders follow.
      record IsSyncing (v : ℕ) (c : Controls E) : Type 0 where
        shared_is : c.shared ≡ v
        reads : (dir : Bool) → effect.read dir c.effects ≡ shown v
        in_range : (dir : Bool) → (low ≤ c.direction dir) × (c.direction dir ≤ high)

      IsSynced : Bool → ℕ → Controls E → Controls E → Type 0
      IsSynced dir v c c' =
          IsSyncing v c' × (c'.direction dir ≡ v) × (c'.direction (not dir) ≡ c.direction (not dir))

      direction_changed-IsSynced :
          (dir : Bool) (v : ℕ) (c : Controls E)
          → low ≤ v
          → v ≤ high
          → IsSyncing v c
          → IsSynced dir v c (direction_changed effect low high dir v c)
      unfolding IsSynced
      direction_changed-IsSynced true v c l h s = (
        record {
          shared_is = s.shared_is;
          reads = elim [
            | true ↦ i.set true v c.effects l h
            | false ↦ i.other true v c.effects ∙ s.reads false
          ];
          in_range = elim [ true ↦ (l, h) | false ↦ s.in_range false ];
        },
        refl,
        refl,
      )
      direction_changed-IsSynced false v c l h s = (
        record {
          shared_is = s.shared_is;
          reads = elim [
            | true ↦ i.other false v c.effects ∙ s.reads true
            | false ↦ i.set false v c.effects l h
          ];
          in_range = elim [ true ↦ s.in_range true | false ↦ (l, h) ];
        },
        refl,
        refl,
      )

      synced :
          (dir : Bool) (v : ℕ) (c : Controls E)
          → low ≤ v
          → v ≤ high
          → IsSyncing v c
          → IsSynced dir v c (sync_slider_value effect low high dir v c)
      unfolding sync_slider_value set_direction IsSynced
      synced dir v c l h s =
          let fits = clamp_fits v low high l h in
          by_if (IsSynced dir v c) (c.direction dir == v) c _ (λ e. (s, ==_true _ v e, refl))
            (λ e.
              by_if (IsSynced dir v c) (clamp (pos v) low high == c.direction dir) c _
                (λ e'. (s, sym (==_true _ _ e') ∙ fits, refl))
                (λ e'. rw fits (direction_changed-IsSynced dir v c l h s)))

      -- The shared slider moved: both directions have its value.
      pub record IsAligned (v : ℕ) (c : Controls E) : Type 0 where
        pub is_shown : IsShown c
        pub shared_is : c.shared ≡ v
        pub directions_are : (dir : Bool) → c.direction dir ≡ v

      pub shared_changed-IsAligned :
          (v : ℕ) (c : Controls E)
          → low ≤ v
          → v ≤ high
          → ((dir : Bool) → (low ≤ c.direction dir) × (c.direction dir ≤ high))
          → IsAligned v (shared_changed effect low high v c)
      unfolding shared_changed IsSynced
      shared_changed-IsAligned v c l h in_range =
          let set_both : Controls E = record c {
            shared = v;
            effects = effect.apply false v (effect.apply true v c.effects);
          } in
          let out = sync_slider_value effect low high true v set_both in
          let (syncing, out_is, _) = synced true v set_both l h (record {
            shared_is = refl;
            reads = elim [
              | true ↦ i.other false v (effect.apply true v c.effects) ∙ i.set true v c.effects l h
              | false ↦ i.set false v (effect.apply true v c.effects) l h
            ];
            in_range = in_range;
          }) in
          let (done, in_is, out_stays) = synced false v out l h syncing in
          let out_is' = out_stays ∙ out_is in
          record {
            is_shown = record {
              in_range = done.in_range;
              shared_in_range = rw done.shared_is (l, h);
              reads = elim [
                | true ↦ rw out_is' (done.reads true)
                | false ↦ rw in_is (done.reads false)
              ];
            };
            shared_is = done.shared_is;
            directions_are = elim [ true ↦ out_is' | false ↦ in_is ];
          }

      pub set_shared-IsShown :
          (v : ℤ) (c : Controls E) → IsShown c → IsShown (set_shared effect low high v c)
      unfolding set_shared
      set_shared-IsShown v c s =
          let (l, h) = clamp_bounds v low high range in
          by_if IsShown (clamp v low high == c.shared) c _ (λ e. s)
            (λ e. (shared_changed-IsAligned (clamp v low high) c l h s.in_range).is_shown)
