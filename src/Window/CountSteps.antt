-- ===== src/Window/CountSteps.antt =====
-- The steps on the count of duplicates, and what the counts are after each.
use scrambler.Prelude.{
  ℕ, ◌≤◌, ◌≡◌, sym, ◌∙◌, ◌⊎◌, inl, inr, ℤ, pos, clamp, clamp_bounds, Bool, true, false, not, ◌==◌,
  ==_true, arith,
}
use scrambler.Config.Direction.{max_duplicate_copies, default_duplicate_copies}
use scrambler.Config.Effects.{EffectConfig}
use scrambler.Window.Sliders.{Controls, set_direction, set_shared, shared_changed}
use scrambler.Window.Shown.{by_if, clamp_fits, set_direction-IsShown, shared_changed-IsAligned}
use scrambler.Window.Wired.{duplicate_count-IsEffect}
use scrambler.Window.Bursts.{Sliders, controls_of, sliders_of}
use scrambler.Window.Duplicates.{
  DuplicateControls, set_count_of, set_count, custom_counts, counts_follow,
}
use scrambler.Window.Counted.{
  read_count, read_rate, both_counts-rate, CountsAre, IsCountRange, count_effect, AreCounted,
  both_counts_lem, IsMoved, set_direction-IsMoved,
}

abbrev pub low : ℕ
low = default_duplicate_copies

abbrev pub high : ℕ
high = max_duplicate_copies

module _ {F : Type 0} where
  IsMoved-IsCountRange :
      (dir : Bool) (v : ℕ) (c c' : Controls (EffectConfig F))
      → default_duplicate_copies ≤ v
      → v ≤ max_duplicate_copies
      → IsMoved dir v c c'
      → IsCountRange (sliders_of c)
      → IsCountRange (sliders_of c')
  IsMoved-IsCountRange true v c c' l h m r = record {
    direction = elim [
      | true ↦ rw m.direction_is (l, h)
      | false ↦ rw m.other_stays (r.direction false)
    ];
    shared = rw m.shared_stays r.shared;
  }
  IsMoved-IsCountRange false v c c' l h m r = record {
    direction = elim [
      | true ↦ rw m.other_stays (r.direction true)
      | false ↦ rw m.direction_is (l, h)
    ];
    shared = rw m.shared_stays r.shared;
  }

  -- One direction's slider is moved while both directions have their own.
  pub moved-AreCounted :
      (dir : Bool) (v : ℤ) (s : Sliders) (e : EffectConfig F)
      → AreCounted true true s e
      → (let c = set_direction count_effect low high dir v (controls_of s e) in
          AreCounted true true (sliders_of c) c.effects)
  moved-AreCounted dir v s e (r, (out, inbound)) =
      let shown =
        set_direction-IsShown count_effect low high (λ n. n) duplicate_count-IsEffect (omega arith)
          dir v (controls_of s e)
          (record {
            in_range = r.direction;
            shared_in_range = r.shared;
            reads = elim [ true ↦ out | false ↦ inbound ];
          }) in
      (
        record { direction = shown.in_range; shared = shown.shared_in_range },
        (shown.reads true, shown.reads false),
      )

  -- The shared slider is moved, from any state in which the outbound count is `v` if the slider
  -- has it already.
  pub shared-AreCounted :
      (v : ℤ) (s : Sliders) (e : EffectConfig F)
      → IsCountRange s
      → (clamp v low high ≡ s.shared
          → CountsAre true false s (read_count true e) (read_count false e))
      → (let c = set_shared count_effect low high v (controls_of s e) in
          AreCounted true false (sliders_of c) c.effects)
  unfolding set_shared
  shared-AreCounted v s e r same =
      let (l, h) = clamp_bounds v low high (omega arith) in
      let value = clamp v low high in
      by_if (λ (c : Controls (EffectConfig F)). AreCounted true false (sliders_of c) c.effects)
        (value == s.shared) (controls_of s e)
        (shared_changed count_effect low high value (controls_of s e))
        (λ stays. (r, same (==_true _ _ stays)))
        (λ moves.
          let a =
            shared_changed-IsAligned count_effect low high (λ n. n) duplicate_count-IsEffect
              (omega arith) value (controls_of s e) l h r.direction in
          (
            record { direction = a.is_shown.in_range; shared = a.is_shown.shared_in_range },
            (
              a.is_shown.reads true ∙ a.directions_are true ∙ sym a.shared_is,
              inl (a.is_shown.reads false ∙ a.directions_are false ∙ sym a.shared_is),
            ),
          ))

  -- Both directions get sliders of their own, with the shared value.
  apart-AreCounted :
      (s : Sliders) (e : EffectConfig F)
      → AreCounted true false s e
      → (let first = set_direction count_effect low high true (pos s.shared) (controls_of s e) in
          let c =
            set_direction count_effect low high false
              (pos s.shared)
              (controls_of (sliders_of first) first.effects) in
          AreCounted true true (sliders_of c) c.effects)
  apart-AreCounted s e (r, (out, inbound)) =
      let (l, h) = r.shared in
      let c = controls_of s e in
      let first = set_direction count_effect low high true (pos s.shared) c in
      let m = set_direction-IsMoved true s.shared c l h (inl out) in
      let next = controls_of (sliders_of first) first.effects in
      let n =
        set_direction-IsMoved false s.shared next l h
          (elim inbound
            as (λ w.
              (read_count false first.effects ≡ s.shared)
              ⊎ (read_count false first.effects ≡ first.direction false)) [
                | inl is_shared ↦ inl (m.other_count_stays ∙ is_shared)
                | inr is_own ↦ inr (m.other_count_stays ∙ is_own ∙ sym m.other_stays)
              ]) in
      (
        IsMoved-IsCountRange false s.shared next _ l h n
            (IsMoved-IsCountRange true s.shared c first l h m r),
        (
          n.other_count_stays ∙ m.count_is ∙ sym (n.other_stays ∙ m.direction_is),
          n.count_is ∙ sym n.direction_is,
        ),
      )

  pub custom-AreCounted :
      (checked asymmetric : Bool) (s : Sliders) (e : EffectConfig F)
      → IsCountRange s
      → AreCounted checked asymmetric s (custom_counts checked asymmetric s e)
  custom-AreCounted true true s e r = (
    r,
    both_counts_lem (s.direction true) (s.direction false) e (r.direction true) (r.direction false),
  )
  custom-AreCounted true false s e r =
      let (out, inbound) = both_counts_lem s.shared s.shared e r.shared r.shared in
      (r, (out, inl inbound))
  custom-AreCounted false asymmetric s e r = (
    r,
    both_counts_lem default_duplicate_copies default_duplicate_copies e (omega arith) (omega arith),
  )

  pub custom_counts-rate :
      (checked asymmetric : Bool) (s : Sliders) (e : EffectConfig F) (d : Bool)
      → read_rate d (custom_counts checked asymmetric s e) ≡ read_rate d e
  custom_counts-rate true true s e d = both_counts-rate (s.direction true) (s.direction false) d e
  custom_counts-rate true false s e d = both_counts-rate s.shared s.shared d e
  custom_counts-rate false asymmetric s e d =
      both_counts-rate default_duplicate_copies default_duplicate_copies d e

  -- The sliders of the count follow the box for separate directions.
  pub follow-AreCounted :
      (checked : Bool) (c : DuplicateControls (EffectConfig F))
      → AreCounted c.custom (not checked) c.count c.chance.effects
      → AreCounted c.custom checked
          (counts_follow checked c).count
          (counts_follow checked c).chance.effects
  unfolding counts_follow set_count_of set_count
  follow-AreCounted true c h =
      by_if
        (λ (k : DuplicateControls (EffectConfig F)).
          AreCounted c.custom true k.count k.chance.effects)
        c.custom
        (set_count_of false (pos c.count.shared) (set_count_of true (pos c.count.shared) c)) c
        (λ on. rw on (apart-AreCounted c.count c.chance.effects (rw on at h)))
        (λ off. rw off (rw off at h))
  follow-AreCounted false c h =
      by_if
        (λ (k : DuplicateControls (EffectConfig F)).
          AreCounted c.custom false k.count k.chance.effects)
        c.custom (set_count (pos (c.count.direction true)) c) c
        (λ on.
          let (r, (out, inbound)) = rw on at h in
          let (l, u) = r.direction true in
          let fits = clamp_fits (c.count.direction true) low high l u in
          rw on (
            shared-AreCounted (pos (c.count.direction true)) c.count c.chance.effects r
              (λ stays. (out ∙ sym fits ∙ stays, inr inbound))))
        (λ off. rw off (rw off at h))
