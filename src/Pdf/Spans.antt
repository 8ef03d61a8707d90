-- ===== src/Pdf/Spans.antt =====
-- How far a sum of coordinates reaches over a picture, for the pages that `CPdf::add_image` of
-- gui-app/src/Utils/Pdf/Pdf.cpp lays out.
use sane_in_the_membrane.Common.{◌≡◌, ◌∙◌, ◌⊎◌, ◌↔◌, inl, inr, [], ◌∷◌}
use sane_in_the_membrane.Common.Int.{
  ℤ, pos, negsuc, ◌-ℤ◌, ◌*ℤ◌, ◌≤ℤ◌, min_element, max_element, int_laws,
}
use sane_in_the_membrane.Pdf.Geometry.{at_corners}
use sane_in_the_membrane.Pdf.Preview.{lower, upper}

pub ↔_sym : {A B : Type 0} → A ↔ B → B ↔ A
↔_sym (f, g) = (g, f)

pub ↔_trans : {A B C : Type 0} → A ↔ B → B ↔ C → A ↔ C
↔_trans (f, g) (f', g') = (λ a. f' (f a), λ c. g (g' c))

pub one_times : (a x : ℤ) → a ≡ pos 1 → a *ℤ x ≡ x
one_times a x e = rw e (omega int_laws)

pub minus_times : (a x : ℤ) → a ≡ negsuc 0 → a *ℤ x ≡ pos 0 -ℤ x
minus_times a x e = rw e (omega int_laws)

pub zero_times : (a x : ℤ) → a ≡ pos 0 → a *ℤ x ≡ pos 0
zero_times a x e = rw e (omega int_laws)

rising :
    (l q r s u : ℤ)
    → q ≡ pos 0
    → pos 0 ≤ℤ r
    → r ≤ℤ l
    → pos 0 ≤ℤ s
    → s ≤ℤ l
    → u ≡ l
    → (min_element q (r ∷ s ∷ u ∷ []) ≡ pos 0) × (max_element q (r ∷ s ∷ u ∷ []) ≡ l)
rising l q r s u e h₀ h₁ h₂ h₃ e' =
    let (a, b, c, d, bounds) = lower q r s u in
    let (a', b', c', d', bounds') = upper q r s u in
    let low = bounds (pos 0) (omega int_laws) h₀ h₂ (omega int_laws) in
    let high = bounds' l (omega int_laws) h₁ h₃ (omega int_laws) in
    (omega (int_laws, low, a), omega (int_laws, high, d'))

falling :
    (l q r s u : ℤ)
    → q ≡ pos 0
    → r ≤ℤ pos 0
    → pos 0 -ℤ l ≤ℤ r
    → s ≤ℤ pos 0
    → pos 0 -ℤ l ≤ℤ s
    → u ≡ pos 0 -ℤ l
    → (min_element q (r ∷ s ∷ u ∷ []) ≡ pos 0 -ℤ l) × (max_element q (r ∷ s ∷ u ∷ []) ≡ pos 0)
falling l q r s u e h₀ h₁ h₂ h₃ e' =
    let (a, b, c, d, bounds) = lower q r s u in
    let (a', b', c', d', bounds') = upper q r s u in
    let low = bounds (pos 0 -ℤ l) (omega int_laws) h₁ h₃ (omega int_laws) in
    let high = bounds' (pos 0) (omega int_laws) h₀ h₂ (omega int_laws) in
    (omega (int_laws, low, d), omega (int_laws, high, a'))

-- Over a picture, a function goes over a stretch, along a coordinate or against it.
pub record Spans (w h : ℤ) (f : ℤ → ℤ → ℤ) (l : ℤ) (z : ℤ → ℤ → ℤ) : Type 0 where
  pub extent : at_corners w h max_element f -ℤ at_corners w h min_element f ≡ l
  pub along :
      ((x y : ℤ) → f x y -ℤ at_corners w h min_element f ≡ z x y)
      ⊎ ((x y : ℤ) → f x y -ℤ at_corners w h min_element f ≡ l -ℤ z x y)

-- A coordinate of a picture whose sides have lengths.
pub record IsCoordinate (w h l : ℤ) (z : ℤ → ℤ → ℤ) : Type 0 where
  pub first : z (pos 0) (pos 0) ≡ pos 0
  pub last : z w h ≡ l
  pub right : (pos 0 ≤ℤ z w (pos 0)) × (z w (pos 0) ≤ℤ l)
  pub up : (pos 0 ≤ℤ z (pos 0) h) × (z (pos 0) h ≤ℤ l)

module _ (w h l : ℤ) (f z : ℤ → ℤ → ℤ) (c : IsCoordinate w h l z) where
  Spans-along : ((x y : ℤ) → f x y ≡ z x y) → Spans w h f l z
  Spans-along e =
      let (low, high) =
        rising l (f (pos 0) (pos 0)) (f w (pos 0)) (f (pos 0) h) (f w h)
          (e (pos 0) (pos 0) ∙ c.first) (rw (e w (pos 0)) c.right.0) (rw (e w (pos 0)) c.right.1)
          (rw (e (pos 0) h) c.up.0) (rw (e (pos 0) h) c.up.1) (e w h ∙ c.last) in
      record {
        extent = omega (int_laws, low, high);
        along = inl (λ x y. omega (int_laws, low, e x y));
      }

  Spans-against : ((x y : ℤ) → f x y ≡ pos 0 -ℤ z x y) → Spans w h f l z
  Spans-against e =
      let (low, high) =
        falling l (f (pos 0) (pos 0)) (f w (pos 0)) (f (pos 0) h) (f w h)
          (omega (int_laws, e (pos 0) (pos 0), c.first)) (omega (int_laws, e w (pos 0), c.right.0))
          (omega (int_laws, e w (pos 0), c.right.1)) (omega (int_laws, e (pos 0) h, c.up.0))
          (omega (int_laws, e (pos 0) h, c.up.1)) (omega (int_laws, e w h, c.last)) in
      record {
        extent = omega (int_laws, low, high);
        along = inr (λ x y. omega (int_laws, low, e x y));
      }

abbrev pub IsUnit : ℤ → Type 0
IsUnit a = (a ≡ pos 1) ⊎ (a ≡ negsuc 0)

-- The sum of a coordinate taken once, or back, and of one that is not taken.
module _ (w h l : ℤ) (z : ℤ → ℤ → ℤ) (f : ℤ → ℤ → ℤ) (c : IsCoordinate w h l z) where
  pub Spans-unit : (a : ℤ) → IsUnit a → ((x y : ℤ) → f x y ≡ a *ℤ z x y) → Spans w h f l z
  Spans-unit a (inl e) same = Spans-along w h l f z c (λ x y. same x y ∙ one_times a (z x y) e)
  Spans-unit a (inr e) same = Spans-against w h l f z c (λ x y. same x y ∙ minus_times a (z x y) e)

-- A number from 0 to a length.
abbrev pub Within : ℤ → ℤ → Type 0
Within l a = (pos 0 ≤ℤ a) × (a ≤ℤ l)

pub Spans-Within :
    (w h l : ℤ) (f z : ℤ → ℤ → ℤ) (x y : ℤ)
    → Spans w h f l z
    → Within l (f x y -ℤ at_corners w h min_element f) ↔ Within l (z x y)
Spans-Within w h l f z x y s = elim s.along [
  | inl e ↦ omega (int_laws, e x y)
  | inr e ↦ omega (int_laws, e x y)
]

pub Within-flip : (l a b : ℤ) → b ≡ l -ℤ a → Within l a ↔ Within l b
Within-flip l a b e = omega int_laws
