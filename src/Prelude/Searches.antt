-- ===== src/Prelude/Searches.antt =====
-- What a search in a text or in a list finds.
use mathlib.Core.Path.{◌≡◌, refl, ap, ap₂}
use mathlib.Core.Logic.{◌↔◌, inl, inr}
use mathlib.Core.Bool.{Bool, true, ◌||◌}
use mathlib.Core.List.{List, [], ◌∷◌, ◌++◌}
use native.Mathlib.Omega.{arith}
use grove_suite.Prelude.Tests.{Bool-cases}
use grove_suite.Prelude.Lists.{any}
use grove_suite.Prelude.Texts.{Text, has_prefix, contains}
use grove_suite.Prelude.Members.{Among}

-- The text starts with `p`.
abbrev pub StartsWith : Text → Text → Type 0
StartsWith p s = (r : Text) × (s ≡ p ++ r)

-- The text holds `p` somewhere.
abbrev pub Holds : Text → Text → Type 0
Holds p s = (u : Text) × (v : Text) × (s ≡ u ++ (p ++ v))

pub has_prefix_iff : (s p : Text) → (has_prefix s p ≡ true) ↔ StartsWith p s
unfolding has_prefix
has_prefix_iff s [] = (λ e. (s, refl), λ h. refl)
has_prefix_iff [] (c ∷ p) = (λ e. absurd (ground (arith, e)), λ (r, e). absurd (ground (arith, e)))
has_prefix_iff (d ∷ s) (c ∷ p) =
    let ih = has_prefix_iff s p in
    (
      λ e.
          let (r, h) = ih.0 (ground (arith, e)) in
          let same : d ≡ c = ground (arith, e) in (r, ap₂ (◌∷◌) same h),
      λ (r, e). ground (arith, ih.1 (r, ground (arith, e)), e),
    )

pub contains_iff : (s p : Text) → (contains s p ≡ true) ↔ Holds p s
unfolding contains
contains_iff [] p = (
  λ e. let (r, h) = (has_prefix_iff [] p).0 e in ([], r, h),
  λ (u, v, h). (has_prefix_iff [] p).1 (at_start u v h),
)
  where
    at_start : (u v : Text) → [] ≡ u ++ (p ++ v) → StartsWith p []
    at_start [] v h = (v, h)
    at_start (c ∷ u) v h = absurd (ground (arith, h))
contains_iff (c ∷ s) p = (
  λ e. elim (Bool-cases (has_prefix (c ∷ s) p)) [
    | inl here ↦ let (r, h) = (has_prefix_iff (c ∷ s) p).0 here in ([], r, h)
    | inr later ↦
        let (u, v, h) = (contains_iff s p).0 (ground (arith, e, later)) in (c ∷ u, v, ap (◌∷◌ c) h)
  ],
  λ (u, v, h). split (λ w. (contains_iff s p).1 w) u v h,
)
  where
    split :
        (Holds p s → contains s p ≡ true)
        → (u v : Text) → c ∷ s ≡ u ++ (p ++ v)
        → (has_prefix (c ∷ s) p || contains s p) ≡ true
    split later [] v h = ground (arith, (has_prefix_iff (c ∷ s) p).1 (v, h))
    split later (d ∷ u) v h = ground (arith, later (u, v, ground (arith, h)))

pub any_iff :
    {A : Type 0} (p : A → Bool) (xs : List A)
    → (any p xs ≡ true) ↔ ((x : A) × Among x xs × (p x ≡ true))
any_iff p [] = (λ e. absurd (ground (arith, e)), λ (x, m, e). absurd m)
any_iff p (x ∷ xs) = (
  λ e. elim (Bool-cases (p x)) [
    | inl h ↦ (x, inl refl, h)
    | inr h ↦ let (y, m, f) = (any_iff p xs).0 (ground (arith, e, h)) in (y, inr m, f)
  ],
  λ (y, m, e). elim m [
    | inl same ↦ ground (arith, ap p same, e)
    | inr later ↦ ground (arith, (any_iff p xs).1 (y, later, e))
  ],
)
