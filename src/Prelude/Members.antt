-- ===== src/Prelude/Members.antt =====
-- Membership in a list as a sum of equations, and the functions on lists that keep it.
use mathlib.Core.Path.{◌≡◌, refl, sym, ap, subst, ◌∙◌}
use mathlib.Core.Logic.{◌↔◌, ◌⊎◌, inl, inr}
use mathlib.Core.Bool.{Bool, true}
use mathlib.Core.List.{List, [], ◌∷◌, ◌++◌, map}
use native.Mathlib.Omega.{arith}
use grove_suite.Prelude.Tests.{ltb, Bool-cases}
use grove_suite.Prelude.Lists.{concat_map, keep_if, All, length}
use grove_suite.Prelude.Texts.{Text, text_eq_iff}
use grove_suite.Prelude.Maps.{member, add_key, add_keys}
use grove_suite.Prelude.Sorts.{place, sort_stable}

module _ {A : Type 0} where
  abbrev pub Among : A → List A → Type 0
  Among x [] = ⊥
  Among x (y ∷ ys) = (x ≡ y) ⊎ Among x ys

  pub Among-keep_if :
      (p : A → Bool) (x : A) (xs : List A) → Among x (keep_if p xs) ↔ (Among x xs × (p x ≡ true))
  Among-keep_if p x [] = (λ m. absurd m, λ m. absurd m.0)
  Among-keep_if p x (y ∷ ys) = elim (Bool-cases (p y)) [
    | inl h ↦ rw h (ground (arith, Among-keep_if p x ys, ap p, h))
    | inr h ↦ rw h (ground (arith, Among-keep_if p x ys, ap p, h))
  ]

  pub All-of-Among {κ} : (P : A → Type κ) (xs : List A) → ((x : A) → Among x xs → P x) → All P xs
  All-of-Among P [] f = tt
  All-of-Among P (x ∷ xs) f = (f x (inl refl), All-of-Among P xs (λ y m. f y (inr m)))

  pub Among_of-All {κ} : (P : A → Type κ) (x : A) (xs : List A) → All P xs → Among x xs → P x
  Among_of-All P x [] a m = absurd m
  Among_of-All P x (y ∷ ys) a (inl e) = subst P (sym e) a.0
  Among_of-All P x (y ∷ ys) a (inr m) = Among_of-All P x ys a.1 m

  pub Among-append : (x : A) (xs ys : List A) → Among x (xs ++ ys) ↔ (Among x xs ⊎ Among x ys)
  Among-append x [] ys = (inr, λ m. elim m [ inl n ↦ absurd n | inr n ↦ n ])
  Among-append x (y ∷ xs) ys = ground (arith, Among-append x xs ys)

  pub Among-place :
      (less : A → A → Bool) (x y : A) (ys : List A)
      → Among x (place less y ys) ↔ ((x ≡ y) ⊎ Among x ys)
  unfolding place
  Among-place less x y [] = ground arith
  Among-place less x y (z ∷ ys) = elim (Bool-cases (less z y)) [
    | inl h ↦ rw h (ground (arith, Among-place less x y ys))
    | inr h ↦ rw h (ground arith)
  ]

  pub Among-sort_stable :
      (less : A → A → Bool) (x : A) (xs : List A) → Among x (sort_stable less xs) ↔ Among x xs
  unfolding sort_stable
  Among-sort_stable less x [] = ground arith
  Among-sort_stable less x (y ∷ ys) =
      ground (arith, Among-place less x y (sort_stable less ys), Among-sort_stable less x ys)

pub Among-map :
    {A B : Type 0} (f : A → B) (y : B) (xs : List A)
    → Among y (map f xs) ↔ ((x : A) × Among x xs × (y ≡ f x))
Among-map f y [] = (λ m. absurd m, λ (x, m, e). m)
Among-map f y (x ∷ xs) = (
  λ m. elim m [
    | inl e ↦ (x, inl refl, e)
    | inr r ↦ let (z, there, e) = (Among-map f y xs).0 r in (z, inr there, e)
  ],
  λ (z, m, e). elim m [
    | inl same ↦ inl (e ∙ ap f same)
    | inr r ↦ inr ((Among-map f y xs).1 (z, r, e))
  ],
)

pub Among-concat_map :
    {A B : Type 0} (f : A → List B) (y : B) (xs : List A)
    → Among y (concat_map f xs) ↔ ((x : A) × Among x xs × Among y (f x))
Among-concat_map f y [] = (λ m. absurd m, λ (x, m, e). m)
Among-concat_map f y (x ∷ xs) =
    let split = Among-append y (f x) (concat_map f xs) in
    (
      λ m. elim (split.0 m) [
        | inl here ↦ (x, inl refl, here)
        | inr there ↦ let (z, n, e) = (Among-concat_map f y xs).0 there in (z, inr n, e)
      ],
      λ (z, m, e). elim m [
        | inl same ↦ split.1 (inl (subst (λ w. Among y (f w)) same e))
        | inr r ↦ split.1 (inr ((Among-concat_map f y xs).1 (z, r, e)))
      ],
    )

-- Something is kept where some element passes.
pub kept_iff :
    {A : Type 0} (p : A → Bool) (xs : List A)
    → (ltb 0 (length (keep_if p xs)) ≡ true) ↔ ((x : A) × Among x xs × (p x ≡ true))
kept_iff p [] = (λ h. ground (arith, h), λ (x, m, e). absurd m)
kept_iff p (x ∷ xs) = elim (Bool-cases (p x)) [
  | inl h ↦ (λ g. (x, inl refl, h), λ r. rw h (ground arith))
  | inr h ↦ rw h (
    λ g. let (y, m, e) = (kept_iff p xs).0 g in (y, inr m, e),
    λ (y, m, e). elim m [
      | inl same ↦ ground (arith, ap p same, h, e)
      | inr r ↦ (kept_iff p xs).1 (y, r, e)
    ],
  )
]

pub member_iff : (k : Text) (s : List Text) → (member k s ≡ true) ↔ Among k s
unfolding member
member_iff k [] = ground arith
member_iff k (j ∷ s) = ground (arith, text_eq_iff j k, member_iff k s)

member-add_key :
    (k v : Text) (set : List Text)
    → (member k (add_key v set) ≡ true) ↔ ((v ≡ k) ⊎ (member k set ≡ true))
unfolding add_key
member-add_key k v set = elim (Bool-cases (member v set)) [
  | inl h ↦ rw h (ground (arith, ap (λ j. member j set), h))
  | inr h ↦
      rw h (
        ground (arith, member_iff k (set ++ v ∷ []), member_iff k set, Among-append k set (v ∷ [])))
]

-- A set holds what it held and what was added.
pub member-add_keys :
    (k : Text) (vs set : List Text)
    → (member k (add_keys vs set) ≡ true) ↔ (Among k vs ⊎ (member k set ≡ true))
unfolding add_keys
member-add_keys k [] set = ground arith
member-add_keys k (v ∷ vs) set =
    ground (arith, member-add_keys k vs (add_key v set), member-add_key k v set)

pub append_cancel : {A : Type 0} (p : List A) (x y : List A) → p ++ x ≡ p ++ y → x ≡ y
append_cancel [] x y h = h
append_cancel (a ∷ p) x y h = append_cancel p x y (ground (arith, h))
