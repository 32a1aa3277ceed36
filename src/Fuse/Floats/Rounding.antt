-- ===== src/Fuse/Floats/Rounding.antt =====
-- Rounding of doubles passes no multiple of 1/2.
use native.Mathlib.Nat.{
  div-le_of_le-mul, le-div_iff_mul-le, div-add-mod', mul-le-mul_right, mul_assoc,
}
use grove_suite.Prelude.{
  ℕ, zero, suc, ◌*◌, ◌/◌, ◌%◌, ◌≤◌, ◌<◌, ◌≡◌, sym, ap, ◌∙◌, subst, true, ◌==◌, ltb, inl, inr, arith,
  Bool-cases,
}
use grove_suite.Fuse.Floats.{half, one, nearest, unit_of, round, mean_float}

pub le-nearest : (n m d : ℕ) → 0 < d → m * d ≤ n → m ≤ nearest n d
unfolding nearest
le-nearest n m d pos h = ground (arith, (le-div_iff_mul-le {k = d} {x = m} {y = n} pos).1 h)

pub nearest-le : (n m d : ℕ) → 0 < d → n ≤ m * d → nearest n d ≤ m
unfolding nearest
nearest-le n m d pos h = elim (Bool-cases (n / d == m)) [
  | inl e ↦
      let exact : n % d ≡ 0 =
        omega (arith, div-add-mod' n d, ap (λ (t : ℕ). t * d) (at_most e), h) in
      ground (arith, exact, at_most e, pos)
  | inr e ↦ ground (arith, div-le_of_le-mul d {m = n} {n = m} (omega (arith, h)), e)
]
  where
    at_most : (n / d == m) ≡ true → n / d ≡ m
    at_most e = ground (arith, e)

-- What `unit_of` can reach at most.
abbrev doubled : ℕ → ℕ → ℕ
doubled zero u = u
doubled (suc fuel) u = doubled fuel (2 * u)

doubled-Divides : (fuel u : ℕ) → (c : ℕ) × (c * u ≡ doubled fuel u)
doubled-Divides zero u = (1, omega arith)
doubled-Divides (suc fuel) u =
    let (c, h) = doubled-Divides fuel (2 * u) in (2 * c, omega (arith, h))

unit_of-divides : (fuel n u : ℕ) → (c : ℕ) × (c * unit_of fuel n u ≡ doubled fuel u)
unfolding unit_of
unit_of-divides zero n u = (1, omega arith)
unit_of-divides (suc fuel) n u = elim (Bool-cases (ltb n (half * u))) [
  | inl h ↦ rw h (doubled-Divides (suc fuel) u)
  | inr h ↦ rw h (unit_of-divides fuel n (2 * u))
]

unit_divides : (n : ℕ) → (c : ℕ) × (c * unit_of 53 n 1 ≡ half)
unit_divides n = unit_of-divides 53 n 1

unit_positive : (c u : ℕ) → c * u ≡ half → 0 < u
unit_positive c zero h = absurd (omega (arith, h))
unit_positive c (suc u) h = omega arith

pub round-le : (n k : ℕ) → n ≤ k * half → round n ≤ k * half
unfolding round
round-le n k h =
    let (c, e) = unit_divides n in
    let u = unit_of 53 n 1 in
    let whole : k * half ≡ k * c * u = sym (mul_assoc k c u ∙ ap (λ (t : ℕ). k * t) e) in
    rw whole (
      mul-le-mul_right u
        (nearest-le n (k * c) u (unit_positive c u e) (subst (λ t. n ≤ t) whole h)))

pub le-round : (n k : ℕ) → k * half ≤ n → k * half ≤ round n
unfolding round
le-round n k h =
    let (c, e) = unit_divides n in
    let u = unit_of 53 n 1 in
    let whole : k * half ≡ k * c * u = sym (mul_assoc k c u ∙ ap (λ (t : ℕ). k * t) e) in
    rw whole (
      mul-le-mul_right u
        (le-nearest n (k * c) u (unit_positive c u e) (subst (λ t. t ≤ n) whole h)))

pub mean_float-le : (a n : ℕ) → 0 < n → a ≤ one * n → mean_float a n ≤ one
unfolding mean_float
mean_float-le a n pos h = elim (Bool-cases (ltb a (half * n))) [
  | inl l ↦ rw l (ground (arith, nearest-le a half n pos (ground (arith, l))))
  | inr l ↦ rw l (omega (arith, nearest-le a half (2 * n) (omega (arith, pos)) (omega (arith, h))))
]

pub le-mean_float : (a n : ℕ) → 0 < n → half * n ≤ a → half ≤ mean_float a n
unfolding mean_float
le-mean_float a n pos h = elim (Bool-cases (ltb a (half * n))) [
  | inl l ↦ absurd (ground (arith, l, h))
  | inr l ↦
      rw l (
        omega
          (arith, le-nearest a 4503599627370496 (2 * n) (omega (arith, pos)) (omega (arith, h))))
]
