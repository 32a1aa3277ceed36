-- ===== src/Fuse/Floats.antt =====
-- The doubles of Go that fuse's confidences need: sums of numbers that are not negative and their
-- means between 1/4 and 1, rounded to nearest, ties to even. A double is a whole number of units of
-- 2 ^ -54. `round` gives the double next to a number below 2 ^ 52: its unit is doubled at most 53
-- times.
pub mod Rounding
use grove_suite.Prelude.{
  ℕ, zero, suc, ◌+◌, ◌*◌, ◌/◌, ◌%◌, ◌≤◌, ◌<◌, ◌≡◌, refl, sym, ap, ◌∙◌, Bool, true, false, ◌&&◌,
  ◌||◌, ◌==◌, ltb, if◌then◌else◌, inl, inr, arith, Bool-cases,
}

-- 1/2 is 2 ^ 53 units, and the significand of a double is below 2 ^ 53.
abbrev pub half : ℕ
half = 9007199254740992

abbrev pub one : ℕ
one = 18014398509481984

-- The double nearest to 0.95.
abbrev pub ninety_five : ℕ
ninety_five = 17113678584007884

-- The double nearest to 0.45.
abbrev pub forty_five : ℕ
forty_five = 8106479329266893

-- The quotient rounded to nearest, ties to even.
unfoldable pub nearest : ℕ → ℕ → ℕ
nearest n d =
    let q = n / d in
    let r = n % d in if ltb (2 * r) d || ((2 * r == d) && (q % 2 == 0)) then q else q + 1

-- The unit in which a number has a significand below 2 ^ 53.
unfoldable pub unit_of : ℕ → ℕ → ℕ → ℕ
unit_of zero n u = u
unit_of (suc fuel) n u =
    let larger = unit_of fuel n (2 * u) in if ltb n (half * u) then u else larger

unfoldable pub round : ℕ → ℕ
unfolding nearest unit_of
round n = let u = unit_of 53 n 1 in nearest n u * u

abbrev pub add_float : ℕ → ℕ → ℕ
add_float a b = round (a + b)

-- A sum over how many it has; the quotient is at least 1/4 and at most 1.
unfoldable pub mean_float : ℕ → ℕ → ℕ
unfolding nearest
mean_float a n = if ltb a (half * n) then nearest a n else 2 * nearest a (2 * n)
