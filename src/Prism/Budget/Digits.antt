-- ===== src/Prism/Budget/Digits.antt =====
-- The digits of itoa in budget.go.
use grove_suite.Prelude.{
  ℕ, zero, suc, ◌+◌, ◌-◌, ◌*◌, ◌/◌, ◌%◌, true, false, ◌≤◌, ◌<◌, ◌≡◌, ◌≢◌, refl, ap, ◌∙◌, ◌==◌, ◌&&◌,
  leb, if◌then◌else◌, Option, none, some, [], ◌∷◌, Text, Bool-cases, inl, inr, arith,
}
use grove_suite.Prelude.Integers.{ℤ, pos, negsuc, negate}
use grove_suite.Prism.Budget.{digits, itoa, least_int}

-- The number that a text of digits writes in decimal, read after `n`.
unfoldable pub read_digits : ℕ → Text → Option ℕ
read_digits n [] = some n
read_digits n (c ∷ cs) =
    let rest = read_digits (10 * n + (c - 48)) cs in if leb 48 c && leb c 57 then rest else none

-- At least one digit.
unfoldable pub read_nat : Text → Option ℕ
unfolding read_digits
read_nat [] = none
read_nat (c ∷ cs) = read_digits 0 (c ∷ cs)

abbrev pub signed : (ℕ → ℤ) → Option ℕ → Option ℤ
signed f none = none
signed f (some n) = some (f n)

-- A decimal numeral with an optional minus.
unfoldable pub read_int : Text → Option ℤ
unfolding read_nat
read_int [] = none
read_int (c ∷ cs) =
    if c == b'-' then signed negate (read_nat cs) else signed pos (read_nat (c ∷ cs))

read_digits-digits :
    (fuel n : ℕ) (buf : Text) → n ≤ fuel → read_digits 0 (digits fuel n buf) ≡ read_digits n buf
unfolding digits
read_digits-digits zero n buf h = ap (λ k. read_digits k buf) (omega arith)
read_digits-digits (suc fuel) n buf h = elim (Bool-cases (n == 0)) [
  | inl z ↦ rw z (ap (λ k. read_digits k buf) (ground arith))
  | inr p ↦ rw p (read_digits-digits fuel (n / 10) _ (ground arith) ∙ last_digit n)
]
  where
    last_digit : (n : ℕ) → read_digits (n / 10) ((48 + n % 10) ∷ buf) ≡ read_digits n buf
    last_digit n =
        let whole : 10 * (n / 10) + (48 + n % 10 - 48) ≡ n = omega arith in
        let is_digit : (leb 48 (48 + n % 10) && leb (48 + n % 10) 57) ≡ true = ground arith in
        unfold read_digits in rw (is_digit, whole) refl

-- What stands first where there is a digit to write.
first_digit :
    (fuel n : ℕ) (buf : Text)
    → n ≤ fuel
    → 0 < n
    → (c : ℕ) × (cs : Text) × (digits fuel n buf ≡ c ∷ cs) × (48 ≤ c)
unfolding digits
first_digit zero n buf h p = absurd (omega (arith, h, p))
first_digit (suc fuel) n buf h p = elim (Bool-cases (n == 0)) [
  | inl z ↦ absurd (ground (arith, z, p))
  | inr q ↦ elim (Bool-cases (n / 10 == 0)) [
    | inl z ↦ (48 + n % 10, buf, rw q (spent fuel (n / 10) _ z), omega arith)
    | inr more ↦
        (let (c, cs, e, k) =
            first_digit fuel (n / 10) ((48 + n % 10) ∷ buf) (ground arith) (ground (arith, more)) in
          (c, cs, rw q e, k))
  ]
]
  where
    spent : (fuel m : ℕ) (b : Text) → (m == 0) ≡ true → digits fuel m b ≡ b
    spent zero m b z = refl
    spent (suc fuel) m b z = rw z refl

read_nat-digits : (n : ℕ) → 0 < n → read_nat (digits n n []) ≡ some n
read_nat-digits n p =
    let (c, cs, e, k) = first_digit n n [] (omega arith) p in
    let read = read_digits-digits n n [] (omega arith) in
    let plain : read_nat (c ∷ cs) ≡ read_digits 0 (c ∷ cs) = unfold read_nat in refl in
    let start : read_nat (digits n n []) ≡ read_digits 0 (digits n n []) = rw e plain in
    start ∙ read ∙ (unfold read_digits in refl)

read_int-digits : (n : ℕ) → 0 < n → read_int (digits n n []) ≡ some (pos n)
read_int-digits n p =
    let (c, cs, e, k) = first_digit n n [] (omega arith) p in
    let no_sign : (c == b'-') ≡ false = ground (arith, k) in
    let start : read_int (c ∷ cs) ≡ signed pos (read_nat (c ∷ cs)) =
      unfold read_int in rw no_sign refl in
    let whole : read_int (digits n n []) ≡ signed pos (read_nat (digits n n [])) = rw e start in
    whole ∙ ap (signed pos) (read_nat-digits n p)

-- What itoa writes is a decimal numeral, at least one digit after an optional minus, and it reads
-- as the integer that was written; the hypothesis: it is not the least integer of 64 bits.
pub read_int-itoa : (z : ℤ) → z ≢ least_int → read_int (itoa z) ≡ some z
unfolding itoa
read_int-itoa (pos n) h = elim (Bool-cases (n == 0)) [
  | inl z ↦ rw z (unfold read_int read_nat read_digits in ap (λ k. some (pos k)) (ground arith))
  | inr p ↦ rw p (read_int-digits n (ground arith))
]
read_int-itoa (negsuc n) h = elim (Bool-cases (n == 9223372036854775807)) [
  | inl z ↦ absurd (h (ap negsuc (ground arith)))
  | inr p ↦
      (let next : n + 1 ≡ suc n = omega arith in
        rw p (
          unfold read_int in
          ap (signed negate) (read_nat-digits (n + 1) (omega arith))
          ∙ ap (λ (k : ℕ). some (negate k)) next))
]
