-- ===== src/Prelude/Strings.antt =====
-- More of Go's package strings, and the decimal numbers of fmt and strconv. Spaces and letters are
-- the ASCII ones: a byte above 127 is neither a space nor an upper-case letter here.
use Prim.Native.Nat.{ℕ, zero, suc, ◌+◌, ◌/◌, ◌%◌}
use mathlib.Core.Bool.{Bool, ◌&&◌, ◌||◌}
use mathlib.Core.List.{List, [], ◌∷◌, ◌++◌, map, reverse}
use mathlib.Core.Option.{Option, none, some}
use grove_suite.Prelude.Tests.{◌==◌, leb, if◌then◌else◌}
use grove_suite.Prelude.Lists.{length, drop}
use grove_suite.Prelude.Texts.{Text, has_prefix}

-- `strings.Split s "\n"`: never empty.
unfoldable pub split_newlines : Text → List Text
split_newlines [] = [] ∷ []
split_newlines (c ∷ s) =
    if c == 10
    then [] ∷ split_newlines s
    else elim (split_newlines s) [ [] ↦ (c ∷ []) ∷ [] | l ∷ ls ↦ (c ∷ l) ∷ ls ]

-- `strings.Join parts sep`.
unfoldable pub join : Text → List Text → Text
join sep [] = []
join sep (p ∷ []) = p
join sep (p ∷ q ∷ ps) = p ++ (sep ++ join sep (q ∷ ps))

abbrev pub is_space : ℕ → Bool
is_space c = (leb 9 c && leb c 13) || c == 32

unfoldable pub trim_left : Text → Text
trim_left [] = []
trim_left (c ∷ s) = let rest = trim_left s in if is_space c then rest else c ∷ s

-- `strings.TrimRight`, of spaces.
unfoldable pub trim_right : Text → Text
trim_right [] = []
trim_right (c ∷ s) = elim (trim_right s) [
  | [] ↦ (if is_space c then [] else c ∷ [])
  | d ∷ rest ↦ c ∷ d ∷ rest
]

unfoldable pub trim_space : Text → Text
unfolding trim_left trim_right
trim_space s = trim_right (trim_left s)

abbrev pub lower : ℕ → ℕ
lower c = if leb b'A' c && leb c b'Z' then c + 32 else c

unfoldable pub to_lower : Text → Text
to_lower s = map lower s

unfoldable pub has_suffix : Text → Text → Bool
unfolding has_prefix
has_suffix s p = has_prefix (reverse s) (reverse p)

-- `strings.TrimPrefix s p`.
unfoldable pub trim_prefix : Text → Text → Text
unfolding has_prefix
trim_prefix s p = if has_prefix s p then drop (length p) s else s

-- The text up to the first byte `c`, or the whole.
unfoldable pub before : ℕ → Text → Text
before c [] = []
before c (d ∷ s) = let rest = before c s in if d == c then [] else d ∷ rest

-- The text after the last byte `c`, or the whole.
unfoldable pub after_last : ℕ → Text → Text
unfolding before
after_last c s = reverse (before c (reverse s))

-- `strings.Cut`, at a byte: what is before and after the first one, if there is one.
unfoldable pub cut_at : ℕ → Text → Option (Text × Text)
cut_at b [] = none
cut_at b (c ∷ s) =
    if c == b
    then some ([], s)
    else elim (cut_at b s) [ none ↦ none | some p ↦ some (c ∷ p.0, p.1) ]

-- The text up to the last byte `b`, if there is one.
unfoldable pub before_last : ℕ → Text → Option Text
unfolding cut_at
before_last b s = elim (cut_at b (reverse s)) [ none ↦ none | some p ↦ some (reverse p.1) ]

unfoldable pub trim_suffix : Text → Text → Text
unfolding trim_prefix
trim_suffix s p = reverse (trim_prefix (reverse s) (reverse p))

-- Bytes at the front, and at both ends, that are in the set are cut off.
unfoldable pub cut_left : (ℕ → Bool) → Text → Text
cut_left p [] = []
cut_left p (c ∷ s) = let rest = cut_left p s in if p c then rest else c ∷ s

unfoldable pub cut : (ℕ → Bool) → Text → Text
unfolding cut_left
cut p s = reverse (cut_left p (reverse (cut_left p s)))

-- `strings.Split s sep` with one byte as the separator: never empty.
unfoldable pub split_on : ℕ → Text → List Text
split_on b [] = [] ∷ []
split_on b (c ∷ s) =
    if c == b
    then [] ∷ split_on b s
    else elim (split_on b s) [ [] ↦ (c ∷ []) ∷ [] | l ∷ ls ↦ (c ∷ l) ∷ ls ]

-- `filepath.Base`.
unfoldable pub base_name : Text → Text
unfolding cut_left after_last
base_name path =
    let cleaned = reverse (cut_left (λ c. c == 47) (reverse path)) in
    elim path [
      | [] ↦ 46 ∷ []
      | c ∷ cs ↦ elim cleaned [ [] ↦ 47 ∷ [] | d ∷ ds ↦ after_last 47 (d ∷ ds) ]
    ]

-- The decimal digits of `n` before `buf`, at most `fuel` of them.
unfoldable pub decimal_from : ℕ → ℕ → Text → Text
decimal_from zero n buf = buf
decimal_from (suc fuel) n buf =
    let rest = decimal_from fuel (n / 10) ((48 + n % 10) ∷ buf) in if n == 0 then buf else rest

-- `%d`, of a number that is not negative. Each round divides by ten, so the number is fuel enough.
unfoldable pub decimal : ℕ → Text
unfolding decimal_from
decimal n = if n == 0 then 48 ∷ [] else decimal_from n n []

-- `%.1f`, of a number of tenths.
unfoldable pub decimal_tenths : ℕ → Text
unfolding decimal
decimal_tenths n = decimal (n / 10) ++ (46 ∷ (48 + n % 10) ∷ [])
