-- ===== src/Prism/Budget.antt =====
-- prism/internal/ranking/budget.go: which symbols are delivered, and how much of each. Scores are in
-- thousandths, so that the threshold 0.15 of profiles.go is 150; a category's share of the budget is
-- computed in whole numbers, where the source truncates a float product. A line number is not
-- negative. itoa's buffer of 20 bytes holds the digits and the sign of a 64-bit number.
pub mod Spending
pub mod Digits
use Prim.Native.String.{String}
use grove_suite.Prelude.{
  ℕ, zero, suc, ◌+◌, ◌-◌, ◌*◌, ◌/◌, ◌%◌, Bool, true, false, not, ◌&&◌, ◌==◌, ltb, leb,
  if◌then◌else◌, List, [], ◌∷◌, ◌++◌, map, Option, none, some, length, is_empty, Text, codes,
}
use grove_suite.Prelude.Integers.{ℤ, pos, negsuc}
use grove_suite.Prelude.Sorts.{sort_stable}
use grove_suite.Prism.Ledger.{Confidence, high, medium, low}

pub data Disclosure : Type 0 where
  full signature reference : Disclosure

pub data Category : Type 0 where
  target dependency test doc summary : Category

-- The fields of `SymbolRecord` that are rendered; `start` is that of the span.
pub record SymbolRecord : Type 0 where
  pub file_path : Text
  pub kind : Text
  pub name : Text
  pub qualified_name : Text
  pub signature_text : Text
  pub docstring : Text
  pub start : ℕ
  pub raw_text : Text

pub record BudgetedSymbol : Type 0 where
  pub symbol : SymbolRecord
  pub score : ℕ
  pub category : Category
  pub disclosure : Disclosure
  pub token_cost : ℕ

pub record Candidate : Type 0 where
  pub symbol : SymbolRecord
  pub score : ℕ
  pub category : Category
  pub previously_seen : Bool
  pub confidence : Confidence

abbrev pub category_eq : Category → Category → Bool
category_eq target target = true
category_eq dependency dependency = true
category_eq test test = true
category_eq doc doc = true
category_eq summary summary = true
category_eq c d = false

-- In hundredths.
abbrev pub category_share : Category → ℕ
category_share target = 35
category_share dependency = 25
category_share test = 20
category_share doc = 10
category_share summary = 10

-- The loop of `itoa` on at most `fuel` digits, before `buf`.
unfoldable pub digits : ℕ → ℕ → Text → Text
digits zero n buf = buf
digits (suc fuel) n buf =
    let rest = digits fuel (n / 10) ((48 + n % 10) ∷ buf) in if n == 0 then buf else rest

-- -(2 ^ 63), whose negative is itself.
abbrev pub least_int : ℤ
least_int = negsuc 9223372036854775807

-- The loop does not run on a number that is still negative.
unfoldable pub itoa : ℤ → Text
unfolding digits
itoa (pos n) = if n == 0 then codes "0" else digits n n []
itoa (negsuc n) = b'-' ∷ (if n == 9223372036854775807 then [] else digits (n + 1) (n + 1) [])

unfoldable pub format_reference : SymbolRecord → Text
unfolding itoa
format_reference s =
    let q = if is_empty s.qualified_name then s.name else s.qualified_name in
    s.kind ++ b' ' ∷ q ++ codes " (" ++ s.file_path ++ b':' ∷ itoa (pos s.start) ++ codes ")"

unfoldable pub render : SymbolRecord → Disclosure → Text
unfolding format_reference
render s full = if not (is_empty s.raw_text) then s.raw_text else s.signature_text
render s signature =
    if not (is_empty s.docstring) && not (is_empty s.signature_text)
    then s.docstring ++ 10 ∷ s.signature_text
    else if not (is_empty s.signature_text)
    then s.signature_text
    else s.qualified_name
render s reference = format_reference s

unfoldable pub estimate_tokens : Text → ℕ
estimate_tokens text =
    if is_empty text then 0 else (let n = length text / 4 in if n == 0 then 1 else n)

abbrev by_score : Candidate → Disclosure
by_score c = if leb 150 c.score then full else signature

abbrev demoted : Confidence → Candidate → Disclosure
demoted high c = reference
demoted medium c = signature
demoted low c = by_score c

unfoldable pub choose_disclosure : Candidate → Disclosure
choose_disclosure c = if c.previously_seen then demoted c.confidence c else by_score c

-- The first of the levels whose cost is within what is left, with its cost.
unfoldable pub pick : SymbolRecord → ℕ → List Disclosure → Option (Disclosure × ℕ)
unfolding render estimate_tokens
pick s left [] = none
pick s left (lvl ∷ lvls) =
    let cost = estimate_tokens (render s lvl) in
    let rest = pick s left lvls in if leb cost left then some (lvl, cost) else rest

-- What is left of the budget of each category.
abbrev pub Budgets : Type 0
Budgets = Category → ℕ

abbrev pub spend : Category → ℕ → Budgets → Budgets
spend c cost left d = if category_eq c d then left d - cost else left d

-- Targets have no entry in the source's map, which reads as 0.
abbrev pub initial_budgets : ℕ → Budgets
initial_budgets total c = if category_eq c target then 0 else total * category_share c / 100

abbrev levels_of : Candidate → List Disclosure
levels_of c = choose_disclosure c ∷ signature ∷ reference ∷ []

-- The loop of `Select` over the sorted candidates.
unfoldable pub select_loop : Budgets → List Candidate → List BudgetedSymbol
unfolding pick choose_disclosure
select_loop left [] = []
select_loop left (c ∷ cs) = elim (pick c.symbol (left c.category) (levels_of c)) [
  | none ↦ select_loop left cs
  | some p ↦
      record {
        symbol = c.symbol;
        score = c.score;
        category = c.category;
        disclosure = p.0;
        token_cost = p.1;
      }
      ∷ select_loop (spend c.category p.1 left) cs
]

abbrev pub seed : SymbolRecord → BudgetedSymbol
seed s = record {
  symbol = s;
  score = 1000;
  category = target;
  disclosure = full;
  token_cost = estimate_tokens (render s full);
}

abbrev pub higher_score : Candidate → Candidate → Bool
higher_score c d = ltb d.score c.score

unfoldable pub select : List SymbolRecord → List Candidate → ℕ → List BudgetedSymbol
unfolding select_loop
select seeds candidates total_budget =
    map seed seeds
    ++ select_loop (initial_budgets total_budget) (sort_stable higher_score candidates)
