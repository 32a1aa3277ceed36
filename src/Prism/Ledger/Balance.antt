-- ===== src/Prism/Ledger/Balance.antt =====
-- The sums of ledger.go.
use grove_suite.Prelude.{
  ℕ, ◌≡◌, refl, sym, ap, ◌∙◌, Bool, true, false, if◌then◌else◌, List, [], ◌∷◌, none, some, Text,
  text_eq, Map, lookup, insert, arith,
}
use grove_suite.Prism.Ledger.{add64, ToolStats, Ledger, new_ledger, stats_or_new, record_tokens}

-- The wrapped sum of one counter over all tools.
abbrev pub sum64 : (ToolStats → ℕ) → Map ToolStats → ℕ
sum64 f [] = 0
sum64 f ((k, s) ∷ m) = add64 (f s) (sum64 f m)

-- The totals are the sums over the tools.
abbrev pub Balanced : Ledger → Type 0
Balanced l =
    (l.total_original ≡ sum64 (λ s. s.original) l.by_tool)
    × (l.total_delivered ≡ sum64 (λ s. s.delivered) l.by_tool)

add64_swap : (a b c : ℕ) → add64 (add64 a b) c ≡ add64 (add64 a c) b
unfolding add64
add64_swap a b c = omega arith

add64_assoc : (a b c : ℕ) → add64 a (add64 b c) ≡ add64 (add64 a b) c
unfolding add64
add64_assoc a b c = omega arith

add64_zero : (x : ℕ) → add64 (add64 0 x) 0 ≡ add64 0 x
unfolding add64
add64_zero x = omega arith

sum64-insert :
    (f : ToolStats → ℕ) (v : ToolStats) (x : ℕ) (tool : Text) (m : Map ToolStats)
    → f (stats_or_new none) ≡ 0
    → f v ≡ add64 (f (stats_or_new (lookup tool m))) x
    → sum64 f (insert tool v m) ≡ add64 (sum64 f m) x
unfolding insert lookup
sum64-insert f v x tool [] empty step =
    ap (λ n. add64 n 0) (step ∙ ap (λ n. add64 n x) empty) ∙ add64_zero x
sum64-insert f v x tool ((k, s) ∷ m) empty step =
    go (text_eq k tool) (sum64-insert f v x tool m empty) step
  where
    go :
        (b : Bool)
        → (f v ≡ add64 (f (stats_or_new (lookup tool m))) x
            → sum64 f (insert tool v m) ≡ add64 (sum64 f m) x)
        → f v ≡ add64 (f (stats_or_new (if b then some s else lookup tool m))) x
        → sum64 f (if b then (tool, v) ∷ m else (k, s) ∷ insert tool v m)
          ≡ add64 (add64 (f s) (sum64 f m)) x
    go true rest e = ap (λ n. add64 n (sum64 f m)) e ∙ add64_swap (f s) x (sum64 f m)
    go false rest e = ap (add64 (f s)) (rest e) ∙ add64_assoc (f s) (sum64 f m) x

-- Record keeps the totals the sums, modulo 2 ^ 64, of what is recorded under the tools.
pub record_tokens-Balanced :
    (tool : Text) (original delivered : ℕ) (l : Ledger)
    → Balanced l
    → Balanced (record_tokens tool original delivered l)
unfolding record_tokens
record_tokens-Balanced tool original delivered l (o, d) = (
  ap (λ n. add64 n original) o
      ∙ sym (sum64-insert (λ s. s.original) _ original tool l.by_tool refl refl),
  ap (λ n. add64 n delivered) d
      ∙ sym (sum64-insert (λ s. s.delivered) _ delivered tool l.by_tool refl refl),
)

-- One delivery: the tool, the tokens of the original and the tokens delivered.
abbrev pub Delivery : Type 0
Delivery = Text × ℕ × ℕ

unfoldable pub record_all : List Delivery → Ledger → Ledger
unfolding record_tokens
record_all [] l = l
record_all ((tool, original, delivered) ∷ ds) l =
    record_all ds (record_tokens tool original delivered l)

record_all-Balanced : (ds : List Delivery) (l : Ledger) → Balanced l → Balanced (record_all ds l)
unfolding record_all
record_all-Balanced [] l b = b
record_all-Balanced ((tool, original, delivered) ∷ ds) l b =
    record_all-Balanced ds (record_tokens tool original delivered l)
      (record_tokens-Balanced tool original delivered l b)

-- On a new ledger, after any records, the totals are the sums over the tools, modulo 2 ^ 64.
pub ledger_balance :
    (id : Text) (now : ℕ) (ds : List Delivery) → Balanced (record_all ds (new_ledger id now))
unfolding new_ledger
ledger_balance id now ds = record_all-Balanced ds (new_ledger id now) (refl, refl)
