-- ===== src/Witnesses/Prism.antt =====
-- The session of prism at concrete inputs.
use grove_suite.Prelude.{some, false, refl, Text, map, ◌++◌, All}
use grove_suite.Prelude.Sorts.{sort_stable}
use grove_suite.Prelude.Integers.{pos, negsuc}
use grove_suite.Prism.Budget.{
  SymbolRecord, BudgetedSymbol, Candidate, Category, dependency, full, signature, select, seed,
  initial_budgets, itoa,
}
use grove_suite.Prism.Budget.Spending.{select_within_budget, cost_in, cost_of, Priced}
use grove_suite.Prism.Budget.Digits.{read_int, read_int-itoa}
use mathlib.Core.Option
use grove_suite.Prelude.{◌≡◌, ◌≤◌, List, [], ◌∷◌, codes, text_eq, arith}
use grove_suite.Prism.Tracker.{Tracker, Entry, new_tracker, record_file, lookup_file}
use grove_suite.Prism.Tracker.Elements.{files, seen}
use grove_suite.Prism.Tracker.Lru.{WellFormed, delivered, record_file_refines}
use grove_suite.Prism.Tracker.Calls.{
  lookup_file_refines, used, run_calls, record_call, lookup_call, TrackerCall, tracker_invariant,
}
use grove_suite.Prism.Ledger.{high, low, new_ledger, estimate_confidence}
use grove_suite.Prism.Ledger.Balance.{Delivery, Balanced, record_all, ledger_balance}

abbrev session : List TrackerCall
session =
    record_call (codes "a.go") (codes "h1") 10 (codes "full")
    ∷ record_call (codes "b.go") (codes "h2") 30 (codes "full")
    ∷ lookup_call (codes "a.go") (codes "h1")
    ∷ []

-- Two files fit; a.go was used last.
abbrev two_files : Tracker
two_files = run_calls session (new_tracker 2)

two_files-WellFormed : WellFormed two_files
two_files-WellFormed = tracker_invariant 2 session

tracker_invariant_example : WellFormed (run_calls session (new_tracker 2))
tracker_invariant_example = tracker_invariant 2 session

record_file_refines_example :
    WellFormed (record_file (codes "c.go") (codes "h3") 40 (codes "full") two_files)
    × (files (record_file (codes "c.go") (codes "h3") 40 (codes "full") two_files).lru
        ≡ delivered two_files.max_files
            (codes "c.go")
            (codes "h3")
            40
            (codes "full")
            (files two_files.lru))
record_file_refines_example =
    record_file_refines (codes "c.go") (codes "h3") 40 (codes "full") two_files two_files-WellFormed

lookup_file_refines_example :
    WellFormed (lookup_file (codes "b.go") (codes "h9") two_files).1
    × ((lookup_file (codes "b.go") (codes "h9") two_files).0
        ≡ Option.map
            (λ (e : Entry). (e, text_eq e.content_hash (codes "h9")))
            (seen (codes "b.go") (files two_files.lru)))
    × (files (lookup_file (codes "b.go") (codes "h9") two_files).1.lru
        ≡ used (codes "b.go") (files two_files.lru))
lookup_file_refines_example =
    lookup_file_refines (codes "b.go") (codes "h9") two_files two_files-WellFormed

abbrev deliveries : List Delivery
deliveries = (codes "query", 100, 40) ∷ (codes "file", 50, 50) ∷ (codes "query", 10, 5) ∷ []

ledger_balance_example : Balanced (record_all deliveries (new_ledger (codes "s") 1))
ledger_balance_example = ledger_balance (codes "s") 1 deliveries

-- A window that is not positive gives no confidence.
no_window :
    (estimate_confidence (pos 10) (negsuc 0) ≡ low)
    × (estimate_confidence (pos 10) (pos 100) ≡ high)
unfolding estimate_confidence
no_window = (refl, refl)

abbrev symbol_of : Text → SymbolRecord
symbol_of n = record {
  file_path = codes "a.go";
  kind = codes "func";
  name = n;
  qualified_name = [];
  signature_text = codes "func f()";
  docstring = [];
  start = 12;
  raw_text = codes "func f() { return }";
}

abbrev candidate : Candidate
candidate = record {
  symbol = symbol_of (codes "g");
  score = 500;
  category = dependency;
  previously_seen = false;
  confidence = low;
}

select_within_budget_example :
    (chosen : List BudgetedSymbol) × (select (symbol_of (codes "f") ∷ []) (candidate ∷ []) 12
      ≡ map seed (symbol_of (codes "f") ∷ []) ++ chosen)
    × ((c : Category) → cost_in c chosen ≤ initial_budgets 12 c)
    × (cost_of chosen ≤ 12)
    × All Priced chosen
select_within_budget_example = select_within_budget (symbol_of (codes "f") ∷ []) (candidate ∷ []) 12

-- The body costs 4 tokens where 3 are left, so the signature is delivered.
degraded :
    map
      (λ (s : BudgetedSymbol). s.disclosure)
      (select (symbol_of (codes "f") ∷ []) (candidate ∷ []) 12)
    ≡ full ∷ signature ∷ []
unfolding select sort_stable
degraded = refl

read_int-itoa_example : read_int (itoa (negsuc 119)) ≡ some (negsuc 119)
read_int-itoa_example = read_int-itoa (negsuc 119) (λ e. ground (arith, e))
