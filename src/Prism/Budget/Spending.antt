-- ===== src/Prism/Budget/Spending.antt =====
-- Select of budget.go: what the selection may cost.
use grove_suite.Prelude.{
  ℕ, ◌+◌, ◌≤◌, ◌≡◌, refl, ap, true, leb, if◌then◌else◌, List, [], ◌∷◌, ◌++◌, map, some, Bool-cases,
  Option-cases, inl, inr, arith, subst, leb→le, All,
}
use grove_suite.Prelude.Sorts.{sort_stable}
use grove_suite.Prism.Budget.{
  Disclosure, Category, target, dependency, test, doc, summary, SymbolRecord, BudgetedSymbol,
  Candidate, category_eq, pick, Budgets, spend, initial_budgets, select_loop, select, seed,
  higher_score, render, estimate_tokens, levels_of,
}

-- The cost of what is selected in a category.
abbrev pub cost_in : Category → List BudgetedSymbol → ℕ
cost_in c [] = 0
cost_in c (s ∷ ss) = (if category_eq s.category c then s.token_cost else 0) + cost_in c ss

-- The cost of all that is selected.
abbrev pub cost_of : List BudgetedSymbol → ℕ
cost_of [] = 0
cost_of (s ∷ ss) = s.token_cost + cost_of ss

pick-within :
    (s : SymbolRecord) (left : ℕ) (lvls : List Disclosure) (p : Disclosure × ℕ)
    → pick s left lvls ≡ some p
    → (p.1 ≤ left) × (p.1 ≡ estimate_tokens (render s p.0))
unfolding pick
pick-within s left [] p e = absurd (ground (arith, e))
pick-within s left (lvl ∷ lvls) p e =
    elim (Bool-cases (leb (estimate_tokens (render s lvl)) left)) [
      | inl fits ↦
          subst (λ (q : Disclosure × ℕ). (q.1 ≤ left) × (q.1 ≡ estimate_tokens (render s q.0)))
            (first_fits fits) (leb→le _ left fits, refl)
      | inr big ↦ pick-within s left lvls p (ground (arith, big))
    ]
  where
    first_fits :
        leb (estimate_tokens (render s lvl)) left ≡ true → (lvl, estimate_tokens (render s lvl)) ≡ p
    first_fits fits = ground (arith, fits)

category_eq_sound : (c d : Category) → category_eq c d ≡ true → c ≡ d
category_eq_sound c d e = ground arith

-- A cost that fits, and what the rest costs within what is then left.
spent :
    (left : Budgets) (d c : Category) (cost rest : ℕ)
    → cost ≤ left d
    → rest ≤ spend d cost left c
    → (if category_eq d c then cost else 0) + rest ≤ left c
spent left d c cost rest within r = elim (Bool-cases (category_eq d c)) [
  | inl same ↦ ground (arith, same, within, r, ap left (category_eq_sound d c same))
  | inr other ↦ ground (arith, other, r)
]

select_loop-cost_in :
    (left : Budgets) (cs : List Candidate) (c : Category) → cost_in c (select_loop left cs) ≤ left c
unfolding select_loop
select_loop-cost_in left [] c = omega arith
select_loop-cost_in left (d ∷ cs) c =
    elim (Option-cases (pick d.symbol (left d.category) (levels_of d))) [
      | inl nothing ↦ rw (select_loop, nothing) (select_loop-cost_in left cs c)
      | inr (p, e) ↦
          rw (select_loop, e)
            (spent left d.category c p.1 _
              (pick-within d.symbol (left d.category) (levels_of d) p e).0
              (select_loop-cost_in (spend d.category p.1 left) cs c))
    ]

-- A cost is counted in exactly one of the five categories.
counted_once :
    (k : Category) (n r a b c d e : ℕ)
    → r ≡ a + (b + (c + (d + e)))
    → n + r
      ≡ ((if category_eq k target then n else 0) + a)
        + (((if category_eq k dependency then n else 0) + b)
            + (((if category_eq k test then n else 0) + c)
                + (((if category_eq k doc then n else 0) + d)
                    + ((if category_eq k summary then n else 0) + e))))
counted_once target n r a b c d e h = omega arith
counted_once dependency n r a b c d e h = omega arith
counted_once test n r a b c d e h = omega arith
counted_once doc n r a b c d e h = omega arith
counted_once summary n r a b c d e h = omega arith

cost_of-cost_in :
    (ss : List BudgetedSymbol)
    → cost_of ss
      ≡ cost_in target ss
        + (cost_in dependency ss + (cost_in test ss + (cost_in doc ss + cost_in summary ss)))
cost_of-cost_in [] = omega arith
cost_of-cost_in (s ∷ ss) =
    counted_once s.category s.token_cost (cost_of ss) (cost_in target ss) (cost_in dependency ss)
      (cost_in test ss) (cost_in doc ss) (cost_in summary ss) (cost_of-cost_in ss)

-- The price of a symbol is that of its text at the level chosen.
abbrev pub Priced : BudgetedSymbol → Type 0
Priced s = s.token_cost ≡ estimate_tokens (render s.symbol s.disclosure)

select_loop-Priced : (left : Budgets) (cs : List Candidate) → All Priced (select_loop left cs)
unfolding select_loop
select_loop-Priced left [] = tt
select_loop-Priced left (d ∷ cs) =
    elim (Option-cases (pick d.symbol (left d.category) (levels_of d))) [
      | inl nothing ↦ rw (select_loop, nothing) (select_loop-Priced left cs)
      | inr (p, e) ↦
          rw (select_loop, e)
            (
              (pick-within d.symbol (left d.category) (levels_of d) p e).1,
              select_loop-Priced (spend d.category p.1 left) cs,
            )
    ]

-- Select gives the seeds in full, whatever they cost, and then symbols that cost no more in a
-- category than its share of the budget, nothing in the category of targets, and no more than the
-- budget in all, each at the price of the text that is delivered.
pub select_within_budget :
    (seeds : List SymbolRecord) (candidates : List Candidate) (total : ℕ)
    → (chosen : List BudgetedSymbol) × (select seeds candidates total ≡ map seed seeds ++ chosen)
      × ((c : Category) → cost_in c chosen ≤ initial_budgets total c)
      × (cost_of chosen ≤ total)
      × All Priced chosen
unfolding select
select_within_budget seeds candidates total =
    let sorted = sort_stable higher_score candidates in
    let chosen = select_loop (initial_budgets total) sorted in
    let within = select_loop-cost_in (initial_budgets total) sorted in
    (
      chosen,
      refl,
      within,
      omega (
        arith,
        cost_of-cost_in chosen,
        within target,
        within dependency,
        within test,
        within doc,
        within summary,
      ),
      select_loop-Priced (initial_budgets total) sorted,
    )
