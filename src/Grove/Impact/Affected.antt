-- ===== src/Grove/Impact/Affected.antt =====
-- The symbols that Impact returns.
use grove_suite.Prelude.{
  ℕ, ◌+◌, ◌≤◌, ◌≡◌, ◌⊎◌, ◌↔◌, inl, inr, sym, ap, subst, ◌∙◌, true, false, if◌then◌else◌, ◌==◌, List,
  [], ◌∷◌, Option, none, some, Text, text_eq, text_eq_iff, text_eq_refl, Map, lookup, member, arith,
  Bool-cases, Option-cases, length,
}
use grove_suite.Prelude.Sorts.{sort_stable}
use grove_suite.Prelude.Members.{Among, Among-sort_stable}
use grove_suite.Grove.Data.{SymbolRecord}
use grove_suite.Grove.Graph.{CodeGraph, by_place}
use grove_suite.Grove.Impact.{is_visited, blast_radius, symbols_of, impact_seeds, impact}
use grove_suite.Grove.Impact.Distance.{Within, search_found}
use grove_suite.Grove.Impact.Ends.{blast_radius_ends}

module _ (symbols : Map SymbolRecord) (seeds : List Text) (s : SymbolRecord) where
  -- The symbol of a node that is no seed.
  abbrev pub Named : Text → Type 0
  Named id = (lookup id symbols ≡ some s) × (member id seeds ≡ false)

  -- A visited node adds its symbol, or it is a seed or no symbol.
  symbols_of_cases :
      (j : Text) (d : ℕ) (visited : Map ℕ)
      → ((symbols_of symbols ((j, d) ∷ visited) seeds ≡ symbols_of symbols visited seeds)
          × (Named j → ⊥))
        ⊎ ((t : SymbolRecord) × (symbols_of symbols ((j, d) ∷ visited) seeds
              ≡ t ∷ symbols_of symbols visited seeds)
            × (lookup j symbols ≡ some t)
            × (member j seeds ≡ false))
  unfolding symbols_of
  symbols_of_cases j d visited = elim (Option-cases (lookup j symbols)) [
    | inl missing ↦ ground (arith, missing)
    | inr (t, at) ↦ elim (Bool-cases (member j seeds)) [
      | inl old ↦ ground (arith, at, old)
      | inr new ↦ inr (t, ground (arith, at, new), at, new)
    ]
  ]

  symbols_of-Named :
      (visited : Map ℕ)
      → Among s (symbols_of symbols visited seeds)
      → (id : Text) × (is_visited id visited ≡ true) × Named id
  unfolding symbols_of lookup
  symbols_of-Named [] m = absurd m
  symbols_of-Named ((j, d) ∷ visited) m = elim (symbols_of_cases j d visited) [
    | inl (same, _) ↦
        let (id, seen, named) = symbols_of-Named visited (subst (Among s) same m) in
        (id, ground (arith, text_eq_iff j id, seen), named)
    | inr (t, more, at, new) ↦ elim (subst (Among s) more m) [
      | inl e ↦ (j, ground (arith, text_eq_refl j), (at ∙ ap some (sym e), new))
      | inr r ↦
          let (id, seen, named) = symbols_of-Named visited r in
          (id, ground (arith, text_eq_iff j id, seen), named)
    ]
  ]

  Named-symbols_of :
      (visited : Map ℕ) (id : Text)
      → is_visited id visited ≡ true
      → Named id
      → Among s (symbols_of symbols visited seeds)
  unfolding symbols_of lookup
  Named-symbols_of [] id h named = ground (arith, h)
  Named-symbols_of ((j, d) ∷ visited) id h named = elim (Bool-cases (text_eq j id)) [
    | inl same ↦
        let at-j : Named j = subst Named (sym ((text_eq_iff j id).0 same)) named in
        elim (symbols_of_cases j d visited) [
          | inl (_, none_here) ↦ absurd (none_here at-j)
          | inr (t, more, at, new) ↦ subst (Among s) (sym more) (inl (ground (arith, at, at-j.0)))
        ]
    | inr differs ↦
        let rest = Named-symbols_of visited id (ground (arith, differs, h)) named in
        elim (symbols_of_cases j d visited) [
          | inl (same, _) ↦ subst (Among s) (sym same) rest
          | inr (t, more, _, _) ↦ subst (Among s) (sym more) (inr rest)
        ]
  ]

module _ {E : Type 0} where
  abbrev pub IsAffected : CodeGraph E → List Text → ℕ → SymbolRecord → Type 0
  IsAffected g seeds depth s =
      (id : Text) × Named g.symbols seeds s id × ((k : ℕ) × (k ≤ depth) × Within g.edges seeds k id)

  found_iff :
      (g : CodeGraph E) (seeds : List Text) (depth : ℕ) (s : SymbolRecord) (visited : Map ℕ)
      → blast_radius g.edges depth seeds ≡ some visited
      → Among s (symbols_of g.symbols visited seeds) ↔ IsAffected g seeds depth s
  unfolding blast_radius
  found_iff g seeds depth s visited ends =
      let fuel = length seeds + length g.edges in
      (
        λ m.
            let (id, seen, named) = symbols_of-Named g.symbols seeds s visited m in
            elim (Option-cases (lookup id visited)) [
              | inl missed ↦ ground (arith, seen, missed)
              | inr (d, at) ↦
                  let (w, le) = (search_found g.edges depth seeds fuel visited ends id).0 d at in
                  (id, named, (d, le, w))
            ],
        λ (id, named, (k, le, w)).
            let (d, at, _) = (search_found g.edges depth seeds fuel visited ends id).1 k w le in
            Named-symbols_of g.symbols seeds s visited id (ground (arith, at)) named,
      )

  -- Impact returns exactly the symbols that are no seed and depend on one along at most as many
  -- edges of the followed types as the depth says, three where it says nothing.
  pub impact_iff :
      (g : CodeGraph E) (query : Text) (depth : ℕ) (s : SymbolRecord)
      → let seeds = impact_seeds g.symbols query in
        Among s (impact g query depth) ↔ IsAffected g seeds (if depth == 0 then 3 else depth) s
  unfolding impact
  impact_iff g query depth s =
      let seeds = impact_seeds g.symbols query in
      let (visited, ends) = blast_radius_ends g.edges (if depth == 0 then 3 else depth) seeds in
      let shown : impact g query depth ≡ sort_stable by_place (symbols_of g.symbols visited seeds) =
        ap
          (λ (o : Option (Map ℕ)).
            let r : List SymbolRecord = elim o [
              | none ↦ []
              | some v ↦ sort_stable by_place (symbols_of g.symbols v seeds)
            ] in
            r)
          ends in
      let sorted = Among-sort_stable by_place s (symbols_of g.symbols visited seeds) in
      let found = found_iff g seeds (if depth == 0 then 3 else depth) s visited ends in
      (
        λ m. found.0 (sorted.0 (subst (Among s) shown m)),
        λ a. subst (Among s) (sym shown) (sorted.1 (found.1 a)),
      )
