-- ===== src/Grove/Impact.antt =====
-- Impact of grove/internal/graph/graph.go: the symbols that depend on those of a query, by a
-- breadth-first search against the direction of the edges.
pub mod Growth
pub mod Distance
pub mod Ends
pub mod Affected
use Prim.Native.String.{String}
use grove_suite.Prelude.{
  ℕ, zero, suc, ◌+◌, Bool, true, false, not, ◌&&◌, ◌||◌, ◌==◌, ltb, leb, if◌then◌else◌, List, [],
  ◌∷◌, ◌++◌, Option, none, some, map, take, length, is_empty, keep_if, any, Text, codes, text_eq,
  text_lt, has_prefix, contains, Map, lookup, insert, member,
}
use grove_suite.Prelude.Sorts.{sort_stable}
use grove_suite.Prelude.Strings.{to_lower, trim_space, has_suffix, base_name}
use grove_suite.Grove.Data.{
  SymbolRecord, Edge, EdgeType, edge_defines, edge_imports, edge_calls, edge_extends,
  edge_implements, edge_uses_type, edge_tests, edge_contains, Status, IsolatedChangeRegion,
  ConflictResult, LineRange,
}
use grove_suite.Grove.Graph.{
  CodeGraph, values, spaced, equal_fold, by_place, ids_where, mentions, by_id, search, deps,
}

-- The edge types that Impact follows.
abbrev pub followed : EdgeType → Bool
followed edge_calls = true
followed edge_tests = true
followed edge_contains = true
followed edge_implements = true
followed edge_extends = true
followed edge_uses_type = true
followed edge_defines = false
followed edge_imports = false

-- The state of the search of Impact: `visited` gives the depth of a node.
pub record Frontier : Type 0 where
  pub visited : Map ℕ
  pub queue : List Text

abbrev pub depth_of : Text → Map ℕ → ℕ
depth_of node visited = elim (lookup node visited) [ none ↦ 0 | some d ↦ d ]

abbrev pub is_visited : Text → Map ℕ → Bool
is_visited node visited = elim (lookup node visited) [ none ↦ false | some d ↦ true ]

-- One edge, in the inner loop.
unfoldable pub offer : Text → ℕ → Frontier → Edge → Frontier
unfolding lookup insert text_eq
offer node depth s e =
    if not (text_eq e.to node)
    then s
    else if not (followed e.type)
    then s
    else if is_visited e.from s.visited
    then s
    else record { visited = insert e.from (suc depth) s.visited; queue = s.queue ++ e.from ∷ [] }

unfoldable pub scan : Text → ℕ → Frontier → List Edge → Frontier
unfolding offer
scan node depth s [] = s
scan node depth s (e ∷ es) = scan node depth (offer node depth s e) es

module _ (edges : List Edge) (max_depth : ℕ) where
  -- One round of the outer loop, after `node` has left the queue.
  unfoldable pub expand : Frontier → Text → List Text → Frontier
  unfolding scan lookup
  expand s node rest =
      let depth = depth_of node s.visited in
      let s' : Frontier = record s { queue = rest } in
      let scanned = scan node depth s' edges in if leb max_depth depth then s' else scanned

  -- `none` where the fuel runs out before the queue.
  unfoldable pub search_from : ℕ → Frontier → Option (Map ℕ)
  unfolding expand
  search_from zero s = elim s.queue [ [] ↦ some s.visited | node ∷ rest ↦ none ]
  search_from (suc fuel) s = elim s.queue [
    | [] ↦ some s.visited
    | node ∷ rest ↦ search_from fuel (expand s node rest)
  ]

unfoldable pub start : List Text → Frontier
start seeds = record { visited = map (λ seed. (seed, 0)) seeds; queue = seeds }

-- A node is queued once: each round takes one seed or one source of an edge.
unfoldable pub blast_radius : List Edge → ℕ → List Text → Option (Map ℕ)
unfolding search_from start
blast_radius edges max_depth seeds =
    search_from edges max_depth (length seeds + length edges) (start seeds)

unfoldable pub symbols_of : Map SymbolRecord → Map ℕ → List Text → List SymbolRecord
unfolding lookup member
symbols_of symbols [] seeds = []
symbols_of symbols ((id, d) ∷ visited) seeds =
    let rest = symbols_of symbols visited seeds in
    elim (lookup id symbols) [ none ↦ rest | some s ↦ (if member id seeds then rest else s ∷ rest) ]

abbrev pub is_named : Text → SymbolRecord → Bool
is_named query s =
    equal_fold s.name query || (equal_fold s.qualified_name query || equal_fold s.id query)

unfoldable pub impact_seeds : Map SymbolRecord → Text → List Text
unfolding to_lower trim_space contains text_eq
impact_seeds symbols query =
    let needle = to_lower (trim_space query) in
    let seeds =
      ids_where (λ (s : SymbolRecord). not (is_empty needle) && is_named query s) symbols in
    let near =
      ids_where
        (λ (s : SymbolRecord).
          mentions needle (s.id ∷ s.name ∷ s.qualified_name ∷ s.file_path ∷ []))
        symbols in
    if is_empty seeds then near else seeds

module _ {E : Type 0} where
  -- `maxDepth` 0 stands for every number that is not positive.
  unfoldable pub impact : CodeGraph E → Text → ℕ → List SymbolRecord
  unfolding impact_seeds blast_radius symbols_of sort_stable text_eq text_lt
  impact g query max_depth =
      let depth = if max_depth == 0 then 3 else max_depth in
      let seeds = impact_seeds g.symbols query in
      elim (blast_radius g.edges depth seeds) [
        | none ↦ []
        | some visited ↦ sort_stable by_place (symbols_of g.symbols visited seeds)
      ]
