-- ===== src/Grove/Graph.antt =====
-- grove/internal/graph/graph.go: the graph of symbols and its queries. The edges come from
-- BuildEdges; a Go map's order is that of the association list. The embedding engine `E` of package
-- embeddings, its construction and its query are parameters.
pub mod Semantic
use Prim.Native.String.{String}
use grove_suite.Prelude.{
  ℕ, zero, suc, ◌+◌, Bool, true, false, not, ◌&&◌, ◌||◌, ◌==◌, ltb, leb, if◌then◌else◌, List, [],
  ◌∷◌, ◌++◌, Option, none, some, map, take, length, is_empty, keep_if, any, Text, codes, text_eq,
  text_lt, has_prefix, contains, Map, lookup, insert, member,
}
use grove_suite.Prelude.Sorts.{sort_stable}
use grove_suite.Prelude.Strings.{to_lower, trim_space, has_suffix, base_name}
use grove_suite.Grove.Data.{
  SymbolRecord, Edge, EdgeType, edge_defines, edge_imports, edge_calls, edge_extends,
  edge_implements, edge_uses_type, edge_tests, edge_contains, Status, IsolatedChangeRegion,
  ConflictResult, LineRange,
}

pub record CodeGraph (E : Type 0) : Type 0 where
  pub symbols : Map SymbolRecord
  pub edges : List Edge
  pub files_indexed : ℕ
  pub sem_engine : Option E
  pub sem_dirty : Bool

-- The values of a Go map.
abbrev pub values {ℓ} : {V : Type ℓ} → Map V → List V
values [] = []
values ((k, v) ∷ m) = v ∷ values m

abbrev pub spaced : List Text → Text
spaced [] = []
spaced (t ∷ []) = t
spaced (t ∷ u ∷ ts) = t ++ (32 ∷ spaced (u ∷ ts))

-- `strings.EqualFold`.
abbrev pub equal_fold : Text → Text → Bool
equal_fold s t = text_eq (to_lower s) (to_lower t)

-- The order of every list of symbols that is returned: by file, then by line.
abbrev pub by_place : SymbolRecord → SymbolRecord → Bool
by_place s t =
    if text_eq s.file_path t.file_path
    then ltb s.span.start t.span.start
    else text_lt s.file_path t.file_path

-- The ids of the symbols that pass a test.
abbrev pub ids_where : (SymbolRecord → Bool) → Map SymbolRecord → List Text
ids_where p [] = []
ids_where p ((id, s) ∷ m) = let rest = ids_where p m in if p s then id ∷ rest else rest

-- The `strings.Contains` on the lower-cased fields; an empty needle is in every text.
abbrev pub mentions : Text → List Text → Bool
mentions needle fields = is_empty needle || contains (to_lower (spaced fields)) needle

-- `set[s.ID] = s`.
abbrev pub by_id : List SymbolRecord → Map SymbolRecord → Map SymbolRecord
by_id [] m = m
by_id (s ∷ ss) m = by_id ss (insert s.id s m)

module _ {E : Type 0} where
  -- `limit` 0 stands for every number that is not positive.
  unfoldable pub search : CodeGraph E → Text → ℕ → List SymbolRecord
  unfolding to_lower trim_space contains sort_stable text_eq text_lt
  search g query limit =
      let needle = to_lower (trim_space query) in
      let found =
        keep_if
          (λ (s : SymbolRecord).
            mentions needle (s.name ∷ s.qualified_name ∷ s.file_path ∷ s.signature ∷ []))
          (values g.symbols) in
      take (if limit == 0 then 50 else limit) (sort_stable by_place found)

  unfoldable pub deps : CodeGraph E → Text → List Edge
  unfolding has_prefix text_eq
  deps g file_path =
      let file_node = codes "file:" ++ file_path in
      let id_prefix = file_path ++ codes "::" in
      keep_if
        (λ (e : Edge).
          text_eq e.from file_node || (has_prefix e.from id_prefix || has_prefix e.to id_prefix))
        g.edges

  unfoldable pub new_graph : CodeGraph E
  new_graph = record {
    symbols = [];
    edges = [];
    files_indexed = 0;
    sem_engine = none;
    sem_dirty = true;
  }

  -- `build_edges` is BuildEdges.
  unfoldable pub replace :
      (List SymbolRecord → List Edge) → CodeGraph E → List SymbolRecord → ℕ → CodeGraph E
  unfolding insert text_eq
  replace build_edges g symbols files_indexed = record {
    symbols = by_id symbols [];
    edges = build_edges symbols;
    files_indexed = files_indexed;
    sem_engine = none;
    sem_dirty = true;
  }

  unfoldable pub status : CodeGraph E → Status
  status g = record {
    files_indexed = g.files_indexed;
    symbol_count = length g.symbols;
    edge_count = length g.edges;
  }

  unfoldable pub snapshot : CodeGraph E → List SymbolRecord × List Edge
  snapshot g = (values g.symbols, g.edges)

  -- SemanticSearch at the cached engine and its flag, of an engine that `index` builds and `ask`
  -- queries.
  abbrev pub answer :
      {R : Type 0}
      → (List SymbolRecord → E)
      → (E → Text → ℕ → R)
      → CodeGraph E
      → Text
      → ℕ
      → Option E
      → Bool
      → R × CodeGraph E
  answer index ask g query bound (some engine) false = (ask engine query bound, g)
  answer index ask g query bound (some engine) true = (
    ask (index (values g.symbols)) query bound,
    record g { sem_engine = some (index (values g.symbols)); sem_dirty = false },
  )
  answer index ask g query bound none dirty = (
    ask (index (values g.symbols)) query bound,
    record g { sem_engine = some (index (values g.symbols)); sem_dirty = false },
  )

  unfoldable pub semantic_search :
      {R : Type 0}
      → (List SymbolRecord → E)
      → (E → Text → ℕ → R)
      → CodeGraph E
      → Text
      → ℕ
      → R × CodeGraph E
  semantic_search index ask g query limit =
      answer index ask g query (if limit == 0 then 20 else limit) g.sem_engine g.sem_dirty
