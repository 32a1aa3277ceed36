-- ===== src/Witnesses/Grove.antt =====
-- The code graph on three symbols: a function, the one that it calls and its test.
use grove_suite.Prelude.{
  ℕ, ◌≡◌, ◌+◌, ◌↔◌, ◌==◌, refl, true, false, List, [], ◌∷◌, ◌++◌, none, some, Text, codes, Map, map,
  inl, inr, if◌then◌else◌, length,
}
use grove_suite.Prelude.Members.{Among}
use grove_suite.Grove.Data.{SymbolRecord, Edge, kind_function, edge_calls, edge_tests}
use grove_suite.Grove.Graph.{CodeGraph, values, new_graph, semantic_search}
use grove_suite.Grove.Graph.Semantic.{
  Call, replace_call, search_call, after_calls, semantic_search_fresh,
}
use grove_suite.Grove.Impact.{impact, impact_seeds, blast_radius}
use grove_suite.Grove.Impact.Affected.{IsAffected, impact_iff}
use grove_suite.Grove.Impact.Ends.{blast_radius_ends}
use grove_suite.Grove.Regions.{compute_icr, detect_conflicts}
use grove_suite.Grove.Regions.Conflicts.{Common, compute_icr-locks}
use grove_suite.Grove.EdgeIndex.{new_edge_index, strip_comments_and_strings}
use grove_suite.Grove.Patterns.{Patterns, edge}
use grove_suite.Grove.Edges.{build_edges, build_calls}
use grove_suite.Grove.Edges.Scope.{IsScoped}
use grove_suite.Grove.Edges.References.{build_edges-IsScoped}

abbrev function : Text → Text → SymbolRecord
function file name = record {
  id = file ++ (codes "::" ++ name);
  file_path = file;
  blob_sha = [];
  language = codes "go";
  kind = kind_function;
  name = name;
  qualified_name = name;
  signature = [];
  docstring = [];
  span = record { start = 1; end = 9 };
  imports = [];
  exports = true;
  raw_text = [];
  parent_symbol = [];
  token_estimate = 5;
  modifiers = [];
  type_parameters = [];
  annotations = [];
  call_sites = [];
}

abbrev put : SymbolRecord
put = function (codes "lib/store.go") (codes "Put")

abbrev save : SymbolRecord
save = record (function (codes "a.go") (codes "Save")) {
  imports = codes "lib/store" ∷ [];
  call_sites = record { callee = codes "s.Put"; line = 3 } ∷ [];
}

abbrev test_save : SymbolRecord
test_save = function (codes "a_test.go") (codes "TestSave")

abbrev three : List SymbolRecord
three = put ∷ save ∷ test_save ∷ []

abbrev no_patterns : Patterns
no_patterns = record {
  extends_list = λ t. none;
  implements_list = λ t. none;
  python_class_base = λ t. none;
  rust_impl_for = λ t. [];
  uses_type_ident = λ t. [];
  embedded = λ t. none;
  is_called = λ name t. false;
}

abbrev save_calls_put : Edge
save_calls_put = edge save.id put.id edge_calls 95

stripped : strip_comments_and_strings (codes "f(\"g()\") // h()") ≡ codes "f( ) "
unfolding strip_comments_and_strings
stripped = refl

calls_found : build_calls no_patterns (new_edge_index three) three ≡ save_calls_put ∷ []
unfolding build_calls new_edge_index
calls_found = refl

drawn : Among save_calls_put (build_edges no_patterns three)
unfolding build_edges
drawn = inr (inr (inr (inr (inl refl))))

build_edges-IsScoped_example : IsScoped three save_calls_put
build_edges-IsScoped_example = build_edges-IsScoped no_patterns three save_calls_put drawn refl

abbrev graph : CodeGraph ℕ
graph = record {
  symbols = (put.id, put) ∷ (save.id, save) ∷ (test_save.id, test_save) ∷ [];
  edges = save_calls_put ∷ edge test_save.id save.id edge_tests 80 ∷ [];
  files_indexed = 3;
  sem_engine = none;
  sem_dirty = true;
}

affected :
    map (λ (s : SymbolRecord). s.name) (impact graph (codes "put") 0)
    ≡ codes "Save" ∷ codes "TestSave" ∷ []
unfolding impact
affected = refl

impact_iff_example :
    Among test_save (impact graph (codes "put") 2)
    ↔ IsAffected graph (impact_seeds graph.symbols (codes "put")) 2 test_save
impact_iff_example = impact_iff graph (codes "put") 2 test_save

-- Two symbols that call each other.
blast_radius_ends_example :
    (visited : Map ℕ) × (blast_radius
        (edge put.id save.id edge_calls 95 ∷ save_calls_put ∷ [])
        9
        (put.id ∷ [])
      ≡ some visited)
blast_radius_ends_example =
    blast_radius_ends (edge put.id save.id edge_calls 95 ∷ save_calls_put ∷ []) 9 (put.id ∷ [])

abbrev sha : Text → Text
sha t = t

compute_icr-locks_example :
    let a = compute_icr sha graph (codes "save") in
    let b = compute_icr sha graph (codes "put") in
    (Common a.lock_keys b.lock_keys ↔ Common a.exclusive_files b.exclusive_files)
    × ((detect_conflicts a b).conflicts ≡ false → Common a.lock_keys b.lock_keys → ⊥)
compute_icr-locks_example = compute_icr-locks sha graph graph (codes "save") (codes "put")

abbrev two_calls : List Call
two_calls = replace_call (put ∷ []) 1 ∷ search_call (codes "q") 0 ∷ replace_call three 3 ∷ []

-- The engine counts the symbols that it was built from.
semantic_search_fresh_example :
    let g =
      after_calls (build_edges no_patterns) length (λ n q limit. n + limit) new_graph two_calls in
    ((semantic_search length (λ n q limit. n + limit) g (codes "x") 5).0
      ≡ length (values g.symbols) + (if 5 == 0 then 20 else 5))
    × ((semantic_search length (λ n q limit. n + limit) g (codes "x") 5).1.symbols ≡ g.symbols)
semantic_search_fresh_example =
    semantic_search_fresh (build_edges no_patterns) length (λ n q limit. n + limit) two_calls
      (codes "x") 5
