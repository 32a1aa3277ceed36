-- ===== src/Grove/Coverage.antt =====
-- TestsFor of grove/internal/graph/graph.go: the tests of a symbol.
use grove_suite.Prelude.{
  Bool, true, false, ◌&&◌, ◌||◌, if◌then◌else◌, List, [], ◌∷◌, none, some, map, is_empty, keep_if,
  Text, codes, text_eq, text_lt, has_prefix, contains, Map, lookup, insert, member, add_keys,
}
use grove_suite.Prelude.Sorts.{sort_stable}
use grove_suite.Prelude.Strings.{to_lower, trim_space, has_suffix, base_name}
use grove_suite.Grove.Data.{SymbolRecord, Edge, EdgeType, edge_calls, edge_tests}
use grove_suite.Grove.Graph.{CodeGraph, values, equal_fold, by_place, ids_where, mentions, by_id}

unfoldable pub is_test_file : Text → Bool
unfolding base_name to_lower has_suffix has_prefix
is_test_file path =
    let base = base_name path in
    let lowered = to_lower base in
    has_suffix lowered (codes "_test.go")
    || ((has_prefix lowered (codes "test_") && has_suffix lowered (codes ".py"))
        || (has_suffix lowered (codes "_test.py")
            || (has_suffix lowered (codes ".test.ts")
                || (has_suffix lowered (codes ".spec.ts")
                    || (has_suffix lowered (codes ".test.js")
                        || (has_suffix lowered (codes ".spec.js")
                            || (has_suffix base (codes "Test.java")
                                || has_suffix base (codes "Spec.java"))))))))

abbrev pub is_tests : EdgeType → Bool
is_tests edge_tests = true
is_tests other = false

abbrev pub is_calls : EdgeType → Bool
is_calls edge_calls = true
is_calls other = false

-- Each test that an edge leads from is put into the map under its id.
abbrev collect_tests :
    Map SymbolRecord → (Edge → Bool) → List Edge → Map SymbolRecord → Map SymbolRecord
collect_tests symbols p [] tests = tests
collect_tests symbols p (e ∷ es) tests =
    let more : Map SymbolRecord = elim (lookup e.from symbols) [
      | none ↦ tests
      | some t ↦ insert t.id t tests
    ] in
    collect_tests symbols p es (if p e then more else tests)

module _ {E : Type 0} where
  unfoldable pub covering_tests : CodeGraph E → List Text → Map SymbolRecord
  unfolding lookup insert text_eq member add_keys
  covering_tests g targets =
      let callers =
        add_keys
          (map (λ (e : Edge). e.from)
            (keep_if (λ (e : Edge). is_calls e.type && member e.to targets) g.edges))
          [] in
      let direct =
        collect_tests g.symbols (λ e. is_tests e.type && member e.to targets) g.edges [] in
      collect_tests g.symbols (λ e. is_tests e.type && member e.to callers) g.edges direct

  unfoldable pub named_targets : CodeGraph E → Text → List Text
  unfolding to_lower trim_space text_eq
  named_targets g query =
      let needle = to_lower (trim_space query) in
      let named =
        ids_where
          (λ (s : SymbolRecord).
            equal_fold s.name query
            || (equal_fold s.qualified_name query || equal_fold s.file_path query))
          g.symbols in
      if is_empty needle then [] else named

  unfoldable pub tests_for : CodeGraph E → Text → List SymbolRecord
  unfolding named_targets covering_tests to_lower trim_space contains is_test_file insert text_eq
      sort_stable text_lt
  tests_for g query =
      let needle = to_lower (trim_space query) in
      let covering = covering_tests g (named_targets g query) in
      let near =
        by_id
          (keep_if
            (λ (s : SymbolRecord).
              is_test_file s.file_path
              && mentions needle (s.file_path ∷ s.name ∷ s.qualified_name ∷ s.signature ∷ []))
            (values g.symbols))
          [] in
      sort_stable by_place (values (if is_empty covering then near else covering))
