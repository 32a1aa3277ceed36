-- ===== src/Grove/Regions.antt =====
-- ComputeICR and DetectConflicts of grove/internal/graph/graph.go: isolated change regions. The hash
-- that names a region is a parameter.
pub mod Conflicts
use Prim.Native.String.{String}
use grove_suite.Prelude.{
  ℕ, zero, suc, ◌+◌, Bool, true, false, not, ◌&&◌, ◌||◌, ◌==◌, ltb, leb, if◌then◌else◌, List, [],
  ◌∷◌, ◌++◌, Option, none, some, map, take, length, is_empty, keep_if, any, Text, codes, text_eq,
  text_lt, has_prefix, contains, Map, lookup, insert, member, add_keys,
}
use grove_suite.Prelude.Sorts.{sort_stable}
use grove_suite.Prelude.Strings.{to_lower, trim_space, has_suffix, base_name}
use grove_suite.Grove.Data.{
  SymbolRecord, Edge, EdgeType, edge_defines, edge_imports, edge_calls, edge_extends,
  edge_implements, edge_uses_type, edge_tests, edge_contains, Status, IsolatedChangeRegion,
  ConflictResult, LineRange,
}
use grove_suite.Grove.Graph.{
  CodeGraph, values, spaced, equal_fold, by_place, ids_where, mentions, by_id, search, deps,
}

-- In hundredths.
unfoldable pub confidence_for_seeds : ℕ → ℕ
confidence_for_seeds count =
    if count == 0 then 20 else if ltb count 3 then 65 else if ltb count 10 then 80 else 90

-- `mapKeys`, of a set of texts.
unfoldable pub map_keys : List Text → List Text
unfolding sort_stable text_lt
map_keys set = sort_stable text_lt set

unfoldable pub slice_set : List Text → List Text
unfolding add_keys
slice_set values = add_keys values []

unfoldable pub detect_conflicts : IsolatedChangeRegion → IsolatedChangeRegion → ConflictResult
unfolding slice_set member sort_stable text_lt
detect_conflicts a b =
    let symbols_a = slice_set a.exclusive in
    let files_a = slice_set a.exclusive_files in
    let overlap_symbols = keep_if (λ s. member s symbols_a) b.exclusive in
    let overlap_files = keep_if (λ f. member f files_a) b.exclusive_files in
    record {
      conflicts = ltb 0 (length overlap_symbols) || ltb 0 (length overlap_files);
      overlap_symbols = sort_stable text_lt overlap_symbols;
      overlap_files = sort_stable text_lt overlap_files;
    }

abbrev pub type_text : EdgeType → Text
type_text edge_defines = codes "defines"
type_text edge_imports = codes "imports"
type_text edge_calls = codes "calls"
type_text edge_extends = codes "extends"
type_text edge_implements = codes "implements"
type_text edge_uses_type = codes "uses-type"
type_text edge_tests = codes "tests"
type_text edge_contains = codes "contains"

abbrev pub boundary_key : Edge → Text
boundary_key e = e.from ++ (codes "::" ++ (type_text e.type ++ (codes "::" ++ e.to)))

abbrev ends : List Edge → List Text
ends [] = []
ends (e ∷ es) = e.from ∷ e.to ∷ ends es

unfoldable pub lock_keys_of : List Text → List Text
unfolding sort_stable text_lt
lock_keys_of files = sort_stable text_lt (map (λ f. codes "grove:lock:file:" ++ f) files)

module _ {E : Type 0} where
  abbrev deps_of_all : CodeGraph E → List SymbolRecord → List Edge
  deps_of_all g [] = []
  deps_of_all g (s ∷ ss) = deps g s.file_path ++ deps_of_all g ss

  -- The region around the seeds; `short_sha` stands for twelve digits of SHA-1.
  unfoldable pub region :
      (Text → Text) → CodeGraph E → Text → List SymbolRecord → IsolatedChangeRegion
  unfolding deps add_keys map_keys lock_keys_of confidence_for_seeds
  region short_sha g intent seeds =
      let files = add_keys (map (λ (s : SymbolRecord). s.file_path) seeds) [] in
      let edges = deps_of_all g seeds in
      record {
        intent_id = codes "icr-" ++ short_sha intent;
        exclusive = map_keys (add_keys (map (λ (s : SymbolRecord). s.id) seeds) []);
        shared_read = map_keys (add_keys (ends edges) []);
        boundary = map_keys (add_keys (map boundary_key edges) []);
        exclusive_files = map_keys files;
        readable_files = map_keys files;
        confidence = confidence_for_seeds (length seeds);
        lock_keys = lock_keys_of files;
      }

  unfoldable pub compute_icr : (Text → Text) → CodeGraph E → Text → IsolatedChangeRegion
  unfolding search region
  compute_icr short_sha g intent =
      let seeds = search g intent 20 in
      region short_sha g intent (if is_empty seeds then search g [] 20 else seeds)
