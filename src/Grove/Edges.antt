-- ===== src/Grove/Edges.antt =====
-- grove/internal/graph/edges.go and BuildEdges of graph.go: the edges between symbols. The regular
-- expressions are run by package regexp and stand as parameters, in the record Patterns.
pub mod Scope
pub mod References
use Prim.Native.String.{String}
use grove_suite.Prelude.{
  concat_map, ℕ, Bool, true, false, not, ◌&&◌, ◌||◌, ◌==◌, if◌then◌else◌, List, [], ◌∷◌, ◌++◌,
  Option, none, some, map, is_empty, keep_if, Text, codes, text_eq, has_prefix, Map, lookup, member,
}
use grove_suite.Prelude.Strings.{to_lower, has_suffix, after_last, trim_prefix, trim_suffix}
use grove_suite.Grove.Data.{
  SymbolKind, kind_function, kind_method, kind_constructor, kind_class, kind_interface, kind_struct,
  kind_trait, kind_enum, SymbolRecord, CallSite, Edge, EdgeType, edge_defines, edge_imports,
  edge_calls, edge_extends, edge_implements, edge_uses_type, edge_tests, edge_contains,
}
use grove_suite.Grove.Coverage.{is_test_file}
use grove_suite.Grove.EdgeIndex.{
  EdgeIndex, new_edge_index, named, imported_files, strip_comments_and_strings, split_trim,
  first_line, match_name_list, strip_python_base, struct_lines,
}
use grove_suite.Grove.Patterns.{
  is_callable, is_parent, is_class, is_class_or_interface, is_struct, is_struct_or_enum, edge,
  Patterns,
}
use grove_suite.Grove.Inheritance.{build_extends_implements}

-- The imports edges of a file, and the keys seen after them.
unfoldable pub import_edges : Text → List Text → List Text → List Edge × List Text
unfolding member
import_edges file_node seen [] = ([], seen)
import_edges file_node seen (imp ∷ imps) =
    let key = file_node ++ (codes "::import:" ++ imp) in
    let old = member key seen in
    let (more, after) = import_edges file_node (if old then seen else key ∷ seen) imps in
    (if old then more else edge file_node (codes "import:" ++ imp) edge_imports 90 ∷ more, after)

-- The loop of buildDefinesAndImports, with the files and the imports seen so far.
unfoldable pub defines_from : List Text → List Text → List SymbolRecord → List Edge
unfolding import_edges member
defines_from files imports [] = []
defines_from files imports (s ∷ ss) =
    let file_node = codes "file:" ++ s.file_path in
    let known = member s.file_path files in
    let (more, imports') = import_edges file_node imports (if known then [] else s.imports) in
    let rest = defines_from (if known then files else s.file_path ∷ files) imports' ss in
    edge file_node s.id edge_defines 100 ∷ (more ++ rest)

unfoldable pub build_defines_and_imports : List SymbolRecord → List Edge
unfolding defines_from
build_defines_and_imports symbols = defines_from [] [] symbols

module _ (idx : EdgeIndex) where
  unfoldable pub contains_of : SymbolRecord → List Edge
  unfolding named text_eq
  contains_of s =
      let parents =
        keep_if (λ (p : SymbolRecord). text_eq p.file_path s.file_path && is_parent p.kind)
          (named idx s.parent_symbol) in
      if is_empty s.parent_symbol
      then []
      else map (λ (p : SymbolRecord). edge p.id s.id edge_contains 100) parents

  unfoldable pub build_contains : List SymbolRecord → List Edge
  unfolding contains_of
  build_contains symbols = concat_map contains_of symbols

-- The first edge of each key, which is the two ends around `sep`; `seen` are the keys before.
unfoldable pub once : Text → List Text → List Edge → List Edge
unfolding member
once sep seen [] = []
once sep seen (e ∷ es) =
    let key = e.from ++ (sep ++ e.to) in
    let old = member key seen in
    let rest = once sep (if old then seen else key ∷ seen) es in if old then rest else e ∷ rest

module _ (patterns : Patterns) (idx : EdgeIndex) where
  abbrev pub in_scope_of : SymbolRecord → SymbolRecord → Bool
  in_scope_of s t = member t.file_path (imported_files idx s.file_path)

  -- The edges from a symbol to the types that its signature names.
  unfoldable pub uses_of : SymbolRecord → List Edge
  unfolding named imported_files member text_eq
  uses_of s =
      let names =
        keep_if (λ name. not (text_eq name s.name)) (patterns.uses_type_ident s.signature) in
      let targets = keep_if (in_scope_of s) (concat_map (named idx) names) in
      if is_empty s.signature
      then []
      else map (λ (t : SymbolRecord). edge s.id t.id edge_uses_type 50) targets

  unfoldable pub build_uses_type : List SymbolRecord → List Edge
  unfolding uses_of once
  build_uses_type symbols = once (codes "::uses-type::") [] (concat_map uses_of symbols)

  -- Another callable symbol in scope.
  abbrev pub is_callee : SymbolRecord → SymbolRecord → Bool
  is_callee s t = not (text_eq t.id s.id) && (is_callable t.kind && in_scope_of s t)

  -- The callee without its receiver, and nothing for an empty name.
  unfoldable pub callees : CallSite → List SymbolRecord
  unfolding named after_last
  callees site =
      let name = after_last 46 site.callee in if is_empty name then [] else named idx name

  unfoldable pub site_calls : SymbolRecord → List Edge
  unfolding callees imported_files member text_eq
  site_calls s =
      map (λ (t : SymbolRecord). edge s.id t.id edge_calls 95)
        (keep_if (is_callee s) (concat_map callees s.call_sites))

  -- The fallback for a symbol with no call sites, by the pattern of each name.
  unfoldable pub text_calls : List SymbolRecord → SymbolRecord → List Edge
  unfolding strip_comments_and_strings imported_files member text_eq
  text_calls symbols s =
      let stripped = strip_comments_and_strings s.raw_text in
      let found =
        keep_if (λ (t : SymbolRecord). is_callee s t && patterns.is_called t.name stripped)
          symbols in
      if is_empty s.raw_text
      then []
      else map
          (λ (t : SymbolRecord).
            edge s.id t.id edge_calls (if text_eq t.file_path s.file_path then 85 else 60))
          found

  unfoldable pub calls_of : List SymbolRecord → SymbolRecord → List Edge
  unfolding site_calls text_calls
  calls_of symbols s =
      if not (is_callable s.kind)
      then []
      else if is_empty s.call_sites
      then text_calls symbols s
      else site_calls s

  unfoldable pub build_calls : List SymbolRecord → List Edge
  unfolding calls_of once
  build_calls symbols = once (codes "::calls::") [] (concat_map (calls_of symbols) symbols)

-- The name that a test's name points to.
unfoldable pub tested_name : Text → Text
unfolding has_prefix has_suffix trim_prefix trim_suffix
tested_name name =
    if has_prefix name (codes "Test")
    then trim_prefix name (codes "Test")
    else if has_prefix name (codes "test_")
    then trim_prefix name (codes "test_")
    else if has_suffix name (codes "Test")
    then trim_suffix name (codes "Test")
    else if has_suffix name (codes "Spec")
    then trim_suffix name (codes "Spec")
    else []

unfoldable pub test_targets : EdgeIndex → SymbolRecord → List SymbolRecord
unfolding tested_name named
test_targets idx s = if is_empty (tested_name s.name) then [] else named idx (tested_name s.name)

unfoldable pub tests_of : EdgeIndex → SymbolRecord → List Edge
unfolding is_test_file test_targets text_eq
tests_of idx s =
    let targets =
      keep_if (λ (t : SymbolRecord). not (text_eq t.file_path s.file_path)) (test_targets idx s) in
    if is_test_file s.file_path
    then map (λ (t : SymbolRecord). edge s.id t.id edge_tests 80) targets
    else []

unfoldable pub build_tests : EdgeIndex → List SymbolRecord → List Edge
unfolding tests_of
build_tests idx symbols = concat_map (tests_of idx) symbols

unfoldable pub build_edges : Patterns → List SymbolRecord → List Edge
unfolding build_defines_and_imports build_contains build_extends_implements build_uses_type
    build_calls build_tests new_edge_index
build_edges patterns symbols =
    let idx = new_edge_index symbols in
    build_defines_and_imports symbols
    ++ (build_contains idx symbols
        ++ (build_extends_implements patterns idx symbols
            ++ (build_uses_type patterns idx symbols
                ++ (build_calls patterns idx symbols ++ build_tests idx symbols))))
