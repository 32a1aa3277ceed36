-- ===== src/Grove/Inheritance.antt =====
-- buildExtendsImplements of grove/internal/graph/edges.go, by the language of the symbol.
use grove_suite.Prelude.{
  concat_map, ℕ, Bool, not, ◌||◌, if◌then◌else◌, List, [], ◌∷◌, ◌++◌, Option, none, some, map,
  is_empty, keep_if, Text, codes, text_eq,
}
use grove_suite.Grove.Data.{SymbolRecord, Edge, EdgeType, edge_extends, edge_implements}
use grove_suite.Grove.EdgeIndex.{
  EdgeIndex, named, split_trim, first_line, match_name_list, strip_python_base, struct_lines,
}
use grove_suite.Grove.Patterns.{
  is_class, is_class_or_interface, is_struct, is_struct_or_enum, edge, Patterns,
}

module _ (idx : EdgeIndex) where
  unfoldable pub resolve_type_edges : SymbolRecord → EdgeType → ℕ → Text → List Edge
  unfolding named text_eq
  resolve_type_edges s type confidence target_name =
      map (λ (t : SymbolRecord). edge s.id t.id type confidence)
        (keep_if (λ (t : SymbolRecord). not (text_eq t.id s.id)) (named idx target_name))

  -- Each name that is not empty, resolved.
  abbrev resolve_all : SymbolRecord → EdgeType → ℕ → List Text → List Edge
  resolve_all s type confidence names = concat_map (resolve_type_edges s type confidence) names

abbrev pub is_script : Text → Bool
is_script language =
    text_eq language (codes "typescript")
    || (text_eq language (codes "tsx")
        || (text_eq language (codes "javascript") || text_eq language (codes "java")))

abbrev pub is_filled : Text → Bool
is_filled t = not (is_empty t)

abbrev pub traits_of : Text → List (Text × Text) → List Text
traits_of name [] = []
traits_of name ((trait_name, type_name) ∷ rest) =
    let more = traits_of name rest in if text_eq type_name name then trait_name ∷ more else more

-- The base classes in the list that the pattern found.
unfoldable pub python_bases : Option Text → List Text
unfolding split_trim strip_python_base
python_bases none = []
python_bases (some bases) = keep_if is_filled (map strip_python_base (split_trim bases 44))

module _ (patterns : Patterns) where
  unfoldable pub script_edges : EdgeIndex → SymbolRecord → List Edge
  unfolding resolve_type_edges first_line match_name_list
  script_edges idx s =
      let text = if is_empty s.signature then first_line s.raw_text else s.signature in
      resolve_all idx s edge_extends 85 (match_name_list (patterns.extends_list text))
      ++ resolve_all idx s edge_implements 85 (match_name_list (patterns.implements_list text))

  unfoldable pub python_edges : EdgeIndex → SymbolRecord → List Edge
  unfolding resolve_type_edges first_line python_bases
  python_edges idx s =
      resolve_all idx s edge_extends 85
        (python_bases (patterns.python_class_base (first_line s.raw_text)))

  unfoldable pub rust_edges : EdgeIndex → SymbolRecord → List Edge
  unfolding resolve_type_edges text_eq
  rust_edges idx s =
      resolve_all idx s edge_implements 85 (traits_of s.name (patterns.rust_impl_for s.raw_text))

  abbrev pub embedded_in : List Text → List Text
  embedded_in [] = []
  embedded_in (l ∷ ls) = elim (patterns.embedded l) [
    | none ↦ embedded_in ls
    | some name ↦ name ∷ embedded_in ls
  ]

  unfoldable pub go_edges : EdgeIndex → SymbolRecord → List Edge
  unfolding resolve_type_edges struct_lines
  go_edges idx s = resolve_all idx s edge_extends 70 (embedded_in (struct_lines s.raw_text))

  unfoldable pub inheritance_of : EdgeIndex → SymbolRecord → List Edge
  unfolding script_edges python_edges rust_edges go_edges text_eq
  inheritance_of idx s =
      if is_script s.language
      then (if is_class_or_interface s.kind then script_edges idx s else [])
      else if text_eq s.language (codes "python")
      then (if is_class s.kind then python_edges idx s else [])
      else if text_eq s.language (codes "rust")
      then (if is_struct_or_enum s.kind then rust_edges idx s else [])
      else if text_eq s.language (codes "go")
      then (if is_struct s.kind then go_edges idx s else [])
      else []

  unfoldable pub build_extends_implements : EdgeIndex → List SymbolRecord → List Edge
  unfolding inheritance_of
  build_extends_implements idx symbols = concat_map (inheritance_of idx) symbols
