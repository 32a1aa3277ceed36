-- ===== src/Grove/Patterns.antt =====
-- The patterns of grove/internal/graph/edges.go, and its tests on the kind of a symbol.
use grove_suite.Prelude.{ℕ, Bool, true, false, List, Option, Text}
use grove_suite.Grove.Data.{
  SymbolKind, kind_function, kind_method, kind_constructor, kind_class, kind_interface, kind_struct,
  kind_trait, kind_enum, Edge, EdgeType,
}

-- What the patterns of edges.go find in a text: the list after `extends` and after `implements`, the
-- bases of a Python class, the trait and the type of each Rust `impl`, the capitalised names, the
-- name of an embedded type in a line, and whether a name is called.
pub record Patterns : Type 0 where
  pub extends_list : Text → Option Text
  pub implements_list : Text → Option Text
  pub python_class_base : Text → Option Text
  pub rust_impl_for : Text → List (Text × Text)
  pub uses_type_ident : Text → List Text
  pub embedded : Text → Option Text
  pub is_called : Text → Text → Bool

abbrev pub is_callable : SymbolKind → Bool
is_callable kind_function = true
is_callable kind_method = true
is_callable kind_constructor = true
is_callable other = false

abbrev pub is_parent : SymbolKind → Bool
is_parent kind_struct = true
is_parent kind_class = true
is_parent kind_interface = true
is_parent kind_trait = true
is_parent other = false

abbrev pub is_class : SymbolKind → Bool
is_class kind_class = true
is_class other = false

abbrev pub is_class_or_interface : SymbolKind → Bool
is_class_or_interface kind_class = true
is_class_or_interface kind_interface = true
is_class_or_interface other = false

abbrev pub is_struct : SymbolKind → Bool
is_struct kind_struct = true
is_struct other = false

abbrev pub is_struct_or_enum : SymbolKind → Bool
is_struct_or_enum kind_struct = true
is_struct_or_enum kind_enum = true
is_struct_or_enum other = false

abbrev pub edge : Text → Text → EdgeType → ℕ → Edge
edge from to type confidence = record { from = from; to = to; type = type; confidence = confidence }
