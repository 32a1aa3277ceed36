-- ===== src/Grove/Data.antt =====
-- The types of grove/internal/core/types.go that the graph reads and returns. Confidences are in
-- hundredths.
use grove_suite.Prelude.{ℕ, Bool, List, Text}

pub data SymbolKind : Type 0 where
  kind_function kind_method kind_constructor kind_class kind_interface kind_type : SymbolKind
  kind_const kind_enum kind_module kind_namespace kind_variable kind_field : SymbolKind
  kind_struct kind_trait kind_decorator kind_annotation kind_file kind_document : SymbolKind

pub record LineRange : Type 0 where
  pub start : ℕ
  pub end : ℕ

pub record CallSite : Type 0 where
  pub callee : Text
  pub line : ℕ

pub record SymbolRecord : Type 0 where
  pub id : Text
  pub file_path : Text
  pub blob_sha : Text
  pub language : Text
  pub kind : SymbolKind
  pub name : Text
  pub qualified_name : Text
  pub signature : Text
  pub docstring : Text
  pub span : LineRange
  pub imports : List Text
  pub exports : Bool
  pub raw_text : Text
  pub parent_symbol : Text
  pub token_estimate : ℕ
  pub modifiers : List Text
  pub type_parameters : List Text
  pub annotations : List Text
  pub call_sites : List CallSite

pub data EdgeType : Type 0 where
  edge_defines edge_imports edge_calls edge_extends : EdgeType
  edge_implements edge_uses_type edge_tests edge_contains : EdgeType

pub record Edge : Type 0 where
  pub from : Text
  pub to : Text
  pub type : EdgeType
  pub confidence : ℕ

pub record Status : Type 0 where
  pub files_indexed : ℕ
  pub symbol_count : ℕ
  pub edge_count : ℕ

pub record IsolatedChangeRegion : Type 0 where
  pub intent_id : Text
  pub exclusive : List Text
  pub shared_read : List Text
  pub boundary : List Text
  pub exclusive_files : List Text
  pub readable_files : List Text
  pub confidence : ℕ
  pub lock_keys : List Text

pub record ConflictResult : Type 0 where
  pub conflicts : Bool
  pub overlap_symbols : List Text
  pub overlap_files : List Text
