-- ===== src/Fuse/Data.antt =====
-- The data of a merge: astkit/symbol.go and fuse/internal/core/types.go.
use grove_suite.Prelude.{ℕ, Bool, false, List, [], Text}

-- Lines count from 1, both ends included.
pub record LineRange : Type 0 where
  pub start : ℕ
  pub end : ℕ

pub record CallSite : Type 0 where
  pub callee : Text
  pub line : ℕ

pub record SymbolData : Type 0 where
  pub kind : Text
  pub name : Text
  pub qualified_name : Text
  pub parent_name : Text
  pub signature : Text
  pub docstring : Text
  pub body : Text
  pub span : LineRange
  pub exported : Bool
  pub modifiers : List Text
  pub type_parameters : List Text
  pub annotations : List Text
  pub call_sites : List CallSite

-- Go's zero value `core.SymbolData{}`.
abbrev pub empty_symbol : SymbolData
empty_symbol = record {
  kind = [];
  name = [];
  qualified_name = [];
  parent_name = [];
  signature = [];
  docstring = [];
  body = [];
  span = record { start = 0; end = 0 };
  exported = false;
  modifiers = [];
  type_parameters = [];
  annotations = [];
  call_sites = [];
}

pub record ImportStatement : Type 0 where
  pub raw : Text
  pub path : Text
  pub alias : Text
  pub group : Text
  pub line : ℕ

pub data ConflictType : Type 0 where
  none_type incremental structural architectural configurational complex : ConflictType

pub data ConflictSeverity : Type 0 where
  none_severity low medium high critical : ConflictSeverity

pub data MergeStrategy : Type 0 where
  symbol import config line handoff clean : MergeStrategy

pub record BreakingChange : Type 0 where
  pub kind : Text
  pub symbol : Text
  pub affected_files : List Text
  pub severity : ConflictSeverity
  pub message : Text

-- A symbol on which both sides diverged from base.
pub record SymbolConflict : Type 0 where
  pub key : Text
  pub base : SymbolData
  pub ours : SymbolData
  pub theirs : SymbolData
