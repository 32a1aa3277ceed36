-- ===== src/Fuse/ThreeWay.antt =====
-- fuse/internal/merge/strategies/threeway.go: one three-way decision. A nil pointer is `none`.
pub mod Views
use grove_suite.Prelude.{Bool, Option, none, some, if◌then◌else◌, Text, text_eq}
use grove_suite.Fuse.Data.{SymbolData}

pub data MergeAction : Type 0 where
  keep use_ours use_theirs converged delete conflict : MergeAction

unfoldable pub three_way_string : Text → Text → Text → MergeAction
three_way_string base ours theirs =
    if text_eq ours theirs
    then converged
    else if text_eq ours base
    then use_theirs
    else if text_eq theirs base
    then use_ours
    else conflict

unfoldable pub three_way_symbol :
    Option SymbolData → Option SymbolData → Option SymbolData → MergeAction
three_way_symbol none none none = keep
three_way_symbol (some b) none none = delete
three_way_symbol none (some o) none = use_ours
three_way_symbol none none (some t) = use_theirs
three_way_symbol none (some o) (some t) = if text_eq o.body t.body then converged else conflict
three_way_symbol (some b) none (some t) = if text_eq t.body b.body then delete else conflict
three_way_symbol (some b) (some o) none = if text_eq o.body b.body then delete else conflict
three_way_symbol (some b) (some o) (some t) =
    if text_eq o.body t.body
    then keep
    else if text_eq o.body b.body
    then use_theirs
    else if text_eq t.body b.body
    then use_ours
    else conflict
