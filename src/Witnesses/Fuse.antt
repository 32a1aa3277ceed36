-- ===== src/Witnesses/Fuse.antt =====
-- The merge driver at concrete inputs.
use Prim.Native.String.{String}
use grove_suite.Prelude.{
  ℕ, ◌≤◌, ◌≡◌, ◌≢◌, ◌↔◌, refl, true, false, List, [], ◌∷◌, none, some, Text, codes, text_eq,
  ne_of_text_eq, Map, length, distinct, member,
}
use grove_suite.Prelude.Sorts.{sort_stable}
use grove_suite.Fuse.Data.{
  SymbolData, ImportStatement, BreakingChange, empty_symbol, none_type, none_severity, high,
}
use grove_suite.Fuse.Line.{line_merge, diff_lines}
use grove_suite.Fuse.Line.Assemble.{assemble, side_tags, side_insertions, assemble-diff_lines}
use grove_suite.Fuse.Line.Disjoint.{are_disjoint, line_merge_disjoint, both_edits}
use grove_suite.Fuse.Line.Symmetry.{line_merge_symmetric}
use grove_suite.Fuse.ThreeWay.{three_way_symbol, conflict}
use grove_suite.Fuse.ThreeWay.Views.{
  three_way_symbol-conflict_iff, three_way_symbol-chosen, view, chosen,
}
use grove_suite.Fuse.Floats.{ninety_five, add_float, round, nearest, unit_of, mean_float}
use grove_suite.Fuse.Symbols.{symbol_merge, ordered_keys, decide_key}
use grove_suite.Fuse.Symbols.Loop.{clashes_by, symbol_merge-decides, symbol_merge_bounds}
use grove_suite.Fuse.Symbols.OneSided.{symbol_merge_unchanged}
use grove_suite.Fuse.Imports.{import_merge}
use grove_suite.Fuse.Imports.Union.{import_merge_union, paths_of}
use grove_suite.Fuse.Classify.{
  Inputs, classify, rank, import_churn, symbol_delta, max_breaking_severity,
}
use grove_suite.Fuse.Classify.Severity.{classify-ge-breaking, classify-none_iff}

-- "a\nb\nc", "x\nb\nc" and "a\nb\ny".
abbrev base_text : Text
base_text = b'a' ∷ 10 ∷ b'b' ∷ 10 ∷ b'c' ∷ []

abbrev ours_text : Text
ours_text = b'x' ∷ 10 ∷ b'b' ∷ 10 ∷ b'c' ∷ []

abbrev theirs_text : Text
theirs_text = b'a' ∷ 10 ∷ b'b' ∷ 10 ∷ b'y' ∷ []

both_sides_merge :
    (line_merge base_text ours_text theirs_text).merged ≡ b'x' ∷ 10 ∷ b'b' ∷ 10 ∷ b'y' ∷ []
unfolding line_merge
both_sides_merge = refl

abbrev base_lines : List Text
base_lines = codes "a" ∷ codes "b" ∷ codes "c" ∷ []

abbrev side_lines : List Text
side_lines = codes "b" ∷ codes "n" ∷ codes "c" ∷ codes "z" ∷ []

assemble-diff_lines_example :
    assemble
      (side_insertions base_lines (diff_lines base_lines side_lines))
      (side_tags base_lines (diff_lines base_lines side_lines))
      0
      base_lines
    ≡ side_lines
assemble-diff_lines_example = assemble-diff_lines base_lines side_lines

line_merge_disjoint_example :
    line_merge base_text ours_text theirs_text
    ≡ record { merged = b'x' ∷ 10 ∷ b'b' ∷ 10 ∷ b'y' ∷ []; has_conflict = false; confidence = 70 }
unfolding line_merge are_disjoint both_edits
line_merge_disjoint_example =
    line_merge_disjoint base_text ours_text theirs_text (ne_of_text_eq _ _ refl)
      (ne_of_text_eq _ _ refl) (ne_of_text_eq _ _ refl) refl

line_merge_symmetric_example :
    (line_merge base_text ours_text theirs_text).has_conflict
    ≡ (line_merge base_text theirs_text ours_text).has_conflict
line_merge_symmetric_example = (line_merge_symmetric base_text ours_text theirs_text).0

-- Symbols by name, body and first line.
abbrev symbol_at : String → String → ℕ → SymbolData
symbol_at name body line = record empty_symbol {
  name = codes name;
  qualified_name = codes name;
  body = codes body;
  span = record { start = line; end = line };
}

abbrev entry : String → String → ℕ → Text × SymbolData
entry name body line = (codes name, symbol_at name body line)

three_way_symbol-conflict_iff_example :
    (three_way_symbol none (some (symbol_at "f" "1" 1)) (some (symbol_at "f" "2" 1)) ≡ conflict) ↔ (
      (some (codes "1") ≢ some (codes "2")) × (some (codes "1") ≢ none) × (some (codes "2") ≢ none))
three_way_symbol-conflict_iff_example =
    three_way_symbol-conflict_iff none (some (symbol_at "f" "1" 1)) (some (symbol_at "f" "2" 1))

three_way_symbol-chosen_example :
    let b = some (symbol_at "f" "1" 1) in
    let t = some (symbol_at "f" "2" 1) in chosen (three_way_symbol b b t) (view b) (view t) ≡ view t
unfolding three_way_symbol text_eq
three_way_symbol-chosen_example =
    (three_way_symbol-chosen (some (symbol_at "f" "1" 1)) (some (symbol_at "f" "1" 1))
        (some (symbol_at "f" "2" 1)) (λ e. cc)).0
      refl

abbrev base_symbols : Map SymbolData
base_symbols = entry "f" "1" 1 ∷ entry "g" "1" 4 ∷ []

abbrev ours_symbols : Map SymbolData
ours_symbols = entry "g" "2" 3 ∷ entry "f" "1" 1 ∷ []

abbrev theirs_symbols : Map SymbolData
theirs_symbols = entry "g" "3" 4 ∷ []

symbol_merge-decides_example :
    (symbol_merge base_symbols ours_symbols theirs_symbols).conflicts
    ≡ clashes_by
        (decide_key base_symbols ours_symbols theirs_symbols)
        (ordered_keys ours_symbols theirs_symbols base_symbols)
unfolding member text_eq
symbol_merge-decides_example =
    (symbol_merge-decides base_symbols ours_symbols theirs_symbols refl refl refl).1

symbol_merge_bounds_example :
    let m = symbol_merge base_symbols ours_symbols theirs_symbols in
    length m.conflicts ≤ length m.merged
symbol_merge_bounds_example = (symbol_merge_bounds base_symbols ours_symbols theirs_symbols).0

-- Three changes of one side alone have a mean just below 0.95.
rounded_mean :
    mean_float (add_float (add_float (add_float 0 ninety_five) ninety_five) ninety_five) 3
    ≡ 17113678584007882
unfolding round nearest unit_of mean_float
rounded_mean = refl

symbol_merge_unchanged_example :
    (symbol_merge base_symbols ours_symbols base_symbols).merged
    ≡ symbol_at "f" "1" 1 ∷ symbol_at "g" "2" 3 ∷ []
unfolding member text_eq sort_stable
symbol_merge_unchanged_example = (symbol_merge_unchanged base_symbols ours_symbols refl refl).0

abbrev import_of : String → ImportStatement
import_of path = record {
  raw = codes path;
  path = codes path;
  alias = [];
  group = codes "stdlib";
  line = 1;
}

import_merge_union_example :
    distinct (
      paths_of
        (import_merge [] (import_of "os" ∷ import_of "fmt" ∷ []) (import_of "os" ∷ [])).merged)
    ≡ true
import_merge_union_example =
    (import_merge_union [] (import_of "os" ∷ import_of "fmt" ∷ []) (import_of "os" ∷ [])
      (codes "os")).1

abbrev removed_f : BreakingChange
removed_f = record {
  kind = codes "removed_export";
  symbol = codes "f";
  affected_files = [];
  severity = high;
  message = [];
}

abbrev breaking_inputs : Inputs
breaking_inputs = record {
  base_symbols = symbol_at "f" "1" 1 ∷ [];
  ours_symbols = [];
  theirs_symbols = [];
  symbol_conflicts = [];
  import_changes = record { added = 0; removed = 0 };
  breaking_changes = removed_f ∷ [];
  is_config_file = false;
}

classify-ge-breaking_example : 3 ≤ rank (classify breaking_inputs).severity
classify-ge-breaking_example = (classify-ge-breaking breaking_inputs refl).0

classify-none_iff_example : ((classify breaking_inputs).type ≡ none_type) ↔ (
    (breaking_inputs.is_config_file ≡ false)
    × (max_breaking_severity breaking_inputs.breaking_changes ≡ none_severity)
    × (breaking_inputs.symbol_conflicts ≡ [])
    × (import_churn breaking_inputs ≡ 0)
    × (symbol_delta breaking_inputs ≡ 0))
classify-none_iff_example = classify-none_iff breaking_inputs
