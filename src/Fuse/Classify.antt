-- ===== src/Fuse/Classify.antt =====
-- fuse/internal/merge/classification/engine.go: the type and the severity of a merge conflict. The
-- field Language of the inputs is read by nothing there and left out; so is ImportChanges.Changed.
pub mod Severity
use grove_suite.Prelude.{
  ℕ, ◌+◌, ◌-◌, Bool, true, false, not, ◌&&◌, ◌||◌, List, [], ◌∷◌, ◌==◌, ltb, leb, if◌then◌else◌,
  length, is_empty, any, Text, codes, contains,
}
use grove_suite.Fuse.Data.{
  SymbolData, SymbolConflict, BreakingChange, ConflictType, none_type, incremental, structural,
  architectural, configurational, complex, ConflictSeverity, none_severity, low, medium, high,
  critical,
}

pub record ImportChangeSummary : Type 0 where
  pub added : ℕ
  pub removed : ℕ

pub record Inputs : Type 0 where
  pub base_symbols : List SymbolData
  pub ours_symbols : List SymbolData
  pub theirs_symbols : List SymbolData
  pub symbol_conflicts : List SymbolConflict
  pub import_changes : ImportChangeSummary
  pub breaking_changes : List BreakingChange
  pub is_config_file : Bool

pub record Verdict : Type 0 where
  pub type : ConflictType
  pub severity : ConflictSeverity

abbrev pub rank : ConflictSeverity → ℕ
rank none_severity = 0
rank low = 1
rank medium = 2
rank high = 3
rank critical = 4

-- The loop of `maxBreakingSeverity`.
unfoldable pub max_from : ConflictSeverity → List BreakingChange → ConflictSeverity
max_from best [] = best
max_from best (b ∷ bs) =
    max_from (if ltb (rank best) (rank b.severity) then b.severity else best) bs

unfoldable pub max_breaking_severity : List BreakingChange → ConflictSeverity
unfolding max_from
max_breaking_severity bcs = max_from none_severity bcs

unfoldable pub contains_any : Text → List Text → Bool
contains_any s needles = any (contains s) needles

unfoldable pub signals_in_one_side_only : List SymbolConflict → List Text → Bool
signals_in_one_side_only [] needles = false
signals_in_one_side_only (c ∷ cs) needles =
    let ours_has = contains_any c.ours.body needles in
    let theirs_has = contains_any c.theirs.body needles in
    let base_has = contains_any c.base.body needles in
    (not base_has && ((ours_has && not theirs_has) || (not ours_has && theirs_has)))
    || signals_in_one_side_only cs needles

unfoldable pub has_architectural_signals : Inputs → Bool
unfolding signals_in_one_side_only contains_any
has_architectural_signals in' =
    signals_in_one_side_only in'.symbol_conflicts (codes "async" ∷ codes "await" ∷ [])
    || signals_in_one_side_only in'.symbol_conflicts (codes "Promise<" ∷ codes "then(" ∷ [])

-- `abs(a - b)` of two lengths.
abbrev pub abs_diff : ℕ → ℕ → ℕ
abs_diff a b = (a - b) + (b - a)

abbrev pub symbol_delta : Inputs → ℕ
symbol_delta in' =
    abs_diff (length in'.ours_symbols) (length in'.base_symbols)
    + abs_diff (length in'.theirs_symbols) (length in'.base_symbols)

abbrev pub import_churn : Inputs → ℕ
import_churn in' = in'.import_changes.added + in'.import_changes.removed

abbrev verdict : ConflictType → ConflictSeverity → Verdict
verdict t s = record { type = t; severity = s }

-- The `switch` on the counts.
unfoldable pub by_counts : Inputs → Verdict
by_counts in' =
    let conflict_count = length in'.symbol_conflicts in
    if has_architectural_signals in'
    then verdict architectural high
    else if ltb 10 (symbol_delta in') || (ltb 3 conflict_count && ltb 5 (import_churn in'))
    then verdict complex high
    else if ltb 3 conflict_count
    then verdict structural high
    else if leb 1 conflict_count
    then verdict structural medium
    else if ltb 0 (import_churn in') && conflict_count == 0
    then verdict incremental low
    else if ltb 0 (symbol_delta in')
    then verdict incremental low
    else verdict none_type none_severity

abbrev pub is_none : ConflictSeverity → Bool
is_none none_severity = true
is_none low = false
is_none medium = false
is_none high = false
is_none critical = false

unfoldable pub classify : Inputs → Verdict
unfolding by_counts
classify in' =
    let max_sev = max_breaking_severity in'.breaking_changes in
    if in'.is_config_file
    then verdict configurational (if is_empty in'.symbol_conflicts then low else medium)
    else if not (is_none max_sev)
    then verdict (if has_architectural_signals in' then architectural else structural) max_sev
    else by_counts in'
