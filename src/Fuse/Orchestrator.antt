-- ===== src/Fuse/Orchestrator.antt =====
-- Merge of fuse/internal/merge/orchestrator.go: one file, from its three versions. The parser with the
-- extractors of a language, Grove, and the formats of config files are parameters; times are left
-- out. A confidence is a fraction.
pub mod OneSided
use Prim.Native.String.{String}
use grove_suite.Prelude.{
  ℕ, ◌+◌, ◌-◌, ◌*◌, ◌/◌, Bool, true, false, not, ◌&&◌, ◌||◌, ◌==◌, ltb, if◌then◌else◌, List, [],
  ◌∷◌, ◌++◌, Option, none, some, map, length, is_empty, keep_if, Text, codes, text_eq, member,
}
use grove_suite.Fuse.Data.{
  SymbolData, ImportStatement, SymbolConflict, BreakingChange, ConflictType, incremental,
  configurational, ConflictSeverity, none_severity, low, medium, high, critical, MergeStrategy,
  symbol, config, line, handoff, clean,
}
use grove_suite.Fuse.Line.{LineMergeResult, line_merge}
use grove_suite.Fuse.Symbols.{Fraction, SymbolMergeResult, symbols_to_map, symbol_merge}
use grove_suite.Fuse.Imports.{ImportMergeResult, path_set, import_merge}
use grove_suite.Fuse.Classify.{Verdict, classify}
use grove_suite.Fuse.Breaking.{Impacts, analyze}
use grove_suite.Fuse.Config.{Value, Format, ConfigMergeResult, config_merge}
use grove_suite.Fuse.Reconstruct.{reconstruct_file}

pub record MergeStats : Type 0 where
  pub symbols_base : ℕ
  pub symbols_ours : ℕ
  pub symbols_theirs : ℕ
  pub auto_merged : ℕ
  pub conflicted : ℕ

-- A type or a severity that was not set is `none`.
pub record AuditEntry : Type 0 where
  pub file : Text
  pub language : Text
  pub strategy : MergeStrategy
  pub conflict_type : Option ConflictType
  pub severity : Option ConflictSeverity
  pub confidence : Fraction
  pub auto_merged : Bool
  pub breaking_changes : ℕ

pub record MergeResult : Type 0 where
  pub file_path : Text
  pub language : Text
  pub merged_content : Text
  pub has_conflict : Bool
  pub confidence : Fraction
  pub conflict_type : Option ConflictType
  pub severity : Option ConflictSeverity
  pub strategy : MergeStrategy
  pub breaking_changes : List BreakingChange
  pub conflicts : List SymbolConflict
  pub stats : MergeStats
  pub diagnostics : List Text

-- `auditEntryFor`, without the time.
abbrev pub audit_entry_for : MergeResult → AuditEntry
audit_entry_for r = record {
  file = r.file_path;
  language = r.language;
  strategy = r.strategy;
  conflict_type = r.conflict_type;
  severity = r.severity;
  confidence = r.confidence;
  auto_merged = not r.has_conflict;
  breaking_changes = length r.breaking_changes;
}

-- The symbols and the imports of one version.
pub record Extracted : Type 0 where
  pub symbols : List SymbolData
  pub imports : List ImportStatement

-- What Merge is configured with. `extract` parses a text and reads it; it is `none` where the parser
-- fails. `is_supported` says that the registry and the parser both know a language.
pub record IntelliMerge : Type 0 where
  pub extract : Text → Text → Option Extracted
  pub is_supported : Text → Bool
  pub grove : Impacts
  pub handoff_threshold : Fraction
  pub enable_breaking : Bool
  pub quoted : Text → Text
  pub marshal : Value → Text
  pub formats : Text → Option Format

-- The confidence of imports is in hundredths.
unfoldable pub combine_confidence : Fraction → ℕ → Fraction
combine_confidence a b =
    if a.num == 0 || b == 0
    then record { num = 0; den = 1 }
    else record { num = 100 * a.num + b * a.den; den = 200 * a.den }

unfoldable pub count_delta : List ImportStatement → List ImportStatement → ℕ
unfolding path_set member
count_delta from to =
    length (keep_if (λ (i : ImportStatement). not (member i.path (path_set from))) to)

abbrev below : Fraction → Fraction → Bool
below a b = ltb (a.num * b.den) (b.num * a.den)

abbrev pub no_stats : MergeStats
no_stats = record {
  symbols_base = 0;
  symbols_ours = 0;
  symbols_theirs = 0;
  auto_merged = 0;
  conflicted = 0;
}

abbrev hundredths : ℕ → Fraction
hundredths n = record { num = n; den = 100 }

-- A result without symbols.
abbrev plain :
    Text
    → Text
    → Text
    → Bool
    → Fraction
    → MergeStrategy
    → Option ConflictType
    → Option ConflictSeverity
    → List Text
    → MergeResult
plain file lang content conflict conf strategy type severity diagnostics = record {
  file_path = file;
  language = lang;
  merged_content = content;
  has_conflict = conflict;
  confidence = conf;
  conflict_type = type;
  severity = severity;
  strategy = strategy;
  breaking_changes = [];
  conflicts = [];
  stats = no_stats;
  diagnostics = diagnostics;
}

abbrev pub is_config : Text → Bool
is_config lang =
    text_eq lang (codes "json") || (text_eq lang (codes "yaml") || text_eq lang (codes "toml"))

abbrev severity_text : ConflictSeverity → Text
severity_text none_severity = codes "NONE"
severity_text low = codes "LOW"
severity_text medium = codes "MEDIUM"
severity_text high = codes "HIGH"
severity_text critical = codes "CRITICAL"

abbrev diagnostic : BreakingChange → Text
diagnostic b = codes "[breaking " ++ (severity_text b.severity ++ (codes "] " ++ b.message))

module _ (im : IntelliMerge) (file lang : Text) where
  unfoldable pub merge_config : Text → Text → Text → MergeResult
  unfolding config_merge
  merge_config base ours theirs =
      let out = config_merge im.marshal im.formats lang base ours theirs in
      plain file lang out.merged out.has_conflict (record { num = out.confidence; den = 1000 })
        config (some configurational) (some (if out.has_conflict then medium else low)) []

  unfoldable pub merge_lines : Text → Text → Text → MergeResult
  unfolding line_merge
  merge_lines base ours theirs =
      let out = line_merge base ours theirs in
      plain file lang out.merged out.has_conflict (hundredths out.confidence) line
        (some incremental) (some low) []

  -- The line merge in place of one by symbols, at four fifths of its confidence.
  unfoldable pub merge_unparsed : Text → Text → Text → MergeResult
  unfolding line_merge
  merge_unparsed base ours theirs =
      let out = line_merge base ours theirs in
      plain file lang out.merged out.has_conflict (record { num = out.confidence * 8; den = 1000 })
        line (some incremental) (some medium)
        (codes "tree-sitter parse failed on at least one side; used line-level fallback" ∷ [])

  abbrev pub breaking_changes_of : Extracted → Extracted → Extracted → List BreakingChange
  breaking_changes_of b o t =
      if im.enable_breaking
      then analyze im.quoted im.grove file b.symbols o.symbols t.symbols
      else []

  abbrev pub merged_symbols : Extracted → Extracted → Extracted → SymbolMergeResult
  merged_symbols b o t =
      symbol_merge (symbols_to_map b.symbols) (symbols_to_map o.symbols) (symbols_to_map t.symbols)

  abbrev verdict_on : Extracted → Extracted → Extracted → Verdict
  verdict_on b o t = classify (record {
    base_symbols = b.symbols;
    ours_symbols = o.symbols;
    theirs_symbols = t.symbols;
    symbol_conflicts = (merged_symbols b o t).conflicts;
    import_changes = record {
      added = count_delta b.imports o.imports + count_delta b.imports t.imports;
      removed = count_delta o.imports b.imports + count_delta t.imports b.imports;
    };
    breaking_changes = breaking_changes_of b o t;
    is_config_file = false;
  })

  -- The phases from the breaking changes on; the text is that of ours.
  unfoldable pub merge_extracted : Text → Extracted → Extracted → Extracted → MergeResult
  unfolding symbol_merge symbols_to_map import_merge classify analyze count_delta combine_confidence
      reconstruct_file
  merge_extracted ours b o t =
      let breaking = breaking_changes_of b o t in
      let smerge = merged_symbols b o t in
      let imerge = import_merge b.imports o.imports t.imports in
      let conf = combine_confidence smerge.confidence imerge.confidence in
      let verdict = verdict_on b o t in
      record {
        file_path = file;
        language = lang;
        merged_content =
            reconstruct_file im.quoted ours o.symbols smerge.merged imerge.merged o.imports lang;
        has_conflict = not (is_empty smerge.conflicts);
        confidence = conf;
        conflict_type = some verdict.type;
        severity = some verdict.severity;
        strategy = if below conf im.handoff_threshold then handoff else symbol;
        breaking_changes = breaking;
        conflicts = smerge.conflicts;
        stats = record {
          symbols_base = length b.symbols;
          symbols_ours = length o.symbols;
          symbols_theirs = length t.symbols;
          auto_merged = length smerge.merged - length smerge.conflicts;
          conflicted = length smerge.conflicts;
        };
        diagnostics = map diagnostic breaking;
      }

  -- All three versions parse, or the lines are merged.
  unfoldable pub merge_parsed_sides :
      Text → Option Extracted → Option Extracted → Option Extracted → MergeResult → MergeResult
  unfolding merge_extracted
  merge_parsed_sides ours (some b) (some o) (some t) fallback = merge_extracted ours b o t
  merge_parsed_sides ours b o t fallback = fallback

  -- Past the early exits.
  unfoldable pub merge_changed : Text → Text → Text → MergeResult
  unfolding merge_config merge_lines merge_unparsed merge_parsed_sides text_eq
  merge_changed base ours theirs =
      if is_config lang
      then merge_config base ours theirs
      else if not (im.is_supported lang)
      then merge_lines base ours theirs
      else merge_parsed_sides ours (im.extract lang base) (im.extract lang ours)
          (im.extract lang theirs) (merge_unparsed base ours theirs)

  unfoldable pub merge : Text → Text → Text → MergeResult
  unfolding merge_changed text_eq
  merge base ours theirs =
      if text_eq ours theirs
      then plain file lang ours false (hundredths 100) clean none none []
      else if text_eq base ours
      then plain file lang theirs false (hundredths 99) clean none none []
      else if text_eq base theirs
      then plain file lang ours false (hundredths 99) clean none none []
      else merge_changed base ours theirs
