-- ===== src/Provasign/Gates.antt =====
-- The gates of provasign/internal/policy on the diff and the build: gates.go and
-- coverage/coverage.go. A gate reads the stage results that the engine holds, the changeset and its
-- options.
pub mod Verdicts
pub mod Certified
use Prim.Native.String.{String}
use grove_suite.Prelude.{
  ℕ, zero, suc, ◌+◌, ◌-◌, ◌*◌, ◌/◌, Bool, true, false, not, ◌&&◌, ◌||◌, ◌==◌, ltb, if◌then◌else◌,
  List, [], ◌∷◌, ◌++◌, Option, none, some, any, length, is_empty, keep_if, Text, codes, text_eq,
  text_lt, has_prefix, contains, Map, lookup, member,
}
use grove_suite.Prelude.Sorts.{sort_stable}
use grove_suite.Prelude.Strings.{
  split_newlines, trim_space, trim_prefix, before, has_suffix, to_lower, decimal, decimal_tenths,
}
use grove_suite.Provasign.Data.{
  ChangeSet, PolicyResult, PolicyVerdict, allow, warn, review_required, deny, BuildResult,
  AnalysisResult, Finding, FindingCategory, secret, sast, vuln, fileclass, infrastructure_error,
  Severity, info, low, medium, high, critical,
}
use grove_suite.Provasign.Policy.{Stages, Gate}

-- A value of `map[string]any`: []any holds texts and others, and a float is in tenths. Numbers are
-- not negative.
pub data OptionValue : Type 0 where
  int_value : ℕ → OptionValue
  float_value : ℕ → OptionValue
  bool_value : Bool → OptionValue
  texts_value : List Text → OptionValue
  list_value : List (Option Text) → OptionValue
  other_value : OptionValue

abbrev pub Options : Type 0
Options = Map OptionValue

abbrev pub texts_of : List (Option Text) → List Text
texts_of [] = []
texts_of (none ∷ xs) = texts_of xs
texts_of (some t ∷ xs) = t ∷ texts_of xs

-- `stringSlice` and `stringSliceOption`, at the option's value.
abbrev pub string_slice : Option OptionValue → List Text
string_slice (some (texts_value ts)) = ts
string_slice (some (list_value xs)) = texts_of xs
string_slice (some (int_value n)) = []
string_slice (some (float_value n)) = []
string_slice (some (bool_value b)) = []
string_slice (some other_value) = []
string_slice none = []

abbrev pub int_option : Option OptionValue → ℕ → ℕ
int_option (some (int_value n)) default = n
int_option (some (float_value n)) default = n / 10
int_option other default = default

-- In tenths.
abbrev pub float_option : Option OptionValue → ℕ → ℕ
float_option (some (int_value n)) default = 10 * n
float_option (some (float_value n)) default = n
float_option other default = default

abbrev pub bool_option : Option OptionValue → Bool → Bool
bool_option (some (bool_value b)) default = b
bool_option other default = default

abbrev pub verdict_of : String → PolicyVerdict → Text → Text → PolicyResult
verdict_of gate verdict message next = record {
  gate = codes gate;
  verdict = verdict;
  message = message;
  next_action = next;
}

-- The path that a line of a diff names, for `touchedPaths`.
unfoldable pub touched_path : Text → Option Text
unfolding has_prefix trim_prefix trim_space text_eq
touched_path line =
    if not (has_prefix line (codes "+++ "))
    then none
    else (let path = trim_space (trim_prefix line (codes "+++ ")) in
        if text_eq path (codes "/dev/null") || is_empty path
        then none
        else some (before 9 (trim_prefix path (codes "b/"))))

abbrev pub collect : (Text → Option Text) → List Text → List Text
collect f [] = []
collect f (l ∷ ls) = elim (f l) [ none ↦ collect f ls | some p ↦ p ∷ collect f ls ]

unfoldable pub touched_paths : Text → List Text
unfolding split_newlines touched_path
touched_paths diff = collect touched_path (split_newlines diff)

abbrev pub is_added_line : Text → Bool
is_added_line line = not (has_prefix line (codes "+++ ")) && has_prefix line (codes "+")

unfoldable pub count_added_lines : Text → ℕ
unfolding split_newlines has_prefix
count_added_lines diff = length (keep_if is_added_line (split_newlines diff))

abbrev pub is_denied : List Text → Text → Bool
is_denied prefixes path = any (has_prefix path) prefixes

unfoldable pub evaluate_path : Stages → ChangeSet → Options → PolicyResult
unfolding touched_paths has_prefix lookup
evaluate_path stages cs opts =
    let files = touched_paths cs.diff in
    let hits = keep_if (is_denied (string_slice (lookup (codes "deny") opts))) files in
    if not (is_empty hits)
    then verdict_of "path" deny (decimal (length hits) ++ codes " path(s) match deny list")
        (codes "remove the changes to denied paths and resubmit")
    else verdict_of "path" allow
        (decimal (length files) ++ codes " file(s) inspected, no deny-list matches") []

-- `Evaluate` of the size gate, past the reading of options and diff.
unfoldable pub size_verdict : ℕ → ℕ → ℕ → ℕ → PolicyResult
size_verdict files added max_files max_added =
    if ltb max_files files
    then verdict_of "size" deny
        (decimal files ++ (codes " files changed exceeds max_files=" ++ decimal max_files))
        (codes "split the change into smaller intent-scoped commits")
    else if ltb max_added added
    then verdict_of "size" deny
        (decimal added ++ (codes " lines added exceeds max_added_lines=" ++ decimal max_added))
        (codes "split the change into smaller intent-scoped commits")
    else (let msg =
          decimal files ++ (codes " file(s), " ++ (decimal added ++ codes " line(s) added")) in
        if ltb (max_files * 8 / 10) files || ltb (max_added * 8 / 10) added
        then verdict_of "size" warn (msg ++ codes " (approaching size limit)") []
        else verdict_of "size" allow msg [])

unfoldable pub evaluate_size : Stages → ChangeSet → Options → PolicyResult
unfolding size_verdict touched_paths count_added_lines lookup
evaluate_size stages cs opts =
    size_verdict (length (touched_paths cs.diff)) (count_added_lines cs.diff)
      (int_option (lookup (codes "max_files") opts) 100)
      (int_option (lookup (codes "max_added_lines") opts) 5000)

abbrev pub escape_hatch_marker : Text
escape_hatch_marker = codes "relay:no-test-required"

abbrev pub is_hatch : Text → Bool
is_hatch line = is_added_line line && contains line escape_hatch_marker

unfoldable pub has_escape_hatch : Text → Bool
unfolding split_newlines has_prefix contains
has_escape_hatch diff = any is_hatch (split_newlines diff)

-- The coverage gate on a build's result.
unfoldable pub coverage_verdict : BuildResult → Text → Options → PolicyResult
unfolding has_escape_hatch lookup
coverage_verdict s diff opts =
    let min = float_option (lookup (codes "min_coverage") opts) 800 in
    let got = decimal_tenths s.tests.coverage_pct in
    if s.skipped
    then verdict_of "coverage" allow
        (codes "coverage gate: skipped (" ++ (s.skip_reason ++ codes ")")) []
    else if has_escape_hatch diff
    then verdict_of "coverage" allow
        (codes "coverage gate: skipped (" ++ (escape_hatch_marker ++ codes ")")) []
    else if ltb s.tests.coverage_pct min
    then verdict_of "coverage" deny
        (codes "coverage "
          ++ (got
              ++ (codes "% below minimum "
                  ++ (decimal_tenths min
                      ++ (codes "% "
                          ++ (226 ∷ 128 ∷ 148 ∷ codes " add tests or annotate with `// "
                              ++ (escape_hatch_marker ++ codes "`")))))))
        []
    else verdict_of "coverage" allow
        (codes "coverage " ++ (got ++ (codes "% (min " ++ (decimal_tenths min ++ codes "%)")))) []

unfoldable pub evaluate_coverage : Stages → ChangeSet → Options → PolicyResult
unfolding coverage_verdict
evaluate_coverage stages cs opts = elim stages.build [
  | none ↦
      verdict_of "coverage" review_required (codes "coverage gate: no Build result available") []
  | some s ↦ coverage_verdict s cs.diff opts
]

abbrev pub path_gate : Gate Options
path_gate = record { name = codes "path"; evaluate = evaluate_path }

abbrev pub size_gate : Gate Options
size_gate = record { name = codes "size"; evaluate = evaluate_size }

abbrev pub coverage_gate : Gate Options
coverage_gate = record { name = codes "coverage"; evaluate = evaluate_coverage }
