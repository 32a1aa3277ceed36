-- ===== src/Provasign/Gates/Verdicts.antt =====
-- When the gates on the diff and the build let a changeset through.
use grove_suite.Prelude.{
  ◌*◌, ◌/◌, ◌≤◌, ◌≡◌, ◌↔◌, ◌⊎◌, refl, Bool, true, false, List, [], ◌∷◌, length, is_empty, keep_if,
  All, Text, codes, lookup, arith,
}
use grove_suite.Prelude.Members.{Among}
use grove_suite.Prelude.Searches.{StartsWith, Holds}
use grove_suite.Prelude.Strings.{split_newlines}
use grove_suite.Provasign.Data.{ChangeSet, allow, is_allowed, BuildResult}
use grove_suite.Provasign.Policy.{Stages}
use grove_suite.Provasign.Gates.{
  Options, string_slice, int_option, float_option, touched_paths, count_added_lines, is_denied,
  evaluate_path, evaluate_size, escape_hatch_marker,
}

-- Nothing is kept where no element passes.
keep_if-is_empty :
    {A : Type 0} (p : A → Bool) (xs : List A)
    → (is_empty (keep_if p xs) ≡ true) ↔ All (λ x. p x ≡ false) xs
keep_if-is_empty p [] = (λ e. tt, λ h. refl)
keep_if-is_empty p (x ∷ xs) =
    let ih = keep_if-is_empty p xs in
    (λ e. (ground (arith, e), ih.0 (ground (arith, e))), λ h. ground (arith, h.0, ih.1 h.1))

-- The path gate allows exactly the diffs in which no touched path starts with a denied prefix.
evaluate_path-allow_iff :
    (stages : Stages) (cs : ChangeSet) (opts : Options)
    → ((evaluate_path stages cs opts).verdict ≡ allow)
      ↔ All
          (λ path. is_denied (string_slice (lookup (codes "deny") opts)) path ≡ false)
          (touched_paths cs.diff)
unfolding evaluate_path
evaluate_path-allow_iff stages cs opts =
    let prefixes = string_slice (lookup (codes "deny") opts) in
    let none_kept = keep_if-is_empty (is_denied prefixes) (touched_paths cs.diff) in
    (λ e. none_kept.0 (ground (arith, e)), λ h. ground (arith, none_kept.1 h))

-- The size gate denies more files or more added lines than its limits, warns from four fifths of
-- a limit on, and allows below.
evaluate_size_verdict :
    (stages : Stages) (cs : ChangeSet) (opts : Options)
    → let files = length (touched_paths cs.diff) in
      let added = count_added_lines cs.diff in
      let max_files = int_option (lookup (codes "max_files") opts) 100 in
      let max_added = int_option (lookup (codes "max_added_lines") opts) 5000 in
      let verdict = (evaluate_size stages cs opts).verdict in
      ((is_allowed verdict ≡ true) ↔ ((files ≤ max_files) × (added ≤ max_added)))
      × ((verdict ≡ allow) ↔ ((files ≤ max_files * 8 / 10) × (added ≤ max_added * 8 / 10)))
unfolding evaluate_size
evaluate_size_verdict stages cs opts = (
  (λ e. (ground arith, ground arith), λ h. ground arith),
  (λ e. (ground arith, ground arith), λ h. ground arith),
)

-- A line that the diff adds, not the header of a file, with the marker in it.
abbrev pub AddsMarker : Text → Type 0
AddsMarker line =
    StartsWith (codes "+") line × ¬ StartsWith (codes "+++ ") line × Holds escape_hatch_marker line

-- What lets a build through the coverage gate.
abbrev pub Covered : BuildResult → Text → Options → Type 0
Covered s diff opts =
    (s.skipped ≡ true)
    ⊎ ((line : Text) × Among line (split_newlines diff) × AddsMarker line)
    ⊎ (float_option (lookup (codes "min_coverage") opts) 800 ≤ s.tests.coverage_pct)
