-- ===== src/Provasign/Risk.antt =====
-- provasign/internal/cert/risk/risk.go: the heatmap of a changeset. Scores and components are exact
-- fractions where the source has floats: the components icr_unknown and coverage_deficit in
-- thousandths, analysis_severity in quarters, touch_intensity in twentieths, and a score in parts of
-- 100000, so that its weights 0.30, 0.30, 0.25 and 0.15 are whole factors.
pub mod Bounds
use Prim.Native.String.{String}
use grove_suite.Prelude.{
  ℕ, ◌+◌, ◌-◌, ◌*◌, Bool, true, false, not, ◌&&◌, ◌||◌, ◌==◌, ltb, if◌then◌else◌, List, [], ◌∷◌,
  Option, none, some, length, is_empty, keep_if, map, Text, text_eq, text_lt, member,
}
use grove_suite.Prelude.Sorts.{sort_stable}
use grove_suite.Prelude.Strings.{trim_space}
use grove_suite.Provasign.Data.{
  Icr, BuildResult, AnalysisResult, Finding, Severity, info, low, medium, high, critical,
}

pub record Components : Type 0 where
  pub icr_unknown : ℕ
  pub analysis_severity : ℕ
  pub coverage_deficit : ℕ
  pub touch_intensity : ℕ

pub record Cell : Type 0 where
  pub file : Text
  pub score : ℕ
  pub components : Components

pub record Heatmap : Type 0 where
  pub overall : ℕ
  pub cells : List Cell

pub record Inputs : Type 0 where
  pub icr : Icr
  pub build : Option BuildResult
  pub analysis : Option AnalysisResult

-- `clamp01` at the scale `one`; below 0 the subtraction has stopped.
abbrev pub clamp : ℕ → ℕ → ℕ
clamp one x = if ltb one x then one else x

unfoldable pub unique_from : List Text → List Text → List Text
unfolding member trim_space
unique_from seen [] = []
unique_from seen (f ∷ fs) =
    let g = trim_space f in
    let skip = unique_from seen fs in
    let take_it = g ∷ unique_from (g ∷ seen) fs in
    if is_empty g || member g seen then skip else take_it

unfoldable pub unique_files : List Text → List Text
unfolding unique_from sort_stable text_lt
unique_files files = sort_stable text_lt (unique_from [] files)

-- In quarters.
abbrev pub severity_value : Severity → ℕ
severity_value critical = 4
severity_value high = 3
severity_value medium = 2
severity_value low = 1
severity_value info = 0

-- The loop of `analysisSeverityForFile`.
unfoldable pub worst_from : ℕ → List Finding → ℕ
worst_from worst [] = worst
worst_from worst (f ∷ fs) =
    let v = severity_value f.severity in worst_from (if ltb worst v then v else worst) fs

-- `analysisFindingsByFile(a)[file]`.
unfoldable pub findings_of_file : Option AnalysisResult → Text → List Finding
unfolding text_eq
findings_of_file none file = []
findings_of_file (some a) file =
    keep_if (λ (f : Finding). not (is_empty f.path) && text_eq f.path file) a.findings

-- The coverage is in tenths of a percent; an uncovered or skipped build counts as no deficit.
unfoldable pub coverage_deficit_of : Option BuildResult → ℕ
coverage_deficit_of none = 0
coverage_deficit_of (some b) =
    if ltb 0 b.tests.coverage_pct then clamp 1000 (1000 - b.tests.coverage_pct) else 0

-- 0.30 * icr + 0.30 * severity + 0.25 * coverage + 0.15 * touch.
unfoldable pub score_of : Components → ℕ
score_of c = clamp 100000 (
    30 * c.icr_unknown
    + 7500 * c.analysis_severity
    + 25 * c.coverage_deficit
    + 750 * c.touch_intensity)

unfoldable pub cell_of : Inputs → ℕ → Text → Cell
unfolding worst_from findings_of_file coverage_deficit_of score_of
cell_of inputs touch file =
    let c : Components = record {
      icr_unknown = clamp 1000 (1000 - inputs.icr.confidence);
      analysis_severity = worst_from 0 (findings_of_file inputs.analysis file);
      coverage_deficit = coverage_deficit_of inputs.build;
      touch_intensity = touch;
    } in
    record { file = file; score = score_of c; components = c }

unfoldable pub overall_from : ℕ → List Cell → ℕ
overall_from best [] = best
overall_from best (c ∷ cs) = overall_from (if ltb best c.score then c.score else best) cs

abbrev pub hotter : Cell → Cell → Bool
hotter c d = ltb d.score c.score

unfoldable pub heatmap_of : Inputs → List Text → Heatmap
unfolding cell_of overall_from sort_stable
heatmap_of inputs files =
    let cells = map (cell_of inputs (clamp 20 (length files))) files in
    if is_empty files
    then record { overall = 0; cells = [] }
    else record { overall = overall_from 0 cells; cells = sort_stable hotter cells }

unfoldable pub compute : Inputs → Heatmap
unfolding unique_files heatmap_of
compute inputs = heatmap_of inputs (unique_files inputs.icr.files)
