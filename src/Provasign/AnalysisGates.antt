-- ===== src/Provasign/AnalysisGates.antt =====
-- The gates of provasign/internal/policy on the analysis: deps/deps.go, fileclass/fileclass.go and
-- secrets/secrets.go. The glob matching of package path is a parameter.
pub mod Verdicts
use Prim.Native.String.{String}
use grove_suite.Prelude.{
  ℕ, zero, suc, ◌+◌, ◌-◌, ◌*◌, ◌/◌, Bool, true, false, not, ◌&&◌, ◌||◌, ◌==◌, ltb, if◌then◌else◌,
  List, [], ◌∷◌, ◌++◌, Option, none, some, any, length, is_empty, keep_if, Text, codes, text_eq,
  text_lt, has_prefix, contains, Map, lookup, member,
}
use grove_suite.Prelude.Sorts.{sort_stable}
use grove_suite.Prelude.Strings.{
  split_newlines, trim_space, trim_prefix, before, has_suffix, to_lower, decimal, decimal_tenths,
}
use grove_suite.Provasign.Data.{
  ChangeSet, PolicyResult, PolicyVerdict, allow, warn, review_required, deny, BuildResult,
  AnalysisResult, Finding, FindingCategory, secret, sast, vuln, fileclass, infrastructure_error,
  Severity, info, low, medium, high, critical,
}
use grove_suite.Provasign.Policy.{Stages, Gate}
use grove_suite.Provasign.Gates.{Options, verdict_of, string_slice, bool_option, collect}

abbrev pub category_eq : FindingCategory → FindingCategory → Bool
category_eq secret secret = true
category_eq sast sast = true
category_eq vuln vuln = true
category_eq fileclass fileclass = true
category_eq infrastructure_error infrastructure_error = true
category_eq c d = false

abbrev pub severity_eq : Severity → Severity → Bool
severity_eq info info = true
severity_eq low low = true
severity_eq medium medium = true
severity_eq high high = true
severity_eq critical critical = true
severity_eq s t = false

-- `FindingsByCategory()[c]`.
unfoldable pub findings_by_category : AnalysisResult → FindingCategory → List Finding
findings_by_category s c = keep_if (λ (f : Finding). category_eq f.category c) s.findings

-- The items that a message lists, at most `limit` of them; `more` are the others.
abbrev pub listed : (Finding → Text) → ℕ → ℕ → List Finding → Text
listed show limit more [] = []
listed show zero more (f ∷ fs) = codes " (+" ++ (decimal more ++ codes " more)")
listed show (suc limit) more (f ∷ fs) = show f ++ listed show limit more fs

abbrev pub with_severity : Severity → List Finding → ℕ
with_severity s fs = length (keep_if (λ (f : Finding). severity_eq f.severity s) fs)

abbrev by_rule : Finding → Finding → Bool
by_rule f g =
    if not (text_eq f.rule_id g.rule_id) then text_lt f.rule_id g.rule_id else text_lt f.path g.path

abbrev counted : String → ℕ → Text
counted name n = if ltb 0 n then codes name ++ decimal n else []

abbrev rule_item : Finding → Text
rule_item f = codes " " ++ (f.rule_id ++ codes ";")

-- The `switch` on the counts.
unfoldable pub deps_level : ℕ → ℕ → ℕ → Bool → PolicyVerdict
deps_level crit highs mediums deny_high =
    if ltb 0 crit
    then deny
    else if ltb 0 highs && deny_high
    then deny
    else if ltb 0 highs || ltb 0 mediums
    then review_required
    else allow

unfoldable pub deps_message : List Finding → Text
unfolding sort_stable text_eq text_lt
deps_message vulns =
    decimal (length vulns)
    ++ (codes " vulnerable dep(s)"
        ++ (counted " critical=" (with_severity critical vulns)
            ++ (counted " high=" (with_severity high vulns)
                ++ (counted " medium=" (with_severity medium vulns)
                    ++ (counted " low=" (with_severity low vulns + with_severity info vulns)
                        ++ (codes ":"
                            ++ listed rule_item 3 (length vulns - 3)
                                (sort_stable by_rule vulns)))))))

abbrev next_unless_allowed : PolicyVerdict → Text
next_unless_allowed allow = []
next_unless_allowed verdict =
    codes "upgrade or replace the vulnerable dependency; for unavoidable cases, request review"

-- The deps gate on the vulnerable dependencies that were found.
unfoldable pub deps_verdict : List Finding → Bool → PolicyResult
unfolding deps_level deps_message
deps_verdict vulns deny_high =
    let level =
      deps_level (with_severity critical vulns) (with_severity high vulns)
        (with_severity medium vulns) deny_high in
    if is_empty vulns
    then verdict_of "deps" allow (codes "no vulnerable dependencies detected") []
    else verdict_of "deps" level (deps_message vulns) (next_unless_allowed level)

unfoldable pub evaluate_deps : Stages → ChangeSet → Options → PolicyResult
unfolding deps_verdict findings_by_category lookup
evaluate_deps stages cs opts = elim stages.analysis [
  | none ↦ verdict_of "deps" review_required (codes "deps gate: no Analysis result available") []
  | some s ↦
      (if s.skipped
        then verdict_of "deps" allow
            (codes "deps gate: Stage 2 skipped (" ++ (s.skip_reason ++ codes ")")) []
        else deps_verdict (findings_by_category s vuln)
            (bool_option (lookup (codes "deny_high") opts) false))
]

abbrev by_place : Finding → Finding → Bool
by_place f g = if not (text_eq f.path g.path) then text_lt f.path g.path else ltb f.line g.line

abbrev secret_item : Finding → Text
secret_item f =
    codes " ["
    ++ (f.analyzer
        ++ (codes "] "
            ++ (f.path
                ++ (codes ":" ++ (decimal f.line ++ (codes " " ++ (f.rule_id ++ codes ";")))))))

unfoldable pub evaluate_secrets : Stages → ChangeSet → Options → PolicyResult
unfolding findings_by_category sort_stable text_eq text_lt
evaluate_secrets stages cs opts = elim stages.analysis [
  | none ↦
      verdict_of "secrets" review_required (codes "secrets gate: no Analysis result available") []
  | some s ↦
      (let found = findings_by_category s secret in
        if s.skipped
        then verdict_of "secrets" review_required
            (codes "secrets gate: Stage 2 skipped (" ++ (s.skip_reason ++ codes ")"))
            (codes "install a secrets scanner (`provasign tools install`) and re-submit")
        else if is_empty found
        then verdict_of "secrets" allow (codes "no secrets detected") []
        else verdict_of "secrets" deny
            (decimal (length found)
              ++ (codes " secret(s) detected:"
                  ++ listed secret_item 5 (length found - 5) (sort_stable by_place found)))
            (codes
              "remove the secret from the diff, rotate the credential at its provider, and re-submit"))
]

-- The path that a line names, for `pathsFromDiff`.
unfoldable pub diff_path : Text → Option Text
unfolding has_prefix trim_prefix trim_space text_eq
diff_path line =
    if not (has_prefix line (codes "+++ "))
    then none
    else (let path = trim_space (trim_prefix line (codes "+++ ")) in
        if text_eq path (codes "/dev/null") then none else some (trim_prefix path (codes "b/")))

-- Each path once, at its first place; `seen` are those before.
unfoldable pub unique_paths : List Text → List Text → List Text
unfolding member
unique_paths seen [] = []
unique_paths seen (p ∷ ps) =
    let old = unique_paths seen ps in
    let new = p ∷ unique_paths (p ∷ seen) ps in if member p seen then old else new

unfoldable pub paths_from_diff : Text → List Text
unfolding split_newlines diff_path unique_paths
paths_from_diff diff = unique_paths [] (collect diff_path (split_newlines diff))

-- A forbidden path and the rule that it matches.
pub record Hit : Type 0 where
  pub path : Text
  pub rule : Text

-- The hit of the first rule that matches, for the loops over extensions and globs.
abbrev pub first_hit : (Text → Bool) → Text → Text → List Text → List Hit
first_hit matches kind path [] = []
first_hit matches kind path (r ∷ rs) =
    if matches r
    then record { path = path; rule = kind ++ r } ∷ []
    else first_hit matches kind path rs

module _ (glob_match : Text → Text → Bool) where
  abbrev pub has_ext : Text → Text → Bool
  has_ext path ext = has_suffix (to_lower path) (to_lower ext)

  unfoldable pub hits_of : List Text → List Text → List Text → List Hit
  hits_of exts globs [] = []
  hits_of exts globs (p ∷ ps) =
      first_hit (has_ext p) (codes "ext ") p exts
      ++ (first_hit (λ g. glob_match g p) (codes "glob ") p globs ++ hits_of exts globs ps)

  abbrev by_path : Hit → Hit → Bool
  by_path h k = text_lt h.path k.path

  abbrev pub listed_hits : ℕ → ℕ → List Hit → Text
  listed_hits limit more [] = []
  listed_hits zero more (h ∷ hs) = codes " (+" ++ (decimal more ++ codes " more)")
  listed_hits (suc limit) more (h ∷ hs) =
      codes " " ++ (h.path ++ (codes " [" ++ (h.rule ++ (codes "];" ++ listed_hits limit more hs))))

  unfoldable pub evaluate_fileclass : Stages → ChangeSet → Options → PolicyResult
  unfolding paths_from_diff hits_of sort_stable text_lt lookup
  evaluate_fileclass stages cs opts =
      let globs = string_slice (lookup (codes "deny_globs") opts) in
      let exts = string_slice (lookup (codes "deny_exts") opts) in
      let paths = paths_from_diff cs.diff in
      let hits = hits_of exts globs paths in
      if is_empty globs && is_empty exts
      then verdict_of "fileclass" allow (codes "fileclass: no rules configured") []
      else if is_empty paths
      then verdict_of "fileclass" allow (codes "fileclass: no paths in diff") []
      else if is_empty hits
      then verdict_of "fileclass" allow
          (codes "fileclass: " ++ (decimal (length paths) ++ codes " path(s) checked, no matches"))
          []
      else verdict_of "fileclass" deny
          (decimal (length hits)
            ++ (codes " forbidden path(s):"
                ++ listed_hits 5 (length hits - 5) (sort_stable by_path hits)))
          (codes
            "remove the forbidden files from the diff or split the change into a separate, reviewed intent")

abbrev pub deps_gate : Gate Options
deps_gate = record { name = codes "deps"; evaluate = evaluate_deps }

abbrev pub secrets_gate : Gate Options
secrets_gate = record { name = codes "secrets"; evaluate = evaluate_secrets }

abbrev pub fileclass_gate : (Text → Text → Bool) → Gate Options
fileclass_gate glob_match = record {
  name = codes "fileclass";
  evaluate = evaluate_fileclass glob_match;
}
