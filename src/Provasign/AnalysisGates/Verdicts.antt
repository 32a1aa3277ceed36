-- ===== src/Provasign/AnalysisGates/Verdicts.antt =====
-- When the gates on the analysis let a changeset through.
use grove_suite.Prelude.{
  ℕ, ◌≡◌, ◌↔◌, ◌⊎◌, refl, ◌++◌, inl, inr, Bool, true, false, not, ◌||◌, if◌then◌else◌, List, [],
  ◌∷◌, some, is_empty, keep_if, All, codes, lookup, arith, Bool-cases, Option-cases,
}
use grove_suite.Provasign.Data.{
  ChangeSet, PolicyResult, allow, is_allowed, AnalysisResult, Finding, FindingCategory, secret,
  vuln, low, info, medium, high, critical,
}
use grove_suite.Provasign.Policy.{Stages}
use grove_suite.Provasign.Gates.{Options, bool_option, verdict_of}
use grove_suite.Provasign.AnalysisGates.{
  deps_level, category_eq, severity_eq, findings_by_category, with_severity, deps_verdict,
  evaluate_deps, evaluate_secrets,
}

-- No finding is of the category.
abbrev pub Free : FindingCategory → AnalysisResult → Type 0
Free c s = All (λ (f : Finding). category_eq f.category c ≡ false) s.findings

-- No finding of a vulnerable dependency is medium or worse.
abbrev pub is_minor : Finding → Bool
is_minor f =
    not (category_eq f.category vuln) || (severity_eq f.severity low || severity_eq f.severity info)

abbrev pub MinorOnly : AnalysisResult → Type 0
MinorOnly s = All (λ (f : Finding). is_minor f ≡ true) s.findings

none_of_category :
    (c : FindingCategory) (fs : List Finding)
    → (is_empty (keep_if (λ (f : Finding). category_eq f.category c) fs) ≡ true)
      ↔ All (λ (f : Finding). category_eq f.category c ≡ false) fs
none_of_category c [] = (λ e. tt, λ h. refl)
none_of_category c (f ∷ fs) =
    let ih = none_of_category c fs in
    (λ e. (ground (arith, e), ih.0 (ground (arith, e))), λ h. ground (arith, h.0, ih.1 h.1))

-- The secrets gate lets a changeset through exactly where the analysis has a result, was not
-- skipped, and found no secret.
pub evaluate_secrets-allowed_iff :
    (stages : Stages) (cs : ChangeSet) (opts : Options)
    → (is_allowed (evaluate_secrets stages cs opts).verdict ≡ true)
      ↔ ((s : AnalysisResult) × (stages.analysis ≡ some s) × (s.skipped ≡ false) × Free secret s)
unfolding evaluate_secrets findings_by_category
evaluate_secrets-allowed_iff stages cs opts = elim (Option-cases stages.analysis) [
  | inl missing ↦
      (λ e. absurd (ground (arith, missing)), λ (s, l, c, d). absurd (ground (arith, missing)))
  | inr (s, there) ↦ (
    λ e. (
      s,
      there,
      ground (arith, there),
      (none_of_category secret s.findings).0 (ground (arith, there)),
    ),
    λ (t, l, run, free).
        rw (evaluate_secrets, l, run, (none_of_category secret t.findings).1 free) refl,
  )
]

-- None of these is medium or worse.
none_severe :
    (fs : List Finding)
    → let vulns = keep_if (λ (f : Finding). category_eq f.category vuln) fs in
      ((with_severity critical vulns ≡ 0)
        × (with_severity high vulns ≡ 0)
        × (with_severity medium vulns ≡ 0))
      ↔ All (λ (f : Finding). is_minor f ≡ true) fs
none_severe [] = ((λ e. tt), (λ h. (refl, refl, refl)))
none_severe (f ∷ fs) =
    let ih = none_severe fs in
    (
      λ e. (ground (arith, e), ih.0 (ground (arith, e), ground (arith, e), ground (arith, e))),
      λ h. (
        ground (arith, h.0, ih.1 h.1),
        ground (arith, h.0, ih.1 h.1),
        ground (arith, h.0, ih.1 h.1),
      ),
    )

deps_level-allowed :
    (c h m : ℕ) (deny_high : Bool)
    → (is_allowed (deps_level c h m deny_high) ≡ true) ↔ ((c ≡ 0) × (h ≡ 0) × (m ≡ 0))
unfolding deps_level
deps_level-allowed c h m deny_high =
    ((λ e. (ground (arith, e), ground (arith, e), ground (arith, e))), (λ z. ground (arith, z)))

deps_verdict-allowed :
    (vulns : List Finding) (deny_high : Bool)
    → (is_allowed (deps_verdict vulns deny_high).verdict ≡ true) ↔ (
        (with_severity critical vulns ≡ 0)
        × (with_severity high vulns ≡ 0)
        × (with_severity medium vulns ≡ 0))
unfolding deps_verdict
deps_verdict-allowed [] deny_high = ((λ e. (refl, refl, refl)), (λ h. refl))
deps_verdict-allowed (v ∷ vs) deny_high =
    deps_level-allowed (with_severity critical (v ∷ vs)) (with_severity high (v ∷ vs))
      (with_severity medium (v ∷ vs)) deny_high

-- The deps gate on an analysis that has a result.
analysis_deps : AnalysisResult → Bool → PolicyResult
unfolding findings_by_category
analysis_deps s deny_high =
    if s.skipped
    then verdict_of "deps" allow
        (codes "deps gate: Stage 2 skipped (" ++ (s.skip_reason ++ codes ")")) []
    else deps_verdict (findings_by_category s vuln) deny_high

analysis_deps-allowed :
    (s : AnalysisResult) (deny_high : Bool)
    → (is_allowed (analysis_deps s deny_high).verdict ≡ true) ↔ ((s.skipped ≡ true) ⊎ MinorOnly s)
unfolding analysis_deps
analysis_deps-allowed s deny_high =
    let checked =
      deps_verdict-allowed (keep_if (λ (f : Finding). category_eq f.category vuln) s.findings)
        deny_high in
    let counts = none_severe s.findings in
    elim (Bool-cases s.skipped) [
      | inl skip ↦ (λ e. inl skip, λ c. rw skip refl)
      | inr run ↦ (
        λ e. inr (counts.0 (checked.0 (rw run at e))),
        λ c. elim c [
          | inl skip ↦ absurd (ground (arith, run, skip))
          | inr minor ↦ rw run (checked.1 (counts.1 minor))
        ],
      )
    ]

-- The deps gate lets a changeset through exactly where the analysis has a result and was skipped
-- or found no vulnerable dependency of medium or higher severity, whatever its option.
pub evaluate_deps-allowed_iff :
    (stages : Stages) (cs : ChangeSet) (opts : Options)
    → (is_allowed (evaluate_deps stages cs opts).verdict ≡ true)
      ↔ ((s : AnalysisResult) × (stages.analysis ≡ some s) × ((s.skipped ≡ true) ⊎ MinorOnly s))
unfolding evaluate_deps analysis_deps
evaluate_deps-allowed_iff stages cs opts = elim (Option-cases stages.analysis) [
  | inl missing ↦
      (λ e. absurd (ground (arith, missing)), λ (s, l, c). absurd (ground (arith, missing)))
  | inr (s, there) ↦ (
    λ e. (s, there, (analysis_deps-allowed s denies).0 (rw (there, evaluate_deps) at e)),
    λ (t, l, c). rw (l, evaluate_deps) ((analysis_deps-allowed t denies).1 c),
  )
]
  where
    denies : Bool
    denies = bool_option (lookup (codes "deny_high") opts) false
