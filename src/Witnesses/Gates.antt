-- ===== src/Witnesses/Gates.antt =====
-- The gates at concrete inputs.
use grove_suite.Prelude.{
  ℕ, map, ◌≡◌, ◌↔◌, ◌⊎◌, refl, true, false, [], ◌∷◌, ◌++◌, none, some, Option, Text, codes, text_eq,
  text_lt, lookup, member,
}
use grove_suite.Prelude.Sorts.{sort_stable}
use grove_suite.Prelude.Strings.{before, decimal}
use grove_suite.Provasign.Data.{
  ChangeSet, PolicyBlock, RelayConfig, Certificate, AnalysisResult, Finding, secret, vuln, sast,
  low, is_allowed,
}
use grove_suite.Provasign.Policy.{Stages}
use grove_suite.Provasign.Engine.{
  Env, committed, EngineResult, Flow, stop, go_on, certified, certify_with, check, run_stages,
  run_build, run_analysis, run_post_gates, make_certificate, analysis_policy_result, is_post_stage,
}
use grove_suite.Provasign.Gates.{
  Options, texts_value, int_value, bool_value, touched_paths, evaluate_path,
}
use grove_suite.Provasign.Risk.{Inputs, Cell, compute}
use grove_suite.Provasign.Risk.Bounds.{falls, top, compute_overall}
use grove_suite.Provasign.Gates.Certified.{certified_no_secrets}
use grove_suite.Provasign.AnalysisGates.{secrets_gate, evaluate_secrets, evaluate_deps}
use grove_suite.Provasign.AnalysisGates.Verdicts.{Free, MinorOnly, evaluate_deps-allowed_iff}

-- Two files; one line is added to each.
abbrev small_diff : Text
small_diff =
    codes "+++ b/a.go"
    ++ (10 ∷ (codes "+x" ++ (10 ∷ (codes "+++ b/vendor/m.go" ++ (10 ∷ codes "+y")))))

abbrev small_change : ChangeSet
small_change = record {
  id = codes "cs-1";
  intent_id = codes "i-1";
  intent_brief = [];
  repo_root = codes "/r";
  base_sha = codes "b0";
  diff = small_diff;
  author = codes "a";
  agent_model = codes "m";
  status = none;
}

abbrev options : Options
options =
    (codes "deny", texts_value (codes "vendor/" ∷ []))
    ∷ (codes "max_files", int_value 2)
    ∷ (codes "deny_high", bool_value true)
    ∷ []

abbrev sast_finding : Finding
sast_finding = record {
  analyzer = codes "semgrep";
  category = sast;
  rule_id = codes "r1";
  severity = low;
  path = codes "a.go";
  line = 3;
  message = [];
  next_action = [];
  fingerprint = codes "f1";
}

abbrev clean : AnalysisResult
clean = record {
  runs = record { name = codes "semgrep"; available = true; num_findings = 1 } ∷ [];
  findings = sast_finding ∷ record sast_finding { category = vuln } ∷ [];
  skipped = false;
  skip_reason = [];
}

abbrev analysed : Stages
analysed = record { build = none; analysis = some clean }

abbrev built : Stages
built = record {
  build = some (record {
    skipped = false;
    skip_reason = [];
    build_ok = true;
    tests = record { passed = 4; failed = 0; skipped = 0; coverage_pct = 850 };
  });
  analysis = some clean;
}

abbrev small_inputs : Inputs
small_inputs = record {
  icr = record {
    symbols = [];
    files = codes "b.go" ∷ codes "a.go" ∷ codes "b.go" ∷ [];
    edges = 2;
    confidence = 900;
    hash = [];
  };
  build = built.build;
  analysis = built.analysis;
}

-- The file with a finding of low severity is the hotter one.
two_cells :
    map {B = Text × ℕ} (λ (c : Cell). (c.file, c.score)) (compute small_inputs).cells
    ≡ (codes "a.go", 15750) ∷ (codes "b.go", 8250) ∷ []
unfolding compute
two_cells = refl

compute_overall_example :
    (falls 100000 (compute small_inputs).cells ≡ true)
    × ((compute small_inputs).overall ≡ top (compute small_inputs).cells)
compute_overall_example = compute_overall small_inputs

two_files : touched_paths small_diff ≡ codes "a.go" ∷ codes "vendor/m.go" ∷ []
unfolding touched_paths before
two_files = refl

vendored : (evaluate_path analysed small_change options).message ≡ codes "1 path(s) match deny list"
unfolding evaluate_path before decimal
vendored = refl

evaluate_deps-allowed_iff_example :
    (is_allowed (evaluate_deps analysed small_change options).verdict ≡ true)
    ↔ ((s : AnalysisResult) × (analysed.analysis ≡ some s) × ((s.skipped ≡ true) ⊎ MinorOnly s))
evaluate_deps-allowed_iff_example = evaluate_deps-allowed_iff analysed small_change options

abbrev secrets_block : PolicyBlock Options
secrets_block = record { enabled = true; options = options }

abbrev secrets_config : RelayConfig Options
secrets_config = record {
  provasign_version = codes "1";
  stack = codes "go";
  policies = (codes "secrets", secrets_block) ∷ [];
}

abbrev analyse : ChangeSet → Option AnalysisResult
analyse cs = some clean

abbrev secrets_env : Env Options
secrets_env = record {
  registry = (codes "secrets", secrets_gate) ∷ [];
  config = some secrets_config;
  build = none;
  analysis = some analyse;
  build_gates = none;
  analysis_gates = none;
  compute_icr =
      λ cs. some (record { symbols = []; files = []; edges = 0; confidence = 1000; hash = [] });
  config_hash = λ cfg. some (codes "c");
  key_id = codes "k";
  sign = λ cert. some (codes "sig");
  admit = λ cs cert. committed (codes "sha1");
  change_set_id = codes "9";
  certificate_id = codes "7";
  now = 5;
  fails = λ call. false;
}

abbrev nothing_held : Stages
nothing_held = record { build = none; analysis = none }

abbrev outcome : Flow × Stages
outcome = certify_with secrets_env secrets_config nothing_held small_change

abbrev result_of : Flow → EngineResult
result_of (stop res err) = res
result_of (go_on res) = res
result_of (certified res cert) = res

abbrev secrets_certificate : Certificate
secrets_certificate = record {
  id = codes "cert-7";
  change_set_id = codes "cs-1";
  intent_id = codes "i-1";
  admitted_commit_sha = [];
  base_sha = codes "b0";
  icr = record { symbols = []; files = []; edges = 0; confidence = 1000; hash = [] };
  policies = (result_of outcome.0).policies;
  effective_config_hash = codes "c";
  policy_version = codes "v1";
  signed_by = codes "k";
  signature = codes "sig";
  created_at = 5;
}

certified_no_secrets_example :
    (s : AnalysisResult) × (analyse small_change ≡ some s) × (s.skipped ≡ false) × Free secret s
unfolding certify_with lookup text_eq sort_stable text_lt check member run_stages run_build
    run_analysis run_post_gates make_certificate analysis_policy_result evaluate_secrets
    is_post_stage
certified_no_secrets_example =
    certified_no_secrets secrets_env secrets_config small_change nothing_held (result_of outcome.0)
      secrets_certificate analysed secrets_block analyse refl refl refl refl refl refl
