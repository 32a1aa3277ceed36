-- ===== src/Witnesses/Provasign.antt =====
-- The certification engine at concrete inputs.
use grove_suite.Prelude.{
  ◌≡◌, refl, true, false, [], ◌∷◌, Option, none, some, Text, codes, lookup, is_empty, ◌⊎◌, text_eq,
  text_lt, map, member, insert,
}
use grove_suite.Prelude.Sorts.{sort_stable}
use grove_suite.Provasign.Data.{
  ChangeSet, PolicyResult, PolicyBlock, allow, deny, is_allowed, RelayConfig, Certificate,
  BuildResult, build_result_ok,
}
use grove_suite.Provasign.Policy.{Stages, Gate, Registry, evaluate_all}
use grove_suite.Provasign.Policy.Complete.{evaluate_all_complete}
use grove_suite.Provasign.Engine.{
  Env, World, committed, unreported, Flow, certified, EngineResult, stop, go_on, run_build,
  run_stages, run_analysis, check, build_policy_result, make_certificate, submit_inserted,
  submit_flow, admit_certified, insert_change, run_post_gates, certify_with, submit,
}
use grove_suite.Provasign.Engine.Gates.{certified_gates, Vouched}
use grove_suite.Provasign.Engine.Submits.{submit_outcome, Refused, Stranded, Accepted}

abbrev changed : ChangeSet
changed = record {
  id = codes "cs-1";
  intent_id = codes "i-1";
  intent_brief = codes "add a test";
  repo_root = codes "/r";
  base_sha = codes "b0";
  diff = codes "+x";
  author = codes "a";
  agent_model = codes "m";
  status = none;
}

-- A gate that allows a diff which is not empty, and one that asks for a build.
abbrev size_gate : Gate Unit
size_gate = record {
  name = codes "size";
  evaluate = λ stages cs o. record {
    gate = codes "size";
    verdict = elim (is_empty cs.diff) [ true ↦ deny | false ↦ allow ];
    message = [];
    next_action = [];
  };
}

abbrev coverage_gate : Gate Unit
coverage_gate = record {
  name = codes "coverage";
  evaluate = λ stages cs o. record {
    gate = codes "coverage";
    verdict = elim stages.build [ none ↦ deny | some s ↦ allow ];
    message = [];
    next_action = [];
  };
}

abbrev gates : Registry Unit
gates = (codes "size", size_gate) ∷ (codes "coverage", coverage_gate) ∷ []

abbrev enabled_block : PolicyBlock Unit
enabled_block = record { enabled = true; options = tt }

abbrev relay : RelayConfig Unit
relay = record {
  provasign_version = codes "1";
  stack = codes "go";
  policies = (codes "coverage", enabled_block) ∷ (codes "size", enabled_block) ∷ [];
}

abbrev good_build : BuildResult
good_build = record {
  skipped = false;
  skip_reason = [];
  build_ok = true;
  tests = record { passed = 3; failed = 0; skipped = 0; coverage_pct = 800 };
}

abbrev no_stages : Stages
no_stages = record { build = none; analysis = none }

abbrev built : Stages
built = record { build = some good_build; analysis = none }

abbrev setup : Env Unit
setup = record {
  registry = gates;
  config = some relay;
  build = some (λ cs. some good_build);
  analysis = none;
  build_gates = none;
  analysis_gates = none;
  compute_icr = λ cs.
      some (record { symbols = []; files = []; edges = 0; confidence = 1000; hash = codes "h" });
  config_hash = λ cfg. some (codes "c");
  key_id = codes "k";
  sign = λ cert. some (codes "sig");
  admit = λ cs cert. committed (codes "sha1");
  change_set_id = codes "9";
  certificate_id = codes "7";
  now = 5;
  fails = λ call. false;
}

abbrev empty_world : World
empty_world = record { change_sets = []; certificates = []; branch = []; held = no_stages }

evaluate_all_complete_example :
    (g : Gate Unit) × (lookup (codes "coverage") gates ≡ some g)
    × (is_allowed (g.evaluate built changed tt).verdict ≡ true)
unfolding evaluate_all lookup text_eq sort_stable text_lt
evaluate_all_complete_example =
    evaluate_all_complete gates relay built changed (codes "coverage") enabled_block refl refl refl

abbrev result_in : Flow → EngineResult
result_in (stop res err) = res
result_in (go_on res) = res
result_in (certified res cert) = res

abbrev certificate_in : Flow → Option Certificate
certificate_in (certified res cert) = some cert
certificate_in (stop res err) = none
certificate_in (go_on res) = none

abbrev signed : Certificate
signed = record {
  id = codes "cert-7";
  change_set_id = codes "cs-1";
  intent_id = codes "i-1";
  admitted_commit_sha = [];
  base_sha = codes "b0";
  icr = record { symbols = []; files = []; edges = 0; confidence = 1000; hash = codes "h" };
  policies = (result_in (certify_with setup relay no_stages changed).0).policies;
  effective_config_hash = codes "c";
  policy_version = codes "v1";
  signed_by = codes "k";
  signature = codes "sig";
  created_at = 5;
}

three_results :
    map (λ (r : PolicyResult). r.gate) signed.policies
    ≡ codes "size" ∷ codes "build" ∷ codes "coverage" ∷ []
unfolding certify_with lookup text_eq sort_stable text_lt check member run_stages run_build
    build_result_ok run_analysis run_post_gates build_policy_result make_certificate
three_results = refl

certified_gates_example :
    (g : Gate Unit) × (lookup (codes "coverage") gates ≡ some g)
    × (is_allowed (g.evaluate built changed tt).verdict ≡ true)
unfolding certify_with lookup text_eq sort_stable text_lt check member run_stages run_build
    build_result_ok run_analysis run_post_gates build_policy_result make_certificate
certified_gates_example =
    certified_gates setup relay changed no_stages
      (result_in (certify_with setup relay no_stages changed).0) signed built (codes "coverage")
      enabled_block refl refl refl

submit_outcome_example :
    Refused (codes "cs-1") empty_world (submit setup changed empty_world)
    ⊎ ((cert : Certificate) × (sha : Text) × (h : Stages) × Vouched setup relay changed no_stages
          cert h
        × (committed (codes "sha1") ≡ unreported sha)
        × Stranded (codes "cs-1") empty_world sha (submit setup changed empty_world))
    ⊎ ((cert : Certificate) × (sha : Text) × (h : Stages) × Vouched setup relay changed no_stages
          cert h
        × (committed (codes "sha1") ≡ committed sha)
        × Accepted (codes "cs-1") empty_world cert sha (submit setup changed empty_world))
unfolding lookup
submit_outcome_example = submit_outcome setup (λ call. refl) relay changed empty_world refl refl

admitted_run : (submit setup changed empty_world).1.branch ≡ codes "sha1" ∷ []
unfolding submit submit_inserted submit_flow admit_certified insert insert_change certify_with
    lookup text_eq sort_stable text_lt check member run_stages run_build build_result_ok
    run_analysis run_post_gates build_policy_result make_certificate
admitted_run = refl
