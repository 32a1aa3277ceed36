-- ===== src/Provasign/Engine.antt =====
-- provasign/internal/engine/engine.go: Check, Certify and Submit. The runners, the ICR provider, the
-- signer, the admitter, the clock, the identifiers and the config's hash are the fields of `Env`,
-- where `none` is an error; a database call fails where `Env` says so. The store holds the status of
-- each changeset and the certificates; `branch` is what the admitter has committed. The admitter of
-- admission/admission.go can commit and then fail to read the commit's name.
pub mod Gates
pub mod Submits
use Prim.Native.String.{String}
use grove_suite.Prelude.{
  length, keep_if, ℕ, ◌+◌, Bool, true, false, not, ◌&&◌, ◌||◌, if◌then◌else◌, List, [], ◌∷◌, ◌++◌,
  Option, none, some, is_empty, ltb, ◌==◌, Text, codes, text_lt, text_eq, Map, lookup, insert,
  member,
}
use grove_suite.Prelude.Sorts.{sort_stable}
use grove_suite.Prelude.Strings.{decimal, decimal_tenths}
use grove_suite.Provasign.Data.{
  ChangeSet, ChangeSetStatus, submitted, admitted, rejected, PolicyResult, allow, deny, Icr,
  Certificate, RelayConfig, BuildResult, build_result_ok, AnalysisResult, AnalyzerRun,
}
use grove_suite.Provasign.Policy.{Stages, Gate, Registry, enabled_names, evaluate_names, allowed}

pub data EngineError : Type 0 where
  no_config build_error analysis_error icr_error hash_error sign_error admit_error : EngineError
  insert_error persist_error mark_error : EngineError

-- The calls of the store that a submission makes.
pub data StoreCall : Type 0 where
  insert_change_set insert_certificate mark_admitted mark_rejected : StoreCall

-- What the admitter did: no commit and an error, a commit and an error, or a commit and its name.
pub data Admission : Type 0 where
  declined : Admission
  unreported : Text → Admission
  committed : Text → Admission

pub record Env (O : Type 0) : Type 0 where
  pub registry : Registry O
  pub config : Option (RelayConfig O)
  pub build : Option (ChangeSet → Option BuildResult)
  pub analysis : Option (ChangeSet → Option AnalysisResult)
  pub build_gates : Option (List Text)
  pub analysis_gates : Option (List Text)
  pub compute_icr : ChangeSet → Option Icr
  pub config_hash : RelayConfig O → Option Text
  pub key_id : Text
  pub sign : Certificate → Option Text
  pub admit : ChangeSet → Certificate → Admission
  pub change_set_id : Text
  pub certificate_id : Text
  pub now : ℕ
  pub fails : StoreCall → Bool

-- `engine.Result`.
pub record EngineResult : Type 0 where
  pub policies : List PolicyResult
  pub icr : Option Icr
  pub build : Option BuildResult
  pub analysis : Option AnalysisResult
  pub certificate : Option Certificate
  pub commit_sha : Text
  pub is_allowed : Bool

-- A result, which may be nil, and an error, which may be nil.
abbrev pub Returns : Type 0
Returns = Option EngineResult × Option EngineError

abbrev or_default : Option (List Text) → List Text → List Text
or_default none d = d
or_default (some ns) d = ns

module _ {O : Type 0} where
  -- `postStageGateSet`, as a test.
  unfoldable pub is_post_stage : Env O → Text → Bool
  is_post_stage env n =
      member n (or_default env.build_gates (codes "coverage" ∷ []))
      || member n
          (or_default env.analysis_gates (codes "secrets" ∷ codes "fileclass" ∷ codes "deps" ∷ []))

  unfoldable pub evaluate_filtered :
      Registry O → Stages → ChangeSet → RelayConfig O → (Text → Bool) → List PolicyResult
  unfolding enabled_names evaluate_names
  evaluate_filtered reg stages cs cfg include =
      evaluate_names reg cfg stages cs (sort_stable text_lt (enabled_names include cfg.policies))

abbrev gate_result : String → Text → Text → PolicyResult
gate_result gate message next = record {
  gate = codes gate;
  verdict = allow;
  message = message;
  next_action = next;
}

unfoldable pub build_policy_result : BuildResult → PolicyResult
unfolding build_result_ok
build_policy_result s =
    if s.skipped
    then gate_result "build" (codes "build skipped: " ++ s.skip_reason) []
    else if build_result_ok s
    then gate_result "build"
        (codes "build ok, "
          ++ (decimal s.tests.passed
              ++ (codes " passed / "
                  ++ (decimal s.tests.failed
                      ++ (codes " failed / "
                          ++ (decimal s.tests.skipped
                              ++ (codes " skipped, coverage "
                                  ++ (decimal_tenths s.tests.coverage_pct ++ codes "%"))))))))
        []
    else record (gate_result "build"
        (if not s.build_ok
          then codes "build failed"
          else if ltb 0 s.tests.failed
          then decimal s.tests.failed ++ codes " test failure(s)"
          else if s.tests.passed == 0
          then codes "no tests executed"
          else codes "build failed")
        (codes "fix build or test failures and re-submit")) { verdict = deny }

abbrev sum_findings : List AnalyzerRun → ℕ
sum_findings [] = 0
sum_findings (r ∷ rs) = (if r.available then r.num_findings else 0) + sum_findings rs

unfoldable pub analysis_policy_result : AnalysisResult → PolicyResult
analysis_policy_result s =
    let available = length (keep_if (λ (r : AnalyzerRun). r.available) s.runs) in
    let unavailable = length (keep_if (λ (r : AnalyzerRun). not r.available) s.runs) in
    gate_result "analysis"
      (if s.skipped
        then codes "analysis skipped: " ++ s.skip_reason
        else codes "analysis: "
          ++ (decimal available
              ++ (codes " analyzer(s) ran, "
                  ++ (decimal unavailable
                      ++ (codes " unavailable, "
                          ++ (decimal (sum_findings s.runs) ++ codes " total finding(s)"))))))
      []

abbrev pub initial : EngineResult
initial = record {
  policies = [];
  icr = none;
  build = none;
  analysis = none;
  certificate = none;
  commit_sha = [];
  is_allowed = false;
}

-- Whether a stage of `Certify` returns, goes on, or has the signed certificate.
pub data Flow : Type 0 where
  stop : EngineResult → Option EngineError → Flow
  go_on : EngineResult → Flow
  certified : EngineResult → Certificate → Flow

-- The next stage, from the result so far and the stage results that the engine holds.
abbrev pub and_then : Flow × Stages → (EngineResult → Stages → Flow × Stages) → Flow × Stages
and_then (stop res err, held) k = (stop res err, held)
and_then (go_on res, held) k = k res held
and_then (certified res cert, held) k = (certified res cert, held)

-- The build stage on the runner's outcome.
unfoldable pub after_build : EngineResult → Stages → Option BuildResult → Flow × Stages
after_build res held none = (stop res (some build_error), record held { build = none })
after_build res held (some s) =
    let policies = res.policies ++ build_policy_result s ∷ [] in
    (
      if build_result_ok s
          then go_on (record res { build = some s; policies = policies })
          else stop (record res { build = some s; policies = policies; is_allowed = false }) none,
      record held { build = some s },
    )

unfoldable pub run_build :
    Option (ChangeSet → Option BuildResult) → ChangeSet → EngineResult → Stages → Flow × Stages
unfolding after_build
run_build none cs res held = (go_on res, record held { build = none })
run_build (some run) cs res held = after_build res held (run cs)

-- The analysis stage on the runner's outcome.
unfoldable pub after_analysis : EngineResult → Stages → Option AnalysisResult → Flow × Stages
after_analysis res held none = (stop res (some analysis_error), record held { analysis = none })
after_analysis res held (some s) = (
  go_on
      (record res { analysis = some s; policies = res.policies ++ analysis_policy_result s ∷ [] }),
  record held { analysis = some s },
)

unfoldable pub run_analysis :
    Option (ChangeSet → Option AnalysisResult) → ChangeSet → EngineResult → Stages → Flow × Stages
unfolding after_analysis
run_analysis none cs res held = (go_on res, record held { analysis = none })
run_analysis (some run) cs res held = after_analysis res held (run cs)

module _ {O : Type 0} (env : Env O) where
  -- `Check`, with the stage results that the engine still holds from an earlier call.
  unfoldable pub check : Stages → RelayConfig O → ChangeSet → EngineResult
  unfolding evaluate_filtered is_post_stage
  check held cfg cs =
      let results = evaluate_filtered env.registry held cs cfg (λ n. not (is_post_stage env n)) in
      record initial { policies = results; is_allowed = allowed results }

  unfoldable pub run_post_gates : RelayConfig O → ChangeSet → EngineResult → Stages → Flow × Stages
  unfolding evaluate_filtered is_post_stage
  run_post_gates cfg cs res held =
      let policies =
        res.policies ++ evaluate_filtered env.registry held cs cfg (is_post_stage env) in
      let res' = record res { policies = policies; is_allowed = allowed policies } in
      (if allowed policies then go_on res' else stop res' none, held)

  abbrev pub draft_certificate : ChangeSet → EngineResult → Icr → Text → Certificate
  draft_certificate cs res icr hash = record {
    id = codes "cert-" ++ env.certificate_id;
    change_set_id = cs.id;
    intent_id = cs.intent_id;
    admitted_commit_sha = [];
    base_sha = cs.base_sha;
    icr = icr;
    policies = res.policies;
    effective_config_hash = hash;
    policy_version = codes "v1";
    signed_by = env.key_id;
    signature = [];
    created_at = env.now;
  }

  unfoldable pub make_certificate :
      RelayConfig O → ChangeSet → EngineResult → Stages → Flow × Stages
  make_certificate cfg cs res held = elim (env.compute_icr cs) [
    | none ↦ (stop res (some icr_error), held)
    | some icr ↦
        (let res' = record res { icr = some icr } in
          elim (env.config_hash cfg) [
            | none ↦ (stop res' (some hash_error), held)
            | some hash ↦
                (let draft = draft_certificate cs res' icr hash in
                  elim (env.sign draft) [
                    | none ↦ (stop res' (some sign_error), held)
                    | some sig ↦
                        (let cert = record draft { signature = sig } in
                          (certified (record res' { certificate = some cert }) cert, held))
                  ])
          ])
  ]

  -- `Certify` past the gates that run before the stages.
  unfoldable pub run_stages : RelayConfig O → ChangeSet → EngineResult → Stages → Flow × Stages
  run_stages cfg cs res held = and_then (run_build env.build cs res held) λ res held.
      and_then (run_analysis env.analysis cs res held) λ res held.
        and_then (run_post_gates cfg cs res held) λ res held. make_certificate cfg cs res held

  -- `Certify` past the test that there is a config.
  unfoldable pub certify_with : RelayConfig O → Stages → ChangeSet → Flow × Stages
  certify_with cfg held cs =
      let res = check held cfg cs in
      if not res.is_allowed then (stop res none, held) else run_stages cfg cs res held

  abbrev pub returns : Flow → Returns
  returns (stop res err) = (some res, err)
  returns (go_on res) = (some res, none)
  returns (certified res cert) = (some res, none)

  unfoldable pub certify : Stages → ChangeSet → Returns × Stages
  unfolding certify_with
  certify held cs = elim env.config [
    | none ↦ ((none, some no_config), held)
    | some cfg ↦ (let (flow, held') = certify_with cfg held cs in (returns flow, held'))
  ]

-- The store, the branch and the stage results that the engine holds.
pub record World : Type 0 where
  pub change_sets : Map ChangeSetStatus
  pub certificates : List Certificate
  pub branch : List Text
  pub held : Stages

module _ {O : Type 0} (env : Env O) where
  -- `UpdateChangeSetStatus`: the new world, and whether the call succeeded.
  abbrev pub mark : StoreCall → Text → ChangeSetStatus → World → World × Bool
  mark call id status w = if env.fails call then (w, false) else elim (lookup id w.change_sets) [
    | none ↦ (w, false)
    | some old ↦ (record w { change_sets = insert id status w.change_sets }, true)
  ]

  -- The error of marking is dropped here.
  abbrev pub reject : Text → Returns → World → Returns × World
  reject id r w = (r, (mark mark_rejected id rejected w).0)

  abbrev pub status_or_submitted : Option ChangeSetStatus → ChangeSetStatus
  status_or_submitted none = submitted
  status_or_submitted (some s) = s

  unfoldable pub insert_change : ChangeSet → World → Option World
  insert_change cs w =
      if env.fails insert_change_set then none else elim (lookup cs.id w.change_sets) [
        | some old ↦ none
        | none ↦
            some (record w {
              change_sets = insert cs.id (status_or_submitted cs.status) w.change_sets;
            })
      ]

  unfoldable pub admit_certified : ChangeSet → EngineResult → Certificate → World → Returns × World
  unfolding insert lookup
  admit_certified cs res cert w = elim (env.admit cs cert) [
    | declined ↦ reject cs.id (some res, some admit_error) w
    | unreported sha ↦
        reject cs.id (some res, some admit_error) (record w { branch = w.branch ++ sha ∷ [] })
    | committed sha ↦
        (let cert' = record cert { admitted_commit_sha = sha } in
          let res' = record res { certificate = some cert'; commit_sha = sha } in
          let w₁ = record w { branch = w.branch ++ sha ∷ [] } in
          let w₂ = record w₁ { certificates = w.certificates ++ cert' ∷ [] } in
          let (w₃, marked) = mark mark_admitted cs.id admitted w₂ in
          if env.fails insert_certificate
          then ((some res', some persist_error), w₁)
          else if marked
          then ((some res', none), w₃)
          else ((some res', some mark_error), w₃))
  ]

  -- `Submit` past the insertion, on what `Certify` gave.
  unfoldable pub submit_flow : ChangeSet → Flow → World → Returns × World
  unfolding admit_certified
  submit_flow cs (stop res err) w = reject cs.id (some res, err) w
  submit_flow cs (go_on res) w = reject cs.id (some res, none) w
  submit_flow cs (certified res cert) w = admit_certified cs res cert w

  abbrev pub named : ChangeSet → ChangeSet
  named cs = if is_empty cs.id then record cs { id = codes "cs-" ++ env.change_set_id } else cs

  -- `Submit` past the insertion.
  unfoldable pub submit_inserted : ChangeSet → World → Returns × World
  unfolding submit_flow
  submit_inserted cs w = elim env.config [
    | none ↦ reject cs.id (none, some no_config) w
    | some cfg ↦
        (let (flow, held) = certify_with env cfg w.held cs in
          submit_flow cs flow (record w { held = held }))
  ]

  unfoldable pub submit : ChangeSet → World → Returns × World
  unfolding insert_change submit_inserted
  submit cs w =
      let cs' = named cs in
      elim (insert_change cs' w) [
        | none ↦ ((none, some insert_error), w)
        | some w' ↦ submit_inserted cs' w'
      ]
