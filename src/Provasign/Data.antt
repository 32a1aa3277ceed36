-- ===== src/Provasign/Data.antt =====
-- provasign/internal/core/engine_types.go, cert/types.go and cert/findings.go: what the stages of
-- the pipeline hand on. Durations, raw outputs, the evidence maps Details and Extra and the unsigned
-- Payload of a certificate are left out: nothing of the pipeline reads them.
use grove_suite.Prelude.{
  ℕ, Bool, true, false, ◌&&◌, ◌==◌, ltb, if◌then◌else◌, List, Option, Text, Map,
}

pub data ChangeSetStatus : Type 0 where
  submitted checked certified admitted rejected : ChangeSetStatus

-- A status that is empty is `none`.
pub record ChangeSet : Type 0 where
  pub id : Text
  pub intent_id : Text
  pub intent_brief : Text
  pub repo_root : Text
  pub base_sha : Text
  pub diff : Text
  pub author : Text
  pub agent_model : Text
  pub status : Option ChangeSetStatus

pub data PolicyVerdict : Type 0 where
  allow warn review_required deny : PolicyVerdict

pub record PolicyResult : Type 0 where
  pub gate : Text
  pub verdict : PolicyVerdict
  pub message : Text
  pub next_action : Text

abbrev pub is_allowed : PolicyVerdict → Bool
is_allowed allow = true
is_allowed warn = true
is_allowed review_required = false
is_allowed deny = false

-- The confidence of an ICR is a fraction of a thousand.
pub record Icr : Type 0 where
  pub symbols : List Text
  pub files : List Text
  pub edges : ℕ
  pub confidence : ℕ
  pub hash : Text

pub record Certificate : Type 0 where
  pub id : Text
  pub change_set_id : Text
  pub intent_id : Text
  pub admitted_commit_sha : Text
  pub base_sha : Text
  pub icr : Icr
  pub policies : List PolicyResult
  pub effective_config_hash : Text
  pub policy_version : Text
  pub signed_by : Text
  pub signature : Text
  pub created_at : ℕ

-- The raw options of a gate, which each gate decides how to read.
pub record PolicyBlock (O : Type 0) : Type 0 where
  pub enabled : Bool
  pub options : O

pub record RelayConfig (O : Type 0) : Type 0 where
  pub provasign_version : Text
  pub stack : Text
  pub policies : Map (PolicyBlock O)

-- The coverage is in tenths of a percent.
pub record TestRun : Type 0 where
  pub passed : ℕ
  pub failed : ℕ
  pub skipped : ℕ
  pub coverage_pct : ℕ

pub record BuildResult : Type 0 where
  pub skipped : Bool
  pub skip_reason : Text
  pub build_ok : Bool
  pub tests : TestRun

unfoldable pub tests_ok : TestRun → Bool
tests_ok r = (r.failed == 0) && ltb 0 r.passed

unfoldable pub build_result_ok : BuildResult → Bool
unfolding tests_ok
build_result_ok s = if s.skipped then true else s.build_ok && tests_ok s.tests

pub record AnalyzerRun : Type 0 where
  pub name : Text
  pub available : Bool
  pub num_findings : ℕ

pub data Severity : Type 0 where
  info low medium high critical : Severity

pub data FindingCategory : Type 0 where
  secret sast vuln fileclass infrastructure_error : FindingCategory

-- Columns, schema and the analyzer's own extra data are left out: nothing of the pipeline reads them.
pub record Finding : Type 0 where
  pub analyzer : Text
  pub category : FindingCategory
  pub rule_id : Text
  pub severity : Severity
  pub path : Text
  pub line : ℕ
  pub message : Text
  pub next_action : Text
  pub fingerprint : Text

pub record AnalysisResult : Type 0 where
  pub runs : List AnalyzerRun
  pub findings : List Finding
  pub skipped : Bool
  pub skip_reason : Text
