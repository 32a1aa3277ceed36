-- ===== src/Provasign/Policy.antt =====
-- provasign/internal/policy/policy.go: the registry of gates and their evaluation. A gate is an
-- interface of the program: its verdict is a function of the stage results that the engine holds,
-- the changeset and its options.
pub mod Complete
use grove_suite.Prelude.{
  Bool, true, false, not, ◌&&◌, if◌then◌else◌, List, [], ◌∷◌, Option, none, some, all, Text, codes,
  text_lt, Map, lookup, insert,
}
use grove_suite.Prelude.Sorts.{sort_stable}
use grove_suite.Provasign.Data.{
  ChangeSet, PolicyResult, PolicyBlock, RelayConfig, BuildResult, AnalysisResult, deny, is_allowed,
}

-- What the stages have produced by the time a gate runs.
pub record Stages : Type 0 where
  pub build : Option BuildResult
  pub analysis : Option AnalysisResult

pub record Gate (O : Type 0) : Type 0 where
  pub name : Text
  pub evaluate : Stages → ChangeSet → O → PolicyResult

abbrev pub Registry : Type 0 → Type 0
Registry O = Map (Gate O)

abbrev pub unregistered : Text → PolicyResult
unregistered n = record {
  gate = n;
  verdict = deny;
  message = codes "gate enabled in config but not registered";
  next_action = [];
}

module _ {O : Type 0} where
  unfoldable pub register : Registry O → Gate O → Registry O
  unfolding insert
  register r g = insert g.name g r

  -- The enabled names that `include` takes, as the loop over the map collects them.
  unfoldable pub enabled_names : (Text → Bool) → Map (PolicyBlock O) → List Text
  enabled_names include [] = []
  enabled_names include ((n, block) ∷ m) =
      let rest = enabled_names include m in if block.enabled && include n then n ∷ rest else rest

  -- One name: the gate's verdict, or a denial where there is no such gate. The options are those
  -- of the config; the name comes from there, so they are found.
  unfoldable pub evaluate_one :
      Registry O → RelayConfig O → Stages → ChangeSet → Text → PolicyResult
  unfolding lookup
  evaluate_one reg cfg stages cs n = elim (lookup n reg) [
    | none ↦ unregistered n
    | some g ↦ elim (lookup n cfg.policies) [
      | none ↦ unregistered n
      | some block ↦ g.evaluate stages cs block.options
    ]
  ]

  unfoldable pub evaluate_names :
      Registry O → RelayConfig O → Stages → ChangeSet → List Text → List PolicyResult
  unfolding evaluate_one
  evaluate_names reg cfg stages cs [] = []
  evaluate_names reg cfg stages cs (n ∷ ns) =
      evaluate_one reg cfg stages cs n ∷ evaluate_names reg cfg stages cs ns

  unfoldable pub evaluate_all : Registry O → RelayConfig O → Stages → ChangeSet → List PolicyResult
  unfolding evaluate_names enabled_names
  evaluate_all reg cfg stages cs =
      evaluate_names reg cfg stages cs
        (sort_stable text_lt (enabled_names (λ n. true) cfg.policies))

abbrev pub allowed : List PolicyResult → Bool
allowed rs = all (λ r. is_allowed r.verdict) rs
