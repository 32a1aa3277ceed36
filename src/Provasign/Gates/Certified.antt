-- ===== src/Provasign/Gates/Certified.antt =====
-- The gates under Certify of engine.go: what a certificate says of the analysis and the build.
use grove_suite.Prelude.{◌≡◌, sym, ◌∙◌, subst, true, false, Option, some, codes, lookup}
use grove_suite.Provasign.Data.{
  ChangeSet, PolicyBlock, RelayConfig, Certificate, AnalysisResult, secret, is_allowed,
}
use grove_suite.Provasign.Policy.{Stages, Gate}
use grove_suite.Provasign.Engine.{Env, EngineResult, certified, certify_with, is_post_stage}
use grove_suite.Provasign.Engine.Gates.{certified_gates, certify_with-Vouched, Analyzed}
use grove_suite.Provasign.Gates.{Options}
use grove_suite.Provasign.AnalysisGates.{secrets_gate}
use grove_suite.Provasign.AnalysisGates.Verdicts.{Free, evaluate_secrets-allowed_iff}

module _ (env : Env Options) (cfg : RelayConfig Options) (cs : ChangeSet) (held : Stages)
    (res : EngineResult) (cert : Certificate) (h : Stages) (block : PolicyBlock Options)
    (run : ChangeSet → Option AnalysisResult) where
  -- A gate of the registry that waits for the stages allowed the changeset on their results.
  post_gate :
      (g : Gate Options)
      → certify_with env cfg held cs ≡ (certified res cert, h)
      → lookup g.name cfg.policies ≡ some block
      → block.enabled ≡ true
      → lookup g.name env.registry ≡ some g
      → is_post_stage env g.name ≡ true
      → is_allowed (g.evaluate h cs block.options).verdict ≡ true
  post_gate g e l enabled registered post =
      let (g', there, a) = certified_gates env cfg cs held res cert h g.name block e l enabled in
      let same : g' ≡ g = cc (sym there ∙ registered) in
      subst (λ (k : Gate Options). is_allowed (k.evaluate h cs block.options).verdict ≡ true) same
        (rw post at a)

  -- Where the config enables the secrets gate, it is registered and waits for the stages, and an
  -- analysis is configured, every certificate is for a changeset of which that analysis gave a
  -- result that was not skipped and holds no secret.
  pub certified_no_secrets :
      certify_with env cfg held cs ≡ (certified res cert, h)
      → lookup (codes "secrets") cfg.policies ≡ some block
      → block.enabled ≡ true
      → lookup (codes "secrets") env.registry ≡ some secrets_gate
      → is_post_stage env (codes "secrets") ≡ true
      → env.analysis ≡ some run
      → (s : AnalysisResult) × (run cs ≡ some s) × (s.skipped ≡ false) × Free secret s
  certified_no_secrets e l enabled registered post configured =
      let v = (certify_with-Vouched env cfg cs held res cert h e).0 in
      let (s, ran, kept) = subst (λ a. Analyzed a cs h) configured v.analyzed in
      let (s', read, whole, free) =
        (evaluate_secrets-allowed_iff h cs block.options).0
          (post_gate secrets_gate e l enabled registered post) in
      (s', cc (ran, kept, read), whole, free)
