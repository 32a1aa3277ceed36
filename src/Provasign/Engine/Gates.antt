-- ===== src/Provasign/Engine/Gates.antt =====
-- Certify of engine.go: what stands behind a signed certificate.
use grove_suite.Prelude.{
  ◌≡◌, refl, subst, sym, ap, ap₂, ◌∙◌, Bool, true, not, ◌&&◌, inl, inr, List, [], ◌∷◌, ◌++◌,
  append_assoc, append-nil, Option, none, some, arith, if◌then◌else◌, Text, lookup, Bool-cases,
  Option-cases,
}
use grove_suite.Provasign.Data.{
  ChangeSet, PolicyResult, PolicyBlock, RelayConfig, Certificate, BuildResult, AnalysisResult,
  build_result_ok, is_allowed,
}
use grove_suite.Provasign.Policy.{Stages, Gate, enabled_names, allowed}
use grove_suite.Provasign.Policy.Complete.{
  member-sort_stable, member-enabled_names, allowed-evaluate_names, evaluate_one-allowed,
}
use grove_suite.Provasign.Engine.{
  Env, EngineResult, Flow, stop, go_on, certified, and_then, is_post_stage, evaluate_filtered,
  check, run_build, run_analysis, run_post_gates, make_certificate, certify_with, run_stages,
  after_build, after_analysis, build_policy_result, analysis_policy_result,
}

allowed-append : (xs ys : List PolicyResult) → allowed (xs ++ ys) ≡ (allowed xs && allowed ys)
allowed-append [] ys = refl
allowed-append (x ∷ xs) ys = ground (arith, allowed-append xs ys)

-- The build is not configured, or ran and succeeded (or was skipped).
abbrev pub Built : Option (ChangeSet → Option BuildResult) → ChangeSet → Type 0
Built none cs = Unit
Built (some run) cs = (s : BuildResult) × (run cs ≡ some s) × (build_result_ok s ≡ true)

-- The engine holds what the analysis of this changeset gave.
abbrev pub Analyzed : Option (ChangeSet → Option AnalysisResult) → ChangeSet → Stages → Type 0
Analyzed none cs held = held.analysis ≡ none
Analyzed (some run) cs held = (s : AnalysisResult) × (run cs ≡ some s) × (held.analysis ≡ some s)

-- A stage that goes on adds results; it makes no certificate.
abbrev Adds : EngineResult → Flow → Type 0
Adds res (stop r e) = Unit
Adds res (go_on r) = (mid : List PolicyResult) × (r.policies ≡ res.policies ++ mid)
Adds res (certified r c) = ⊥

after_build-Adds :
    (res : EngineResult) (held : Stages) (o : Option BuildResult)
    → Adds res (after_build res held o).0
unfolding after_build
after_build-Adds res held none = tt
after_build-Adds res held (some s) = elim (Bool-cases (build_result_ok s)) [
  | inl h ↦ rw h (build_policy_result s ∷ [], refl)
  | inr h ↦ rw h tt
]

run_build-Adds :
    (b : Option (ChangeSet → Option BuildResult)) (cs : ChangeSet) (res : EngineResult)
    (held : Stages)
    → Adds res (run_build b cs res held).0
unfolding run_build
run_build-Adds none cs res held = ([], sym (append-nil res.policies))
run_build-Adds (some run) cs res held = after_build-Adds res held (run cs)

run_build-Built :
    (b : Option (ChangeSet → Option BuildResult)) (cs : ChangeSet) (res r : EngineResult)
    (held g : Stages)
    → run_build b cs res held ≡ (go_on r, g)
    → Built b cs
unfolding run_build
run_build-Built none cs res r held g e = tt
run_build-Built (some run) cs res r held g e = elim (Option-cases (run cs)) [
  | inl h ↦ absurd (ground (arith, h))
  | inr (s, h) ↦ (s, h, ground (arith, h))
]

run_analysis-Adds :
    (b : Option (ChangeSet → Option AnalysisResult)) (cs : ChangeSet) (res : EngineResult)
    (held : Stages)
    → Adds res (run_analysis b cs res held).0
unfolding run_analysis after_analysis
run_analysis-Adds none cs res held = ([], sym (append-nil res.policies))
run_analysis-Adds (some run) cs res held = go (run cs)
  where
    go : (o : Option AnalysisResult) → Adds res (after_analysis res held o).0
    go none = tt
    go (some s) = (analysis_policy_result s ∷ [], refl)

run_analysis-Analyzed :
    (b : Option (ChangeSet → Option AnalysisResult)) (cs : ChangeSet) (res r : EngineResult)
    (held g : Stages)
    → run_analysis b cs res held ≡ (go_on r, g)
    → Analyzed b cs g
unfolding run_analysis after_analysis
run_analysis-Analyzed none cs res r held g e = ap (λ p. p.1.analysis) (sym e)
run_analysis-Analyzed (some run) cs res r held g e = elim (Option-cases (run cs)) [
  | inl h ↦ absurd (ground (arith, h))
  | inr (s, h) ↦ (s, h, ground (arith, h))
]

-- What a stage that cannot certify hands on, when the whole does.
go_on-of_Adds :
    (p : Flow × Stages) (k : EngineResult → Stages → Flow × Stages) (start : EngineResult)
    (res : EngineResult) (cert : Certificate) (h : Stages)
    → Adds start p.0
    → and_then p k ≡ (certified res cert, h)
    → (r : EngineResult) × (g : Stages) × (mid : List PolicyResult) × (p ≡ (go_on r, g))
      × (r.policies ≡ start.policies ++ mid)
      × (k r g ≡ (certified res cert, h))
go_on-of_Adds (stop r e, g) k start res cert h a eq = cc
go_on-of_Adds (go_on r, g) k start res cert h a eq = (r, g, a.0, refl, a.1, eq)
go_on-of_Adds (certified r c, g) k start res cert h a eq = absurd a

module _ {O : Type 0} (env : Env O) (cfg : RelayConfig O) (cs : ChangeSet) where
  abbrev pre_results : Stages → List PolicyResult
  pre_results held = evaluate_filtered env.registry held cs cfg (λ n. not (is_post_stage env n))

  abbrev post_results : Stages → List PolicyResult
  post_results held = evaluate_filtered env.registry held cs cfg (is_post_stage env)

  run_post_gates-go_on :
      (res r : EngineResult) (held g : Stages)
      → run_post_gates env cfg cs res held ≡ (go_on r, g)
      → (r.policies ≡ res.policies ++ post_results held)
        × (g ≡ held)
        × (allowed r.policies ≡ true)
        × (r.is_allowed ≡ true)
  unfolding run_post_gates
  run_post_gates-go_on res r held g e = ground arith

  run_post_gates-not_certified :
      (res r : EngineResult) (held g : Stages) (cert : Certificate)
      → ¬ (run_post_gates env cfg cs res held ≡ (certified r cert, g))
  unfolding run_post_gates
  run_post_gates-not_certified res r held g cert e = ground arith

  make_certificate-certified :
      (res r : EngineResult) (held g : Stages) (cert : Certificate)
      → make_certificate env cfg cs res held ≡ (certified r cert, g)
      → (cert.policies ≡ res.policies)
        × (cert.change_set_id ≡ cs.id)
        × (r.is_allowed ≡ res.is_allowed)
        × (g ≡ held)
  unfolding make_certificate
  make_certificate-certified res r held g cert e = ground arith

  -- What a signed certificate stands for: it lists the results of the gates that run before the
  -- stages, of the stages and of the gates that run after them, and all are allowed.
  pub record Vouched (held : Stages) (cert : Certificate) (h : Stages) : Type 0 where
    pub mid : List PolicyResult
    pub listed : cert.policies ≡ (pre_results held ++ mid) ++ post_results h
    pub all_allowed : allowed cert.policies ≡ true
    pub built : Built env.build cs
    pub analyzed : Analyzed env.analysis cs h
    pub of_change : cert.change_set_id ≡ cs.id

  run_post_gates-Adds :
      (res : EngineResult) (held : Stages) → Adds res (run_post_gates env cfg cs res held).0
  unfolding run_post_gates
  run_post_gates-Adds res held = elim (Bool-cases (allowed (res.policies ++ post_results held))) [
    | inl h ↦ rw h (post_results held, refl)
    | inr h ↦ rw h tt
  ]

  check-policies : (held : Stages) → (check env held cfg cs).policies ≡ pre_results held
  unfolding check
  check-policies held = refl

  run_stages-Vouched :
      (held : Stages) (res : EngineResult) (cert : Certificate) (h : Stages)
      → run_stages env cfg cs (check env held cfg cs) held ≡ (certified res cert, h)
      → Vouched held cert h × (res.is_allowed ≡ true)
  unfolding run_stages
  run_stages-Vouched held res cert h e =
      let start = check env held cfg cs in
      let (r₁, g₁, mid₁, e₁, p₁, f₁) =
        go_on-of_Adds (run_build env.build cs start held) _ start res cert h
          (run_build-Adds env.build cs start held) e in
      let (r₂, g₂, mid₂, e₂, p₂, f₂) =
        go_on-of_Adds (run_analysis env.analysis cs r₁ g₁) _ r₁ res cert h
          (run_analysis-Adds env.analysis cs r₁ g₁) f₁ in
      let (r₃, g₃, mid₃, e₃, p₃, f₃) =
        go_on-of_Adds (run_post_gates env cfg cs r₂ g₂) _ r₂ res cert h (run_post_gates-Adds r₂ g₂)
          f₂ in
      let q = run_post_gates-go_on r₂ r₃ g₂ g₃ e₃ in
      let c = make_certificate-certified r₃ res g₃ h cert f₃ in
      (
        record {
          mid = mid₁ ++ mid₂;
          listed =
              c.0
              ∙ q.0
              ∙ ap₂ (λ xs g. xs ++ post_results g)
                  (p₂
                    ∙ ap (λ xs. xs ++ mid₂) (p₁ ∙ ap (λ xs. xs ++ mid₁) (check-policies held))
                    ∙ append_assoc (pre_results held) mid₁ mid₂)
                  (sym (c.3 ∙ q.1));
          all_allowed = ap allowed c.0 ∙ q.2;
          analyzed =
              subst (Analyzed env.analysis cs) (sym (c.3 ∙ q.1))
                (run_analysis-Analyzed env.analysis cs r₁ r₂ g₁ g₂ e₂);
          built = run_build-Built env.build cs start r₁ held g₁ e₁;
          of_change = c.1;
        },
        c.2 ∙ q.3,
      )

  pub certify_with-Vouched :
      (held : Stages) (res : EngineResult) (cert : Certificate) (h : Stages)
      → certify_with env cfg held cs ≡ (certified res cert, h)
      → Vouched held cert h × (res.is_allowed ≡ true)
  unfolding certify_with
  certify_with-Vouched held res cert h e = elim (Bool-cases (check env held cfg cs).is_allowed) [
    | inl fine ↦ run_stages-Vouched held res cert h (ground (arith, fine))
    | inr no_go ↦ absurd (ground (arith, no_go))
  ]

  filtered_gate :
      (include : Text → Bool) (held : Stages) (n : Text) (block : PolicyBlock O)
      → lookup n cfg.policies ≡ some block
      → block.enabled ≡ true
      → include n ≡ true
      → allowed (evaluate_filtered env.registry held cs cfg include) ≡ true
      → (g : Gate O) × (lookup n env.registry ≡ some g)
        × (is_allowed (g.evaluate held cs block.options).verdict ≡ true)
  unfolding evaluate_filtered
  filtered_gate include held n block l e i a =
      evaluate_one-allowed env.registry cfg held cs n block l (
        allowed-evaluate_names env.registry cfg held cs _ n a (
          member-sort_stable n (enabled_names include cfg.policies)
          ∙ member-enabled_names include cfg.policies n block l e i))

  -- Behind every certificate that Certify signs stands every gate that the config enables: it is
  -- registered, and it allowed the changeset, on the stage results at hand before the stages ran
  -- or, if it is a gate that waits for the stages, on the results that they gave.
  pub certified_gates :
      (held : Stages) (res : EngineResult) (cert : Certificate) (h : Stages) (n : Text)
      (block : PolicyBlock O)
      → certify_with env cfg held cs ≡ (certified res cert, h)
      → lookup n cfg.policies ≡ some block
      → block.enabled ≡ true
      → (g : Gate O) × (lookup n env.registry ≡ some g)
        × (is_allowed
              (g.evaluate (if is_post_stage env n then h else held) cs block.options).verdict
            ≡ true)
  certified_gates held res cert h n block e l enabled =
      let v = (certify_with-Vouched held res cert h e).0 in
      let both : (allowed (pre_results held) ≡ true) × (allowed (post_results h) ≡ true) = ground (
        arith,
        v.listed,
        v.all_allowed,
        allowed-append (pre_results held ++ v.mid) (post_results h),
        allowed-append (pre_results held) v.mid,
      ) in
      elim (Bool-cases (is_post_stage env n)) [
        | inl post ↦ rw post (filtered_gate (is_post_stage env) h n block l enabled post both.1)
        | inr pre ↦
            rw pre (
              filtered_gate (λ k. not (is_post_stage env k)) held n block l enabled (rw pre) both.0)
      ]
