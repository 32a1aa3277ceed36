-- ===== src/Provasign/Engine/Submits.antt =====
-- Submit of engine.go: what a submission leaves in the store and on the branch.
use grove_suite.Prelude.{
  ◌≡◌, ◌⊎◌, refl, ◌∙◌, false, inl, inr, [], ◌∷◌, ◌++◌, none, some, Text, text_eq_refl, lookup,
  insert, lookup-insert,
}
use grove_suite.Provasign.Data.{
  ChangeSet, ChangeSetStatus, admitted, rejected, RelayConfig, Certificate,
}
use grove_suite.Provasign.Policy.{Stages}
use grove_suite.Provasign.Engine.{
  Env, EngineResult, Flow, stop, go_on, certified, Returns, World, StoreCall, admit_error,
  Admission, declined, unreported, committed, insert_change_set, insert_certificate, mark_admitted,
  mark_rejected, admit_certified, submit_flow, submit_inserted, insert_change, submit, named,
  certify_with, status_or_submitted, reject,
}
use grove_suite.Provasign.Engine.Gates.{Vouched, certify_with-Vouched}

-- The submission was turned down: nothing was committed or certified.
abbrev pub Refused : Text → World → Returns × World → Type 0
Refused id w r =
    (lookup id r.1.change_sets ≡ some rejected)
    × (r.1.branch ≡ w.branch)
    × (r.1.certificates ≡ w.certificates)

-- The submission was turned down with an error, but its commit `sha` stands on the branch.
abbrev pub Stranded : Text → World → Text → Returns × World → Type 0
Stranded id w sha r =
    (lookup id r.1.change_sets ≡ some rejected)
    × (r.1.branch ≡ w.branch ++ sha ∷ [])
    × (r.1.certificates ≡ w.certificates)
    × (r.0.1 ≡ some admit_error)

-- The submission was admitted under the certificate `cert` as the commit `sha`.
abbrev pub Accepted : Text → World → Certificate → Text → Returns × World → Type 0
Accepted id w cert sha r =
    (lookup id r.1.change_sets ≡ some admitted)
    × (r.1.branch ≡ w.branch ++ sha ∷ [])
    × (r.1.certificates ≡ w.certificates ++ record cert { admitted_commit_sha = sha } ∷ [])
    × (r.0.1 ≡ none)

Admission-cases :
    (a : Admission)
    → (a ≡ declined) ⊎ ((sha : Text) × (a ≡ unreported sha)) ⊎ ((sha : Text) × (a ≡ committed sha))
Admission-cases declined = inl refl
Admission-cases (unreported sha) = inr (inl (sha, refl))
Admission-cases (committed sha) = inr (inr (sha, refl))

module _ {O : Type 0} (env : Env O) (works : (c : StoreCall) → env.fails c ≡ false) where
  reject-Refused :
      (id : Text) (old : ChangeSetStatus) (r : Returns) (w : World)
      → lookup id w.change_sets ≡ some old
      → Refused id w (reject env id r w)
  reject-Refused id old r w h =
      rw (works mark_rejected, h)
        (lookup-insert id id rejected w.change_sets ∙ (rw (text_eq_refl id)), refl, refl)

  admit_certified-outcome :
      (cs : ChangeSet) (old : ChangeSetStatus) (res : EngineResult) (cert : Certificate) (w : World)
      → lookup cs.id w.change_sets ≡ some old
      → Refused cs.id w (admit_certified env cs res cert w)
        ⊎ ((sha : Text) × (env.admit cs cert ≡ unreported sha)
            × Stranded cs.id w sha (admit_certified env cs res cert w))
        ⊎ ((sha : Text) × (env.admit cs cert ≡ committed sha)
            × Accepted cs.id w cert sha (admit_certified env cs res cert w))
  unfolding admit_certified
  admit_certified-outcome cs old res cert w h = elim (Admission-cases (env.admit cs cert)) [
    | inl refused ↦
        rw (refused, admit_certified)
          (inl (reject-Refused cs.id old (some res, some admit_error) w h))
    | inr (inl (sha, lost)) ↦ inr (
        inl (
          sha,
          lost,
          rw (lost, admit_certified, works mark_rejected, h)
              (
                lookup-insert cs.id cs.id rejected w.change_sets ∙ (rw (text_eq_refl cs.id)),
                refl,
                refl,
                refl,
              ),
        ))
    | inr (inr (sha, done)) ↦ inr (
        inr (
          sha,
          done,
          rw (done, admit_certified, works insert_certificate, works mark_admitted, h)
              (
                lookup-insert cs.id cs.id admitted w.change_sets ∙ (rw (text_eq_refl cs.id)),
                refl,
                refl,
                refl,
              ),
        ))
  ]

  submit_flow-outcome :
      (cfg : RelayConfig O) (cs : ChangeSet) (old : ChangeSetStatus) (held h : Stages) (flow : Flow)
      (w : World)
      → lookup cs.id w.change_sets ≡ some old
      → certify_with env cfg held cs ≡ (flow, h)
      → Refused cs.id w (submit_flow env cs flow w)
        ⊎ ((cert : Certificate) × (sha : Text) × Vouched env cfg cs held cert h
            × (env.admit cs cert ≡ unreported sha)
            × Stranded cs.id w sha (submit_flow env cs flow w))
        ⊎ ((cert : Certificate) × (sha : Text) × Vouched env cfg cs held cert h
            × (env.admit cs cert ≡ committed sha)
            × Accepted cs.id w cert sha (submit_flow env cs flow w))
  unfolding submit_flow
  submit_flow-outcome cfg cs old held h (stop res err) w l e =
      inl (reject-Refused cs.id old (some res, err) w l)
  submit_flow-outcome cfg cs old held h (go_on res) w l e =
      inl (reject-Refused cs.id old (some res, none) w l)
  submit_flow-outcome cfg cs old held h (certified res cert) w l e =
      let v = (certify_with-Vouched env cfg cs held res cert h e).0 in
      elim (admit_certified-outcome cs old res cert w l) [
        | inl r ↦ inl r
        | inr (inl (sha, lost, a)) ↦ inr (inl (cert, sha, v, lost, a))
        | inr (inr (sha, done, a)) ↦ inr (inr (cert, sha, v, done, a))
      ]

  submit_inserted-certifies :
      (cfg : RelayConfig O) (cs : ChangeSet) (w : World)
      → env.config ≡ some cfg
      → let p = certify_with env cfg w.held cs in
        submit_inserted env cs w ≡ submit_flow env cs p.0 (record w { held = p.1 })
  unfolding submit_inserted
  submit_inserted-certifies cfg cs w c = rw c refl

  submit_inserted-outcome :
      (cfg : RelayConfig O) (cs : ChangeSet) (old : ChangeSetStatus) (w : World)
      → env.config ≡ some cfg
      → lookup cs.id w.change_sets ≡ some old
      → Refused cs.id w (submit_inserted env cs w)
        ⊎ ((cert : Certificate) × (sha : Text) × (h : Stages) × Vouched env cfg cs w.held cert h
            × (env.admit cs cert ≡ unreported sha)
            × Stranded cs.id w sha (submit_inserted env cs w))
        ⊎ ((cert : Certificate) × (sha : Text) × (h : Stages) × Vouched env cfg cs w.held cert h
            × (env.admit cs cert ≡ committed sha)
            × Accepted cs.id w cert sha (submit_inserted env cs w))
  submit_inserted-outcome cfg cs old w c l =
      let p = certify_with env cfg w.held cs in
      rw (submit_inserted-certifies cfg cs w c)
        (elim (submit_flow-outcome cfg cs old w.held p.1 p.0 (record w { held = p.1 }) l refl) [
          | inl r ↦ inl r
          | inr (inl (cert, sha, v, lost, a)) ↦ inr (inl (cert, sha, p.1, v, lost, a))
          | inr (inr (cert, sha, v, done, a)) ↦ inr (inr (cert, sha, p.1, v, done, a))
        ])

  inserted : ChangeSet → World → World
  inserted cs w = record w {
    change_sets = insert cs.id (status_or_submitted env cs.status) w.change_sets;
  }

  insert_change-fresh :
      (cs : ChangeSet) (w : World)
      → lookup cs.id w.change_sets ≡ none
      → insert_change env cs w ≡ some (inserted cs w)
  unfolding insert_change inserted
  insert_change-fresh cs w fresh = rw (works insert_change_set, fresh) refl

  submit-inserted :
      (cs : ChangeSet) (w : World)
      → lookup (named env cs).id w.change_sets ≡ none
      → submit env cs w ≡ submit_inserted env (named env cs) (inserted (named env cs) w)
  unfolding submit
  submit-inserted cs w fresh = rw (submit, insert_change-fresh (named env cs) w fresh) refl

  lookup-inserted :
      (cs : ChangeSet) (w : World)
      → lookup cs.id (inserted cs w).change_sets ≡ some (status_or_submitted env cs.status)
  unfolding inserted
  lookup-inserted cs w =
      lookup-insert cs.id cs.id (status_or_submitted env cs.status) w.change_sets
      ∙ (rw (text_eq_refl cs.id))

  -- With a config, a store that works and a changeset whose identifier is new, Submit does one of
  -- three things. It refuses: the changeset is marked rejected, and branch and certificates are as
  -- before. Or, where the admitter commits and then fails, the changeset is marked rejected with an
  -- error, its commit stands on the branch, no certificate is stored, and the commit was made for a
  -- certificate like the one of the third case. Or it admits: there is a certificate whose listed results are all allowed, behind which
  -- the build, if one is configured, succeeded; the commit of the admitter for it is appended to
  -- the branch, the certificate with this commit to the certificates, the changeset is marked
  -- admitted, and there is no error.
  pub submit_outcome :
      (cfg : RelayConfig O) (cs : ChangeSet) (w : World)
      → env.config ≡ some cfg
      → lookup (named env cs).id w.change_sets ≡ none
      → let cs' = named env cs in
        Refused cs'.id w (submit env cs w)
        ⊎ ((cert : Certificate) × (sha : Text) × (h : Stages) × Vouched env cfg cs' w.held cert h
            × (env.admit cs' cert ≡ unreported sha)
            × Stranded cs'.id w sha (submit env cs w))
        ⊎ ((cert : Certificate) × (sha : Text) × (h : Stages) × Vouched env cfg cs' w.held cert h
            × (env.admit cs' cert ≡ committed sha)
            × Accepted cs'.id w cert sha (submit env cs w))
  unfolding inserted
  submit_outcome cfg cs w c fresh = rw (submit-inserted cs w fresh) (
      submit_inserted-outcome cfg (named env cs) _ (inserted (named env cs) w) c
        (lookup-inserted (named env cs) w))
