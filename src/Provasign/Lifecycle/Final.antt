-- ===== src/Provasign/Lifecycle/Final.antt =====
-- The guards of lifecycle.go: when a transition succeeds, and what a decision leaves open.
use grove_suite.Prelude.{
  All, ℕ, ◌≡◌, ◌⊎◌, ◌↔◌, refl, ap, ◌∙◌, Bool, true, false, inl, inr, List, [], ◌∷◌, ◌++◌, Option,
  none, some, arith, Text, text_eq, text_eq_iff, lookup, lookup-adjust, Bool-cases, Option-cases,
  codes,
}
use grove_suite.Provasign.Lifecycle.{
  IntentStatus, Intent, Env, Desk, Call, draft, unrouted, validating, needs_info, queued, rejected,
  append_event, assign_project, update_gs, update_status, Score, validate, scored, begun,
  validate_call, valid_transitions, is_valid_transition, get_intent, entered, write_call,
  update_intent, post, enter, transition, submit_intent, unroute, assign, mark_needs_info,
  transition_call, submit_call, unroute_call, assign_call, needs_info_call, run, run_all,
}
use grove_suite.Provasign.Lifecycle.Trail.{
  Works, post-Kept, post_feedback-Kept, moved, transition-missing, transition-refused,
  transition-accepted,
}

-- While the statements succeed, Transition succeeds exactly where the intent exists and the new
-- status is a valid one after its own.
pub transition_iff :
    (env : Env) (id : Text) (to : IntentStatus) (actor detail : Text) (d : Desk)
    → Works env
    → ((transition env id to actor detail d).0 ≡ none)
      ↔ ((i : Intent) × (lookup id d.intents ≡ some i) × (is_valid_transition i.status to ≡ true))
transition_iff env id to actor detail d works = elim (Option-cases (lookup id d.intents)) [
  | inl missing ↦ (
    λ e. absurd (ground (arith, transition-missing env works id to actor detail d missing)),
    λ (i, l, v). absurd (ground (arith, missing)),
  )
  | inr (i, l) ↦ elim (Bool-cases (is_valid_transition i.status to)) [
    | inl v ↦ (
      λ e. (i, l, v),
      λ h. ap (λ r. r.0) (transition-accepted env works id to actor detail d i l v),
    )
    | inr no_go ↦ (
      λ e. absurd (ground (arith, transition-refused env works id to actor detail d i l no_go)),
      λ (j, m, v). absurd (ground (arith, l, no_go)),
    )
  ]
]

abbrev pub is_decided : IntentStatus → Bool
is_decided queued = true
is_decided rejected = true
is_decided s = false

decided_final : (s to : IntentStatus) → is_decided s ≡ true → is_valid_transition s to ≡ false
unfolding is_valid_transition valid_transitions
decided_final queued to e = refl
decided_final rejected to e = refl
decided_final draft to e = cc
decided_final unrouted to e = cc
decided_final validating to e = cc
decided_final needs_info to e = cc

-- The status, who approved and when, who rejected, when and why.
abbrev pub decision : Intent → IntentStatus × Option ℕ × Text × Option ℕ × Text × Text
decision i =
    (i.status, i.approved_at, i.approved_by, i.rejected_at, i.rejected_by, i.rejection_note)

abbrev pub Decided : Intent → Text → Desk → Type 0
Decided i id d = (j : Intent) × (lookup id d.intents ≡ some j) × (decision j ≡ decision i)

-- The call is no validation of the intent.
abbrev pub Spares : Text → Call → Type 0
Spares id (validate_call score threshold id' description) = text_eq id' id ≡ false
Spares id c = Unit

Decided-lookup :
    (i : Intent) (id : Text) (d e : Desk)
    → lookup id e.intents ≡ lookup id d.intents
    → Decided i id d
    → Decided i id e
Decided-lookup i id d e k (j, l, same) = (j, k ∙ l, same)

module _ (env : Env) where
  lookup-enter :
      (i : Intent) (id id' : Text) (to : IntentStatus) (actor detail : Text) (d : Desk)
      → text_eq id' id ≡ false
      → lookup id (enter env i id' to actor detail d).1.intents ≡ lookup id d.intents
  unfolding enter
  lookup-enter i id id' to actor detail d other =
      let same = lookup-adjust id' id (entered env to actor detail) d.intents ∙ rw other refl in
      elim (Bool-cases (env.fails (write_call env to))) [
        | inl bad ↦ rw (enter, bad) refl
        | inr fine ↦ elim (Bool-cases (env.fails append_event)) [
          | inl bad ↦ rw (enter, fine, bad) same
          | inr good ↦
              rw (enter, fine, good)
                (ap (lookup id)
                    (post_feedback-Kept env i to detail (moved env id' to actor detail d)).0
                  ∙ same)
        ]
      ]

  lookup-get_intent :
      (id : Text) (d : Desk) (i : Intent)
      → get_intent env id d ≡ some i
      → lookup id d.intents ≡ some i
  unfolding get_intent
  lookup-get_intent id d i e = ground (arith)

  transition-Decided :
      (i : Intent) (to : IntentStatus) (id id' : Text) (actor detail : Text) (d : Desk)
      → is_decided i.status ≡ true
      → Decided i id d
      → Decided i id (transition env id' to actor detail d).1
  unfolding transition
  transition-Decided i to id id' actor detail d f (k, l, same) =
      elim (Option-cases (get_intent env id' d)) [
        | inl missing ↦ rw (transition, missing) (k, l, same)
        | inr (j, there) ↦ elim (Bool-cases (is_valid_transition j.status to)) [
          | inr no_go ↦ rw (transition, there, no_go) (k, l, same)
          | inl v ↦
              rw (transition, there, v)
                (Decided-lookup i id d (enter env j id' to actor detail d).1
                  (lookup-enter j id id' to actor detail d (apart j there v)) (k, l, same))
        ]
      ]
    where
      apart :
          (j : Intent)
          → get_intent env id' d ≡ some j
          → is_valid_transition j.status to ≡ true
          → text_eq id' id ≡ false
      apart j there v = ground (
        arith,
        text_eq_iff id' id,
        lookup-get_intent id' d j there,
        decided_final i.status to f,
        ap (λ p. p.0) same,
      )

  assign-Decided :
      (i : Intent) (id id' project actor : Text) (d : Desk)
      → is_decided i.status ≡ true
      → Decided i id d
      → Decided i id (assign env id' project actor d).1
  unfolding assign
  assign-Decided i id id' project actor d f (k, l, same) =
      elim (Bool-cases (env.fails assign_project)) [
        | inl bad ↦ rw (assign, bad) (k, l, same)
        | inr fine ↦
            rw (assign, fine)
              (transition-Decided i validating id id' actor (codes "project assigned: " ++ project)
                (update_intent env id' f' d) f (moved_project (Bool-cases (text_eq id' id))))
      ]
    where
      f' : Intent → Intent
      f' i = record i { project_id = project; updated_at = env.now }

      moved_project :
          (text_eq id' id ≡ true) ⊎ (text_eq id' id ≡ false)
          → Decided i id (update_intent env id' f' d)
      moved_project (inl eq) = (f' k, lookup-adjust id' id f' d.intents ∙ rw (eq, l) refl, same)
      moved_project (inr ne) = (k, lookup-adjust id' id f' d.intents ∙ rw (ne, l) refl, same)

  mark_needs_info-Decided :
      (i : Intent) (id id' feedback : Text) (d : Desk)
      → is_decided i.status ≡ true
      → Decided i id d
      → Decided i id (mark_needs_info env id' feedback d).1
  unfolding mark_needs_info
  mark_needs_info-Decided i id id' feedback d f o = elim (Option-cases (get_intent env id' d)) [
    | inl missing ↦ rw (mark_needs_info, missing) o
    | inr (j, there) ↦
        (let p = transition env id' needs_info (codes "system") feedback d in
          let q = transition-Decided i needs_info id id' (codes "system") feedback d f o in
          rw (mark_needs_info, there)
            (elim (Option-cases p.0) [
              | inl fine ↦ rw fine (
                  Decided-lookup i id p.1 (post env j (codes "Relay: " ++ feedback) p.1)
                    (ap (lookup id) (post-Kept env j (codes "Relay: " ++ feedback) p.1).0) q)
              | inr (e, bad) ↦ rw bad q
            ]))
  ]

  begun-Decided :
      (i : Intent) (id id' : Text) (d : Desk)
      → text_eq id' id ≡ false
      → (f : Intent → Intent) → Decided i id d
      → Decided i id (update_intent env id' f d)
  begun-Decided i id id' d other f (k, l, same) =
      (k, lookup-adjust id' id f d.intents ∙ rw (other, l) refl, same)

  validate-Decided :
      (score : Text → Score) (threshold : ℕ) (i : Intent) (id id' description : Text) (d : Desk)
      → text_eq id' id ≡ false
      → Decided i id d
      → Decided i id (validate env score threshold id' description d).1
  unfolding validate
  validate-Decided score threshold i id id' description d apart (k, l, same) =
      let once = begun-Decided i id id' d apart (begun env) (k, l, same) in
      elim (Bool-cases (env.fails update_status)) [
        | inl bad ↦ rw (validate, bad) (k, l, same)
        | inr fine ↦ elim (Bool-cases (env.fails update_gs)) [
          | inl bad ↦ rw (validate, fine, bad) once
          | inr good ↦
              rw (validate, fine, good)
                (begun-Decided i id id' (update_intent env id' (begun env) d) apart
                  (scored env (score description)) once)
        ]
      ]

  run-Decided :
      (c : Call) (i : Intent) (id : Text) (d : Desk)
      → Spares id c
      → is_decided i.status ≡ true
      → Decided i id d
      → Decided i id (run env c d).1
  unfolding run submit_intent unroute
  run-Decided (transition_call id' to actor detail) i id d m f o =
      transition-Decided i to id id' actor detail d f o
  run-Decided (submit_call id' actor) i id d m f o =
      transition-Decided i validating id id' actor (codes "submitted for validation") d f o
  run-Decided (unroute_call id' actor) i id d m f o =
      transition-Decided i unrouted id id' actor (codes "no project resolved; awaiting assignment")
        d f o
  run-Decided (assign_call id' project actor) i id d m f o =
      assign-Decided i id id' project actor d f o
  run-Decided (needs_info_call id' feedback) i id d m f o =
      mark_needs_info-Decided i id id' feedback d f o
  run-Decided (validate_call score threshold id' description) i id d m f o =
      validate-Decided score threshold i id id' description d m o

run_all-Decided :
    (cs : List (Env × Call)) (i : Intent) (id : Text) (d : Desk)
    → All (λ c. Spares id c.1) cs
    → is_decided i.status ≡ true
    → Decided i id d
    → Decided i id (run_all cs d)
unfolding run_all
run_all-Decided [] i id d m f o = o
run_all-Decided ((env, c) ∷ cs) i id d (m, ms) f o =
    run_all-Decided cs i id (run env c d).1 ms f (run-Decided env c i id d m f o)

-- Once an intent is queued or rejected, no calls other than a validation of that intent, whichever
-- of their statements fail, change that decision: its status, who approved or rejected it, when,
-- and the note.
pub decision_final :
    (cs : List (Env × Call)) (i : Intent) (id : Text) (d : Desk)
    → All (λ c. Spares id c.1) cs
    → lookup id d.intents ≡ some i
    → is_decided i.status ≡ true
    → Decided i id (run_all cs d)
decision_final cs i id d m l f = run_all-Decided cs i id d m f (i, l, refl)
