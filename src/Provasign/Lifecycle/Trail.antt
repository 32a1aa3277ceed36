-- ===== src/Provasign/Lifecycle/Trail.antt =====
-- The events of lifecycle.go: what an intent went through.
use grove_suite.Prelude.{
  ◌≡◌, refl, sym, ap, ◌∙◌, subst, ℕ, append_assoc, Bool, true, false, ◌&&◌, inl, inr, List, [], ◌∷◌,
  ◌++◌, append-nil, none, some, arith, if◌then◌else◌, Text, text_eq, text_eq_iff, lookup, adjust,
  lookup-adjust, Bool-cases, Option-cases, codes, All,
}
use grove_suite.Provasign.Lifecycle.{
  IntentStatus, Intent, IntentEvent, IntentCall, Env, Desk, Call, draft, unrouted, validating,
  needs_info, queued, rejected, get, append_event, assign_project, status_eq, is_valid_transition,
  status_text, Score, update_gs, update_status, validate, scored, begun, validate_call, IsTimely,
  AllTimely, get_intent, entered, write_call, event_of, update_intent, invalid_transition,
  get_error, post, post_feedback, enter, transition, submit_intent, unroute, assign,
  mark_needs_info, status_message, transition_call, submit_call, unroute_call, assign_call,
  needs_info_call, run, run_all,
}

-- The status that the type of an event names. "created" names none.
unfoldable pub named_status : Text → List IntentStatus
unfolding text_eq
named_status t =
    if text_eq t (codes "draft")
    then draft ∷ []
    else if text_eq t (codes "unrouted")
    then unrouted ∷ []
    else if text_eq t (codes "validating")
    then validating ∷ []
    else if text_eq t (codes "needs_info")
    then needs_info ∷ []
    else if text_eq t (codes "queued")
    then queued ∷ []
    else if text_eq t (codes "rejected")
    then rejected ∷ []
    else []

named_status_text : (s : IntentStatus) → named_status (status_text s) ≡ s ∷ []
unfolding named_status text_eq
named_status_text draft = refl
named_status_text unrouted = refl
named_status_text validating = refl
named_status_text needs_info = refl
named_status_text queued = refl
named_status_text rejected = refl

-- The statuses that the events of an intent name.
abbrev pub entered_of : Text → List IntentEvent → List IntentStatus
entered_of id [] = []
entered_of id (e ∷ es) =
    let rest = entered_of id es in
    if text_eq e.intent_id id then named_status e.kind ++ rest else rest

-- Whether the statuses lead from `s` to `t`, each one a valid transition away from the one before.
abbrev pub is_trail : IntentStatus → List IntentStatus → IntentStatus → Bool
is_trail s [] t = status_eq s t
is_trail s (x ∷ xs) t = is_valid_transition s x && is_trail x xs t

-- The intent is there, and its events lead from `s` to the status it has.
abbrev pub OnTrail : IntentStatus → Text → Desk → Type 0
OnTrail s id d =
    (i : Intent) × (lookup id d.intents ≡ some i)
    × (is_trail s (entered_of id d.events) i.status ≡ true)

abbrev pub Works : Env → Type 0
Works env = (c : IntentCall) → env.fails c ≡ false

status_eq_refl : (s : IntentStatus) → status_eq s s ≡ true
status_eq_refl draft = refl
status_eq_refl unrouted = refl
status_eq_refl validating = refl
status_eq_refl needs_info = refl
status_eq_refl queued = refl
status_eq_refl rejected = refl

status_eq_sound : (s t : IntentStatus) → status_eq s t ≡ true → s ≡ t
status_eq_sound s t e = ground (arith)

is_trail-snoc :
    (s t u : IntentStatus) (xs : List IntentStatus)
    → is_trail s xs t ≡ true
    → is_valid_transition t u ≡ true
    → is_trail s (xs ++ u ∷ []) u ≡ true
is_trail-snoc s t u [] e v = rw (status_eq_sound s t e, status_eq_refl u) (ground (arith, v))
is_trail-snoc s t u (x ∷ xs) e v = ground (arith, is_trail-snoc x t u xs)

entered_of-snoc :
    (id : Text) (e : IntentEvent) (es : List IntentEvent)
    → entered_of id (es ++ e ∷ [])
      ≡ entered_of id es ++ (if text_eq e.intent_id id then named_status e.kind else [])
entered_of-snoc id e [] = elim (Bool-cases (text_eq e.intent_id id)) [
  | inl h ↦ rw h (append-nil (named_status e.kind))
  | inr h ↦ rw h refl
]
entered_of-snoc id e (f ∷ es) = elim (Bool-cases (text_eq f.intent_id id)) [
  | inl h ↦
      rw (h, entered_of-snoc id e es)
        (sym (append_assoc (named_status f.kind) (entered_of id es) _))
  | inr h ↦ rw h (entered_of-snoc id e es)
]

pub entered-status :
    (env : Env) (to : IntentStatus) (actor detail : Text) (i : Intent)
    → (entered env to actor detail i).status ≡ to
entered-status env draft a d i = refl
entered-status env unrouted a d i = refl
entered-status env validating a d i = refl
entered-status env needs_info a d i = refl
entered-status env queued a d i = refl
entered-status env rejected a d i = refl

-- Comments are all that feedback changes.
abbrev pub Kept : Desk → Desk → Type 0
Kept d e = (e.intents ≡ d.intents) × (e.events ≡ d.events)

module _ (env : Env) where
  pub post-Kept : (i : Intent) (m : Text) (d : Desk) → Kept d (post env i m d)
  unfolding post
  post-Kept i m d = (ground (arith), ground (arith))

  pub post_feedback-Kept :
      (i : Intent) (to : IntentStatus) (detail : Text) (d : Desk)
      → Kept d (post_feedback env i to detail d)
  unfolding post_feedback
  post_feedback-Kept i to detail d = (
    ground (arith, (post-Kept i (status_message to detail) d).0),
    ground (arith, (post-Kept i (status_message to detail) d).1),
  )

  -- The tables once the intent has entered the status.
  abbrev pub moved : Text → IntentStatus → Text → Text → Desk → Desk
  moved id to actor detail d = record d {
    intents = adjust id (entered env to actor detail) d.intents;
    events = d.events ++ event_of env id to actor detail ∷ [];
  }

  OnTrail-Kept :
      (s : IntentStatus) (id : Text) (d e : Desk) → Kept d e → OnTrail s id d → OnTrail s id e
  OnTrail-Kept s id d e (k, l) (i, h, t) = (i, (ap (lookup id) k) ∙ h, rw l t)

  moved-OnTrail :
      (s to : IntentStatus) (id id' : Text) (actor detail : Text) (d : Desk) (j : Intent)
      → lookup id' d.intents ≡ some j
      → is_valid_transition j.status to ≡ true
      → OnTrail s id d
      → OnTrail s id (moved id' to actor detail d)
  moved-OnTrail s to id id' actor detail d j l v (i, h, t) = elim (Bool-cases (text_eq id' id)) [
    | inl same ↦ (
      entered env to actor detail i,
      lookup-adjust id' id (entered env to actor detail) d.intents ∙ rw (same, h) refl,
      rw
          (
            entered_of-snoc id (event_of env id' to actor detail) d.events,
            same,
            named_status_text to,
            entered-status env to actor detail i,
          )
          (is_trail-snoc s i.status to (entered_of id d.events) t
            (subst (λ k. is_valid_transition k.status to ≡ true) (same_intent same) v)),
    )
    | inr other ↦ (
      i,
      lookup-adjust id' id (entered env to actor detail) d.intents ∙ rw (other, h) refl,
      rw
          (
            entered_of-snoc id (event_of env id' to actor detail) d.events,
            other,
            append-nil (entered_of id d.events),
          )
          t,
    )
  ]
    where
      same_intent : text_eq id' id ≡ true → j ≡ i
      same_intent same = ground (arith, text_eq_iff id' id)

  module _ (works : Works env) where
    pub enter-works :
        (i : Intent) (id : Text) (to : IntentStatus) (actor detail : Text) (d : Desk)
        → enter env i id to actor detail d
          ≡ (none, post_feedback env i to detail (moved id to actor detail d))
    unfolding enter
    enter-works i id to actor detail d =
        rw (enter, works (write_call env to), works append_event) refl

    pub get_intent-works : (id : Text) (d : Desk) → get_intent env id d ≡ lookup id d.intents
    unfolding get_intent
    get_intent-works id d = rw (works get) refl

    pub transition-refused :
        (id : Text) (to : IntentStatus) (actor detail : Text) (d : Desk) (i : Intent)
        → lookup id d.intents ≡ some i
        → is_valid_transition i.status to ≡ false
        → transition env id to actor detail d ≡ (some invalid_transition, d)
    unfolding transition
    transition-refused id to actor detail d i l v =
        rw (transition, get_intent-works id d, l, v) refl

    pub transition-accepted :
        (id : Text) (to : IntentStatus) (actor detail : Text) (d : Desk) (i : Intent)
        → lookup id d.intents ≡ some i
        → is_valid_transition i.status to ≡ true
        → transition env id to actor detail d
          ≡ (none, post_feedback env i to detail (moved id to actor detail d))
    unfolding transition
    transition-accepted id to actor detail d i l v =
        rw (transition, get_intent-works id d, l, v) (enter-works i id to actor detail d)

    pub transition-missing :
        (id : Text) (to : IntentStatus) (actor detail : Text) (d : Desk)
        → lookup id d.intents ≡ none
        → transition env id to actor detail d ≡ (some get_error, d)
    unfolding transition
    transition-missing id to actor detail d l = rw (transition, get_intent-works id d, l) refl

    transition-OnTrail :
        (s to : IntentStatus) (id id' : Text) (actor detail : Text) (d : Desk)
        → OnTrail s id d
        → OnTrail s id (transition env id' to actor detail d).1
    transition-OnTrail s to id id' actor detail d o = elim (Option-cases (lookup id' d.intents)) [
      | inl missing ↦ rw (transition-missing id' to actor detail d missing) o
      | inr (j, l) ↦ elim (Bool-cases (is_valid_transition j.status to)) [
        | inl v ↦ rw (transition-accepted id' to actor detail d j l v) (
            OnTrail-Kept s id (moved id' to actor detail d)
              (post_feedback env j to detail (moved id' to actor detail d))
              (post_feedback-Kept j to detail (moved id' to actor detail d))
              (moved-OnTrail s to id id' actor detail d j l v o))
        | inr no_go ↦ rw (transition-refused id' to actor detail d j l no_go) o
      ]
    ]

    assigned : Text → Text → Desk → Desk
    assigned id project =
        update_intent env id (λ i. record i { project_id = project; updated_at = env.now })

    assigned-OnTrail :
        (s : IntentStatus) (id id' project : Text) (d : Desk)
        → OnTrail s id d
        → OnTrail s id (assigned id' project d)
    unfolding assigned
    assigned-OnTrail s id id' project d (i, h, t) =
        let f : Intent → Intent = λ i. record i { project_id = project; updated_at = env.now } in
        elim (Bool-cases (text_eq id' id)) [
          | inl same ↦ (f i, lookup-adjust id' id f d.intents ∙ rw (same, h) refl, t)
          | inr other ↦ (i, lookup-adjust id' id f d.intents ∙ rw (other, h) refl, t)
        ]

    assign-OnTrail :
        (s : IntentStatus) (id id' project actor : Text) (d : Desk)
        → OnTrail s id d
        → OnTrail s id (assign env id' project actor d).1
    unfolding assign assigned
    assign-OnTrail s id id' project actor d o =
        rw (assign, works assign_project)
          (transition-OnTrail s validating id id' actor (codes "project assigned: " ++ project)
            (assigned id' project d) (assigned-OnTrail s id id' project d o))

    mark_needs_info-OnTrail :
        (s : IntentStatus) (id id' feedback : Text) (d : Desk)
        → OnTrail s id d
        → OnTrail s id (mark_needs_info env id' feedback d).1
    unfolding mark_needs_info
    mark_needs_info-OnTrail s id id' feedback d o = elim (Option-cases (lookup id' d.intents)) [
      | inl missing ↦ rw (mark_needs_info, get_intent-works id' d, missing) o
      | inr (j, l) ↦
          (let p = transition env id' needs_info (codes "system") feedback d in
            let q = transition-OnTrail s needs_info id id' (codes "system") feedback d o in
            rw (mark_needs_info, get_intent-works id' d, l)
              (elim (Option-cases p.0) [
                | inl fine ↦ rw fine (
                    OnTrail-Kept s id p.1 (post env j (codes "Relay: " ++ feedback) p.1)
                      (post-Kept j (codes "Relay: " ++ feedback) p.1) q)
                | inr (e, bad) ↦ rw bad q
              ]))
    ]

    validate-OnTrail :
        (score : Text → Score) (threshold : ℕ) (s : IntentStatus) (id id' description : Text)
        (d : Desk)
        → ((i : Intent) → lookup id' d.intents ≡ some i → i.status ≡ validating)
        → OnTrail s id d
        → OnTrail s id (validate env score threshold id' description d).1
    unfolding validate
    validate-OnTrail score threshold s id id' description d timely (i, h, t) =
        let r = score description in
        rw (validate, works update_status, works update_gs)
          (elim (Bool-cases (text_eq id' id)) [
            | inl same ↦ (
              scored env r (begun env i),
              lookup-adjust id' id (scored env r) (adjust id' (begun env) d.intents)
                  ∙ rw (same, lookup-adjust id' id (begun env) d.intents, same, h) refl,
              subst (λ k. is_trail s (entered_of id d.events) k ≡ true)
                  (timely i (ground (arith, h, text_eq_iff id' id, same))) t,
            )
            | inr other ↦ (
              i,
              lookup-adjust id' id (scored env r) (adjust id' (begun env) d.intents)
                  ∙ rw (other, lookup-adjust id' id (begun env) d.intents, other, h) refl,
              t,
            )
          ])

    run-OnTrail :
        (c : Call) (s : IntentStatus) (id : Text) (d : Desk)
        → IsTimely c d
        → OnTrail s id d
        → OnTrail s id (run env c d).1
    unfolding run submit_intent unroute
    run-OnTrail (transition_call id' to actor detail) s id d m o =
        transition-OnTrail s to id id' actor detail d o
    run-OnTrail (submit_call id' actor) s id d m o =
        transition-OnTrail s validating id id' actor (codes "submitted for validation") d o
    run-OnTrail (unroute_call id' actor) s id d m o =
        transition-OnTrail s unrouted id id' actor
          (codes "no project resolved; awaiting assignment") d o
    run-OnTrail (assign_call id' project actor) s id d m o =
        assign-OnTrail s id id' project actor d o
    run-OnTrail (needs_info_call id' feedback) s id d m o =
        mark_needs_info-OnTrail s id id' feedback d o
    run-OnTrail (validate_call score threshold id' description) s id d m o =
        validate-OnTrail score threshold s id id' description d m o

-- Whatever calls the program makes while its statements succeed and a validation comes only when
-- the intent is being validated, the events of an intent that name a status remain a trail: if they
-- lead from the status `s` to the intent's status by valid transitions before the calls, they do so
-- after them, and the intent is still there.
pub run_all-OnTrail :
    (cs : List (Env × Call)) (s : IntentStatus) (id : Text) (d : Desk)
    → All (λ c. Works c.0) cs
    → AllTimely cs d
    → OnTrail s id d
    → OnTrail s id (run_all cs d)
unfolding run_all
run_all-OnTrail [] s id d w m o = o
run_all-OnTrail ((env, c) ∷ cs) s id d (w, ws) (m, ms) o =
    run_all-OnTrail cs s id (run env c d).1 ws ms (run-OnTrail env w c s id d m o)
