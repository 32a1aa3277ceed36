-- ===== src/Provasign/Lifecycle.antt =====
-- provasign/internal/lifecycle/lifecycle.go, with the statements of db/store.go and
-- db/project_store.go that it executes and the connectors of integration/connector.go, and the
-- validation of ingestion/pipeline.go, which writes the same table without a guard. The table of
-- the intents is a map by identifier. A statement fails where `Env` says so; a connector's own error
-- is dropped by the code, so `comments` is what was posted.
pub mod Trail
pub mod Final
use Prim.Native.String.{String}
use grove_suite.Prelude.{
  ℕ, ◌≡◌, Bool, true, false, not, ◌&&◌, ◌||◌, if◌then◌else◌, any, List, [], ◌∷◌, ◌++◌, Option, none,
  some, is_empty, Text, codes, text_eq, Map, lookup, adjust, leb,
}

pub data IntentStatus : Type 0 where
  draft unrouted validating needs_info queued rejected : IntentStatus

pub data IntentSource : Type 0 where
  native jira github_issue github_projects linear : IntentSource

-- Times are instants; the score is in thousandths.
pub record Intent : Type 0 where
  pub id : Text
  pub project_id : Text
  pub description : Text
  pub domain : Text
  pub source : IntentSource
  pub source_ref : Text
  pub status : IntentStatus
  pub gs_score : ℕ
  pub icr_symbols : ℕ
  pub author : Text
  pub created_at : ℕ
  pub updated_at : ℕ
  pub approved_at : Option ℕ
  pub approved_by : Text
  pub rejected_at : Option ℕ
  pub rejected_by : Text
  pub rejection_note : Text

pub record IntentEvent : Type 0 where
  pub intent_id : Text
  pub kind : Text
  pub detail : Text
  pub actor : Text
  pub created_at : ℕ

pub record Comment : Type 0 where
  pub connector : IntentSource
  pub ref : Text
  pub message : Text

pub data IntentCall : Type 0 where
  get approve reject update_status update_gs append_event assign_project : IntentCall

pub data LifecycleError : Type 0 where
  get_error invalid_transition write_error event_error assign_error : LifecycleError

-- The clock is read once for each call.
pub record Env : Type 0 where
  pub fails : IntentCall → Bool
  pub has_connector : IntentSource → Bool
  pub now : ℕ

pub record Desk : Type 0 where
  pub intents : Map Intent
  pub events : List IntentEvent
  pub comments : List Comment

-- An error, which may be nil, and the new state.
abbrev pub Returns : Type 0
Returns = Option LifecycleError × Desk

abbrev pub status_eq : IntentStatus → IntentStatus → Bool
status_eq draft draft = true
status_eq unrouted unrouted = true
status_eq validating validating = true
status_eq needs_info needs_info = true
status_eq queued queued = true
status_eq rejected rejected = true
status_eq s t = false

-- The constants of an intent's status.
abbrev pub status_text : IntentStatus → Text
status_text draft = codes "draft"
status_text unrouted = codes "unrouted"
status_text validating = codes "validating"
status_text needs_info = codes "needs_info"
status_text queued = codes "queued"
status_text rejected = codes "rejected"

unfoldable pub valid_transitions : IntentStatus → List IntentStatus
valid_transitions draft = validating ∷ unrouted ∷ []
valid_transitions unrouted = validating ∷ []
valid_transitions validating = needs_info ∷ queued ∷ rejected ∷ []
valid_transitions needs_info = validating ∷ []
valid_transitions queued = []
valid_transitions rejected = []

unfoldable pub is_valid_transition : IntentStatus → IntentStatus → Bool
unfolding valid_transitions
is_valid_transition from to = any (status_eq to) (valid_transitions from)

abbrev is_native : IntentSource → Bool
is_native native = true
is_native s = false

unfoldable pub status_message : IntentStatus → Text → Text
status_message validating detail = codes "Relay: intent received and is being validated."
status_message needs_info detail = codes "Relay: " ++ detail
status_message queued detail = codes "Relay: intent approved and queued for execution."
status_message rejected detail =
    if is_empty detail
    then codes "Relay: intent rejected."
    else codes "Relay: intent rejected " ++ (226 ∷ 128 ∷ 148 ∷ 32 ∷ detail)
status_message draft detail = []
status_message unrouted detail = []

module _ (env : Env) where
  -- One statement: its effect, or a failure.
  abbrev pub exec : IntentCall → (Desk → Desk) → Desk → Option Desk
  exec call effect d = if env.fails call then none else some (effect d)

  unfoldable pub get_intent : Text → Desk → Option Intent
  get_intent id d = if env.fails get then none else lookup id d.intents

  abbrev pub update_intent : Text → (Intent → Intent) → Desk → Desk
  update_intent id f d = record d { intents = adjust id f d.intents }

  -- What `Approve`, `Reject` and `UpdateStatus` set.
  abbrev pub entered : IntentStatus → Text → Text → Intent → Intent
  entered queued actor detail i = record i {
    status = queued;
    approved_by = actor;
    approved_at = some env.now;
    updated_at = env.now;
  }
  entered rejected actor detail i = record i {
    status = rejected;
    rejected_by = actor;
    rejected_at = some env.now;
    rejection_note = detail;
    updated_at = env.now;
  }
  entered to actor detail i = record i { status = to; updated_at = env.now }

  abbrev pub write_call : IntentStatus → IntentCall
  write_call queued = approve
  write_call rejected = reject
  write_call to = update_status

  abbrev pub event_of : Text → IntentStatus → Text → Text → IntentEvent
  event_of id to actor detail = record {
    intent_id = id;
    kind = status_text to;
    detail = detail;
    actor = actor;
    created_at = env.now;
  }

  unfoldable pub post : Intent → Text → Desk → Desk
  post i message d =
      if not (is_empty i.source_ref) && not (is_native i.source) && env.has_connector i.source
      then record d {
        comments =
            d.comments
            ++ record { connector = i.source; ref = i.source_ref; message = message } ∷ [];
      }
      else d

  -- `postFeedback` under its test in `Transition`.
  unfoldable pub post_feedback : Intent → IntentStatus → Text → Desk → Desk
  unfolding post status_message
  post_feedback i to detail d =
      let message = status_message to detail in if is_empty message then d else post i message d

  -- `Transition` past its guards.
  unfoldable pub enter : Intent → Text → IntentStatus → Text → Text → Desk → Returns
  unfolding post_feedback
  enter i id to actor detail d =
      elim (exec (write_call to) (update_intent id (entered to actor detail)) d) [
        | none ↦ (some write_error, d)
        | some d₁ ↦
            elim (exec append_event
              (λ d. record d { events = d.events ++ event_of id to actor detail ∷ [] }) d₁) [
                | none ↦ (some event_error, d₁)
                | some d₂ ↦ (none, post_feedback i to detail d₂)
              ]
      ]

  unfoldable pub transition : Text → IntentStatus → Text → Text → Desk → Returns
  unfolding get_intent is_valid_transition enter
  transition id to actor detail d = elim (get_intent id d) [
    | none ↦ (some get_error, d)
    | some i ↦
        (if not (is_valid_transition i.status to)
          then (some invalid_transition, d)
          else enter i id to actor detail d)
  ]

  unfoldable pub submit_intent : Text → Text → Desk → Returns
  unfolding transition
  submit_intent id actor d = transition id validating actor (codes "submitted for validation") d

  unfoldable pub unroute : Text → Text → Desk → Returns
  unfolding transition
  unroute id actor d =
      transition id unrouted actor (codes "no project resolved; awaiting assignment") d

  unfoldable pub assign : Text → Text → Text → Desk → Returns
  unfolding transition
  assign id project actor d =
      elim (exec assign_project
        (update_intent id (λ i. record i { project_id = project; updated_at = env.now })) d) [
          | none ↦ (some assign_error, d)
          | some d₁ ↦ transition id validating actor (codes "project assigned: " ++ project) d₁
        ]

  unfoldable pub mark_needs_info : Text → Text → Desk → Returns
  unfolding transition get_intent post
  mark_needs_info id feedback d = elim (get_intent id d) [
    | none ↦ (some get_error, d)
    | some i ↦
        (let (err, d') = transition id needs_info (codes "system") feedback d in
          elim err [
            | some e ↦ (some e, d')
            | none ↦ (none, post i (codes "Relay: " ++ feedback) d')
          ])
  ]

-- What the scorer finds in a description.
pub record Score : Type 0 where
  pub value : ℕ
  pub icr_symbols : ℕ

-- `validate` of ingestion/pipeline.go: whether the score passes, or the error of a statement. The
-- scorer is a parameter. The time that `UpdateGS` takes from the database is the call's.
module _ (env : Env) where
  abbrev pub begun : Intent → Intent
  begun i = record i { status = validating; updated_at = env.now }

  abbrev pub scored : Score → Intent → Intent
  scored s i = record i { gs_score = s.value; icr_symbols = s.icr_symbols; updated_at = env.now }

  unfoldable pub validate : (Text → Score) → ℕ → Text → Text → Desk → Option Bool × Desk
  validate score threshold id description d =
      let result = score description in
      elim (exec env update_status (update_intent env id begun) d) [
        | none ↦ (none, d)
        | some d₁ ↦ elim (exec env update_gs (update_intent env id (scored result)) d₁) [
          | none ↦ (none, d₁)
          | some d₂ ↦ (some (leb threshold result.value), d₂)
        ]
      ]

-- The calls that the rest of the program makes.
pub data Call : Type 0 where
  transition_call : Text → IntentStatus → Text → Text → Call
  submit_call unroute_call : Text → Text → Call
  assign_call : Text → Text → Text → Call
  needs_info_call : Text → Text → Call
  validate_call : (Text → Score) → ℕ → Text → Text → Call

unfoldable pub run : Env → Call → Desk → Returns
unfolding transition submit_intent unroute assign mark_needs_info validate
run env (transition_call id to actor detail) d = transition env id to actor detail d
run env (submit_call id actor) d = submit_intent env id actor d
run env (unroute_call id actor) d = unroute env id actor d
run env (assign_call id project actor) d = assign env id project actor d
run env (needs_info_call id feedback) d = mark_needs_info env id feedback d
run env (validate_call score threshold id description) d =
    (none, (validate env score threshold id description d).1)

-- Calls one after another, each with what the outside does then; errors do not stop the program.
unfoldable pub run_all : List (Env × Call) → Desk → Desk
unfolding run
run_all [] d = d
run_all ((env, c) ∷ cs) d = run_all cs (run env c d).1

-- A validation comes when the intent is being validated: the callers validate after Submit or
-- Assign has put it there.
abbrev pub IsTimely : Call → Desk → Type 0
IsTimely (validate_call score threshold id description) d =
    (i : Intent) → lookup id d.intents ≡ some i → i.status ≡ validating
IsTimely c d = Unit

abbrev pub AllTimely : List (Env × Call) → Desk → Type 0
AllTimely [] d = Unit
AllTimely ((env, c) ∷ cs) d = IsTimely c d × AllTimely cs (run env c d).1
