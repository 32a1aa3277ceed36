-- ===== src/Witnesses/Lifecycle.antt =====
-- The lifecycle of intents at concrete inputs.
use grove_suite.Prelude.{
  ◌≡◌, ◌↔◌, refl, sym, ap, Option, true, false, List, [], ◌∷◌, none, some, codes, text_eq, lookup,
  adjust, Text,
}
use grove_suite.Provasign.Lifecycle.{
  Env, Intent, IntentStatus, validating, submit_intent, assign, get_intent, valid_transitions,
  enter, post_feedback, post, status_message, run, mark_needs_info, validate, IntentEvent, Score,
  validate_call, Desk, Call, draft, queued, jira, submit_call, transition_call, needs_info_call,
  assign_call, transition, is_valid_transition, run_all,
}
use grove_suite.Provasign.Lifecycle.Trail.{named_status, OnTrail, run_all-OnTrail}
use grove_suite.Provasign.Lifecycle.Final.{transition_iff, decision_final, Decided}

abbrev env_at_7 : Env
env_at_7 = record { fails = λ c. false; has_connector = λ s. true; now = 7 }

abbrev broken : Env
broken = record env_at_7 { fails = λ c. true }

abbrev drafted : Intent
drafted = record {
  id = codes "i1";
  project_id = [];
  description = codes "login";
  domain = [];
  source = jira;
  source_ref = codes "A-1";
  status = draft;
  gs_score = 0;
  icr_symbols = 0;
  author = codes "a";
  created_at = 1;
  updated_at = 1;
  approved_at = none;
  approved_by = [];
  rejected_at = none;
  rejected_by = [];
  rejection_note = [];
}

abbrev approved : Intent
approved = record drafted { status = queued; approved_at = some 5; approved_by = codes "b" }

abbrev created : IntentEvent
created = record {
  intent_id = codes "i1";
  kind = codes "created";
  detail = [];
  actor = codes "a";
  created_at = 1;
}

abbrev desk_of : Intent → Desk
desk_of i = record { intents = (codes "i1", i) ∷ []; events = created ∷ []; comments = [] }

abbrev full_score : Text → Score
full_score t = record { value = 900; icr_symbols = 3 }

abbrev calls : List (Env × Call)
calls =
    (env_at_7, submit_call (codes "i1") (codes "a"))
    ∷ (env_at_7, validate_call full_score 600 (codes "i1") (codes "login"))
    ∷ (env_at_7, assign_call (codes "i1") (codes "p") (codes "a"))
    ∷ (env_at_7, transition_call (codes "i1") queued (codes "b") [])
    ∷ []

abbrev later : List (Env × Call)
later =
    (env_at_7, assign_call (codes "i1") (codes "p") (codes "a"))
    ∷ (env_at_7, validate_call full_score 600 (codes "i2") (codes "logout"))
    ∷ []

abbrev status_in : Option Intent → IntentStatus
status_in none = validating
status_in (some i) = i.status

run_all-OnTrail_example : OnTrail draft (codes "i1") (run_all calls (desk_of drafted))
unfolding lookup text_eq run submit_intent assign transition get_intent is_valid_transition
    valid_transitions enter post_feedback post status_message adjust mark_needs_info validate
    named_status
run_all-OnTrail_example =
    run_all-OnTrail calls draft (codes "i1") (desk_of drafted)
      ((λ c. refl), ((λ c. refl), ((λ c. refl), ((λ c. refl), tt))))
      (tt, ((λ i e. ap status_in (sym e)), (tt, (tt, tt)))) (drafted, refl, refl)

transition_iff_example :
    ((transition env_at_7 (codes "i1") queued (codes "b") [] (desk_of drafted)).0 ≡ none) ↔ (
      (i : Intent) × (lookup (codes "i1") (desk_of drafted).intents ≡ some i)
      × (is_valid_transition i.status queued ≡ true))
transition_iff_example =
    transition_iff env_at_7 (codes "i1") queued (codes "b") [] (desk_of drafted) (λ c. refl)

decision_final_example :
    Decided approved
      (codes "i1")
      (run_all ((broken, needs_info_call (codes "i1") (codes "more")) ∷ later) (desk_of approved))
unfolding lookup text_eq
decision_final_example =
    decision_final ((broken, needs_info_call (codes "i1") (codes "more")) ∷ later) approved
      (codes "i1") (desk_of approved) (tt, (tt, (refl, tt))) refl refl
