-- ===== src/Provasign/Routing.antt =====
-- provasign/internal/routing/router.go, with the records of core/types.go that it reads. The two
-- queries of the database are parameters: `find` is `none` where the query fails, and `project` where
-- it fails or finds no project.
pub mod Targets
use Prim.Native.String.{String}
use grove_suite.Prelude.{
  Bool, true, false, not, ◌&&◌, ◌||◌, if◌then◌else◌, Option, none, some, List, [], ◌∷◌, is_empty,
  keep_if, any, Text, codes, text_eq, has_prefix,
}
use grove_suite.Prelude.Strings.{to_lower, trim_prefix}

pub record TicketData : Type 0 where
  pub labels : List Text
  pub relay_project_hint : Text
  pub component : Text

pub record IntegrationConfig : Type 0 where
  pub component_filter : Text
  pub relay_project_label_prefix : Text
  pub component_label : Text
  pub auto_approve : Bool

pub record ProjectIntegration : Type 0 where
  pub project_id : Text
  pub config : IntegrationConfig

pub record Project : Type 0 where
  pub id : Text
  pub name : Text
  pub auto_approve : Bool

pub record RouteResult : Type 0 where
  pub project_id : Text
  pub auto_approve : Bool
  pub unrouted : Bool

pub record Router : Type 0 where
  pub find : Text → Text → Option (List ProjectIntegration)
  pub project : Text → Option Project

-- What Route returns: an error, nothing for a board that is not registered, or a result.
pub data Outcome : Type 0 where
  failed unregistered : Outcome
  resolved : RouteResult → Outcome

-- `strings.EqualFold`.
unfoldable pub equal_fold : Text → Text → Bool
unfolding to_lower text_eq
equal_fold s t = text_eq (to_lower s) (to_lower t)

-- The first prefix that is configured.
abbrev pub label_prefix : List ProjectIntegration → Text
label_prefix [] = codes "relay-project:"
label_prefix (pi ∷ pis) =
    if is_empty pi.config.relay_project_label_prefix
    then label_prefix pis
    else pi.config.relay_project_label_prefix

unfoldable pub hint_in : Text → List Text → Text
unfolding to_lower has_prefix trim_prefix
hint_in prefix [] = []
hint_in prefix (l ∷ ls) =
    let later = hint_in prefix ls in
    if has_prefix (to_lower l) (to_lower prefix) then trim_prefix l prefix else later

unfoldable pub relay_project_hint_of : TicketData → List ProjectIntegration → Text
unfolding hint_in
relay_project_hint_of ticket pis =
    if is_empty ticket.relay_project_hint
    then hint_in (label_prefix pis) ticket.labels
    else ticket.relay_project_hint

unfoldable pub matches_component_filter : Text → TicketData → IntegrationConfig → Bool
unfolding equal_fold text_eq
matches_component_filter int_type ticket cfg =
    if text_eq int_type (codes "jira")
    then not (is_empty cfg.component_filter) && equal_fold ticket.component cfg.component_filter
    else if text_eq int_type (codes "github_issues") || text_eq int_type (codes "github_projects")
    then not (is_empty cfg.component_label)
      && any (λ l. equal_fold l cfg.component_label) ticket.labels
    else false

abbrev pub unrouted_result : RouteResult
unrouted_result = record { project_id = []; auto_approve = false; unrouted = true }

abbrev pub routed : ProjectIntegration → Project → RouteResult
routed pi proj = record {
  project_id = proj.id;
  auto_approve = pi.config.auto_approve || proj.auto_approve;
  unrouted = false;
}

-- An integration's project, if its name is the one hinted at; `later` is what the others give.
unfoldable pub if_named : Text → ProjectIntegration → Option Project → RouteResult → RouteResult
unfolding equal_fold
if_named hint pi none later = later
if_named hint pi (some proj) later = if equal_fold proj.name hint then routed pi proj else later

abbrev pub if_known : ProjectIntegration → Option Project → RouteResult
if_known pi none = unrouted_result
if_known pi (some proj) = routed pi proj

module _ (router : Router) where
  unfoldable pub route_by_hint : Text → List ProjectIntegration → RouteResult
  unfolding if_named
  route_by_hint hint [] = unrouted_result
  route_by_hint hint (pi ∷ pis) =
      if_named hint pi (router.project pi.project_id) (route_by_hint hint pis)

  -- The integrations whose filter matches: one is the target.
  unfoldable pub route_by_filter : List ProjectIntegration → RouteResult
  route_by_filter [] = unrouted_result
  route_by_filter (pi ∷ []) = if_known pi (router.project pi.project_id)
  route_by_filter (pi ∷ qi ∷ pis) = unrouted_result

  unfoldable pub route_among : Text → TicketData → List ProjectIntegration → Outcome
  unfolding relay_project_hint_of matches_component_filter route_by_hint route_by_filter
  route_among int_type ticket pis =
      let hint = relay_project_hint_of ticket pis in
      let matched =
        keep_if (λ (pi : ProjectIntegration). matches_component_filter int_type ticket pi.config)
          pis in
      if is_empty pis
      then unregistered
      else if is_empty hint
      then resolved (route_by_filter matched)
      else resolved (route_by_hint hint pis)

  unfoldable pub route : Text → Text → TicketData → Outcome
  unfolding route_among
  route int_type external_id ticket = elim (router.find int_type external_id) [
    | none ↦ failed
    | some pis ↦ route_among int_type ticket pis
  ]
