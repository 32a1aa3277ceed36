-- ===== src/Provasign/Routing/Targets.antt =====
-- The projects that a ticket is routed to.
use grove_suite.Prelude.{
  ◌≡◌, ◌⊎◌, refl, sym, ap, subst, ◌∙◌, Bool, true, false, if◌then◌else◌, Option, none, some, List,
  [], ◌∷◌, is_empty, keep_if, Text, arith, inl, inr, Bool-cases,
}
use grove_suite.Prelude.Members.{Among}
use grove_suite.Provasign.Routing.{
  TicketData, ProjectIntegration, Project, RouteResult, Router, Outcome, failed, unregistered,
  resolved, equal_fold, relay_project_hint_of, matches_component_filter, routed, if_named, if_known,
  route_by_hint, route_by_filter, route_among, route,
}

module _ (router : Router) where
  -- The result is that of one of the integrations and its project.
  pub record IsTarget (pis : List ProjectIntegration) (r : RouteResult) : Type 0 where
    pub integration : ProjectIntegration
    pub project : Project
    pub registered : Among integration pis
    pub known : router.project integration.project_id ≡ some project
    pub result : r ≡ routed integration project

  IsTarget-cons :
      (pi : ProjectIntegration) (pis : List ProjectIntegration) (r : RouteResult)
      → IsTarget pis r
      → IsTarget (pi ∷ pis) r
  IsTarget-cons pi pis r t = record {
    integration = t.integration;
    project = t.project;
    registered = inr t.registered;
    known = t.known;
    result = t.result;
  }

  if_named-IsTarget :
      (hint : Text) (pi : ProjectIntegration) (pis : List ProjectIntegration) (o : Option Project)
      (later : RouteResult)
      → router.project pi.project_id ≡ o
      → (later.unrouted ≡ false
          → (t : IsTarget pis later) × (equal_fold t.project.name hint ≡ true))
      → (if_named hint pi o later).unrouted ≡ false
      → (t : IsTarget (pi ∷ pis) (if_named hint pi o later)) × (equal_fold t.project.name hint
          ≡ true)
  unfolding if_named IsTarget-cons
  if_named-IsTarget hint pi pis none later at rest h =
      let (t, named) = rest h in (IsTarget-cons pi pis later t, named)
  if_named-IsTarget hint pi pis (some proj) later at rest h =
      elim (Bool-cases (equal_fold proj.name hint)) [
        | inl yes_named ↦ rw yes_named (
          record {
            integration = pi;
            project = proj;
            registered = inl refl;
            known = at;
            result = refl;
          },
          yes_named,
        )
        | inr other ↦
            let (t, named) = rest (rw other at h) in rw other (IsTarget-cons pi pis later t, named)
      ]

  route_by_hint-IsTarget :
      (hint : Text) (pis : List ProjectIntegration)
      → (route_by_hint router hint pis).unrouted ≡ false
      → (t : IsTarget pis (route_by_hint router hint pis)) × (equal_fold t.project.name hint ≡ true)
  unfolding route_by_hint
  route_by_hint-IsTarget hint [] h = ground (arith, h)
  route_by_hint-IsTarget hint (pi ∷ pis) h =
      if_named-IsTarget hint pi pis (router.project pi.project_id) (route_by_hint router hint pis)
        refl (route_by_hint-IsTarget hint pis) h

  if_known-IsTarget :
      (pi : ProjectIntegration) (o : Option Project)
      → router.project pi.project_id ≡ o
      → (if_known pi o).unrouted ≡ false
      → IsTarget (pi ∷ []) (if_known pi o)
  if_known-IsTarget pi none at h = ground (arith, h)
  if_known-IsTarget pi (some proj) at h = record {
    integration = pi;
    project = proj;
    registered = inl refl;
    known = at;
    result = refl;
  }

  -- The only integration whose filter matches.
  route_by_filter-IsTarget :
      (pis : List ProjectIntegration)
      → (route_by_filter router pis).unrouted ≡ false
      → (pi : ProjectIntegration) × (pis ≡ pi ∷ []) × IsTarget pis (route_by_filter router pis)
  unfolding route_by_filter
  route_by_filter-IsTarget [] h = ground (arith, h)
  route_by_filter-IsTarget (pi ∷ []) h =
      (pi, refl, if_known-IsTarget pi (router.project pi.project_id) refl h)
  route_by_filter-IsTarget (pi ∷ qi ∷ pis) h = ground (arith, h)

  -- The integrations of the board whose filter matches the ticket.
  abbrev pub matching : Text → TicketData → List ProjectIntegration → List ProjectIntegration
  matching int_type ticket pis =
      keep_if (λ (pi : ProjectIntegration). matches_component_filter int_type ticket pi.config) pis

  -- Why a ticket goes where it goes: its hint names the project, or it has none and one filter
  -- matches.
  abbrev pub IsRouted : Text → TicketData → List ProjectIntegration → RouteResult → Type 0
  IsRouted int_type ticket pis r =
      let hint = relay_project_hint_of ticket pis in
      ((t : IsTarget pis r) × (equal_fold t.project.name hint ≡ true))
      ⊎ ((hint ≡ [])
          × ((pi : ProjectIntegration) × (matching int_type ticket pis ≡ pi ∷ [])
              × IsTarget (matching int_type ticket pis) r))

  resolved_cases :
      (absent blank : Bool) (x y r : RouteResult)
      → (if absent then unregistered else if blank then resolved x else resolved y) ≡ resolved r
      → ((blank ≡ true) × (x ≡ r)) ⊎ ((blank ≡ false) × (y ≡ r))
  resolved_cases true blank x y r h = ground (arith, h)
  resolved_cases false true x y r h = inl (refl, ground (arith, h))
  resolved_cases false false x y r h = inr (refl, ground (arith, h))

  is_empty-nil : (t : Text) → is_empty t ≡ true → t ≡ []
  is_empty-nil [] h = refl
  is_empty-nil (c ∷ t) h = ground (arith, h)

  among-route :
      (int_type external_id : Text) (ticket : TicketData) (pis : List ProjectIntegration)
      (r : RouteResult)
      → router.find int_type external_id ≡ some pis
      → route router int_type external_id ticket ≡ resolved r
      → route_among router int_type ticket pis ≡ resolved r
  unfolding route
  among-route int_type external_id ticket pis r found h =
      ap
        (λ (o : Option (List ProjectIntegration)).
          let x : Outcome = elim o [
            | none ↦ failed
            | some ps ↦ route_among router int_type ticket ps
          ] in
          x)
        (sym found)
      ∙ h

  -- A ticket is routed only to a project with an integration for its board: to one whose name is the
  -- ticket's hint, or, where the ticket has no hint, to that of the one integration whose filter
  -- matches the ticket.
  pub route-IsRouted :
      (int_type external_id : Text) (ticket : TicketData) (pis : List ProjectIntegration)
      (r : RouteResult)
      → router.find int_type external_id ≡ some pis
      → route router int_type external_id ticket ≡ resolved r
      → r.unrouted ≡ false
      → IsRouted int_type ticket pis r
  unfolding route_among
  route-IsRouted int_type external_id ticket pis r found h here =
      let hint = relay_project_hint_of ticket pis in
      let matched = matching int_type ticket pis in
      elim (resolved_cases (is_empty pis) (is_empty hint) (route_by_filter router matched)
        (route_by_hint router hint pis) r (among-route int_type external_id ticket pis r found h)) [
          | inl (blank, filtered) ↦ inr (
            is_empty-nil hint blank,
            subst (λ x. (pi : ProjectIntegration) × (matched ≡ pi ∷ []) × IsTarget matched x)
                filtered
                (route_by_filter-IsTarget matched
                  (ap (λ (x : RouteResult). x.unrouted) filtered ∙ here)),
          )
          | inr (_, hinted) ↦ inl (
              subst (λ x. (t : IsTarget pis x) × (equal_fold t.project.name hint ≡ true)) hinted
                (route_by_hint-IsTarget hint pis
                  (ap (λ (x : RouteResult). x.unrouted) hinted ∙ here)))
        ]
