-- ===== src/Witnesses/Routing.antt =====
-- The routing of a ticket at concrete inputs.
use grove_suite.Prelude.{◌≡◌, refl, true, false, [], ◌∷◌, some, Text, codes, text_eq, if◌then◌else◌}
use grove_suite.Provasign.Routing.{
  TicketData, ProjectIntegration, Project, Router, resolved, routed, hint_in, route,
}
use grove_suite.Provasign.Routing.Targets.{IsRouted, route-IsRouted}

abbrev web : ProjectIntegration
web = record {
  project_id = codes "p-1";
  config = record {
    component_filter = [];
    relay_project_label_prefix = [];
    component_label = codes "web";
    auto_approve = false;
  };
}

abbrev api : ProjectIntegration
api = record web { project_id = codes "p-2" }

abbrev project_of : Text → Project
project_of id = record {
  id = id;
  name = if text_eq id (codes "p-1") then codes "Web" else codes "Api";
  auto_approve = true;
}

abbrev router : Router
router = record {
  find = λ int_type external_id. some (web ∷ api ∷ []);
  project = λ id. some (project_of id);
}

abbrev labelled : Text → TicketData
labelled label = record { labels = label ∷ []; relay_project_hint = []; component = [] }

-- A label that starts with the prefix in other letters keeps the prefix, and names no project.
kept_prefix :
    hint_in (codes "relay-project:") (codes "Relay-Project:api" ∷ []) ≡ codes "Relay-Project:api"
unfolding hint_in
kept_prefix = refl

by_label :
    route router (codes "github_issues") (codes "o/r") (labelled (codes "relay-project:api"))
    ≡ resolved (routed api (project_of (codes "p-2")))
unfolding route
by_label = refl

route-IsRouted_example :
    IsRouted router
      (codes "github_issues")
      (labelled (codes "relay-project:api"))
      (web ∷ api ∷ [])
      (routed api (project_of (codes "p-2")))
route-IsRouted_example =
    route-IsRouted router (codes "github_issues") (codes "o/r")
      (labelled (codes "relay-project:api")) (web ∷ api ∷ [])
      (routed api (project_of (codes "p-2"))) refl by_label refl
