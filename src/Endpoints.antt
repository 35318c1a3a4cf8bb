-- ===== src/Endpoints.antt =====
-- The Services of a CR in front of its Deployments: each selects the pods of its own Deployment,
-- and leads to ports that they listen on. The agent's Deployment keeps the selector that is stored.
use pulse_operator.Prelude.{
  ℕ, String, Dict, Bool, true, false, Option, none, some, List, [], ◌∷◌, lookup, ◌==◌, any, eqb,
  All, text_at, not, if◌then◌else◌, ◌≡◌, ◌≢◌, refl, sym, eq_refl, eq_iff, arith,
}
use text.Mathlib.TextLemmas.{append-ne-nil_of_right_ne-nil}
use pulse_operator.Api.{OpenShiftPulse}
use pulse_operator.Host.{Env}
use pulse_operator.Features.{render_enabled}
use pulse_operator.Detection.{ClusterInfo}
use pulse_operator.Workload.{
  Container, PodTemplate, DeploymentSpec, Deployment, AppService, http_port,
}
use pulse_operator.Network.{has_labels, has_label}
use pulse_operator.Agent.Template.{build_deployment_spec, agent_container}
use pulse_operator.Agent.Deployment.{is_mismatched, pin_image, updated_spec}
use pulse_operator.Agent.Objects.{agent_service}
use pulse_operator.Names.{agent_resource_name}
use pulse_operator.Ui.Template.{
  ui_deployment_spec, nginx_container, proxy_container, ui_container_ports,
}
use pulse_operator.Ui.Objects.{ui_service}
use pulse_operator.Mcp.Server.{mcp_deployment, mcp_container, mcp_service}
use pulse_operator.Temporal.{
  temporal_deployment, temporal_container, temporal_service, temporal_ui_deployment,
  temporal_ui_container, temporal_ui_service,
}
use pulse_operator.Monitoring.{wanted_monitor}
use pulse_operator.Render.{render_deployment, render_container, render_service}

-- A container of the template listens on the port.
unfoldable pub listens : PodTemplate → ℕ → Bool
listens template number = any (λ c. any (λ p. eqb p number) c.ports) template.containers

-- The selector of the Service selects the Deployment's pods, the Deployment's own selector asks for
-- every label of it, and every port of the Service leads to one that a container listens on.
pub record LeadsTo (service : AppService) (spec : DeploymentSpec) : Type 0 where
  pub selects_pods : has_labels spec.template.labels service.selector ≡ true
  pub own_selector :
      (labels : Dict String) × (spec.selector ≡ some labels)
      × (has_labels labels service.selector ≡ true)
  pub ports_open : All (λ p. listens spec.template p.target_port ≡ true) service.ports

app_selects : (name : String) → has_labels (("app", name) ∷ []) (("app", name) ∷ []) ≡ true
unfolding has_labels has_label lookup
app_selects name = rw (eq_refl name) refl

-- The pods that the operator runs behind a Service; those of the agent of a new Deployment and of a
-- stored one.
pub data Server : Type 0 where
  new_agent agent ui mcp temporal temporal_ui render : Server

-- The label's value, by the test of the operator and by that of a selector.
same_value :
    (name : String) (value : Option String)
    → name ≢ ""
    → not ((elim value [ none ↦ "" | some v ↦ v ]) == name) ≡ false
    → (elim value [ none ↦ false | some v ↦ v == name ]) ≡ true
same_value name none named own = absurd (named (sym ((eq_iff "" name).0 (ground (arith, own)))))
same_value name (some v) named own = ground (arith, own)

-- A label that a Deployment of the agent has in its selector.
own_label :
    (name : String) (selector : Option (Dict String))
    → name ≢ ""
    → (elim selector [ none ↦ true | some labels ↦ not (text_at "app" labels == name) ]) ≡ false
    → (labels : Dict String) × (selector ≡ some labels)
      × (has_labels labels (("app", name) ∷ []) ≡ true)
unfolding has_labels has_label text_at
own_label name none named own = absurd (ground (arith, own))
own_label name (some labels) named own =
    let held = same_value name (lookup "app" labels) named own in
    (labels, refl, ground (arith, held))

agent_named : (cr_name : String) → agent_resource_name cr_name ≢ ""
unfolding agent_resource_name
agent_named cr_name =
    append-ne-nil_of_right_ne-nil cr_name
      (λ p. absurd (ground (arith, (eq_iff "-openshift-sre-agent" "").1 p)))

-- The ports of the UI's Service, and of its containers, with render on and off.
ui_ports :
    (on : Bool)
    → All
        (λ p.
          any
            (λ ports. any (λ q. eqb q p.target_port) ports)
            ((if on then 8080 ∷ 8081 ∷ [] else 8080 ∷ []) ∷ (8443 ∷ []) ∷ [])
          ≡ true)
        (if on
          then http_port "https" 8443 ∷ http_port "render" 8081 ∷ []
          else http_port "https" 8443 ∷ [])
ui_ports true = (refl, (refl, tt))
ui_ports false = (refl, tt)

-- The Service after a pass, from the one before.
abbrev pub service_of : OpenShiftPulse → Server → AppService → AppService
service_of cr new_agent = agent_service cr
service_of cr agent = agent_service cr
service_of cr ui = ui_service cr
service_of cr mcp = mcp_service cr
service_of cr temporal = temporal_service cr
service_of cr temporal_ui = temporal_ui_service cr
service_of cr render = render_service cr

-- A pinned image leaves the ports as they are.
pinned_ports :
    (gate : Bool) (running : List Container) (wanted : Container)
    → any (λ p. eqb p 8080) wanted.ports ≡ true
    → any
        (λ c. any (λ p. eqb p 8080) c.ports)
        (if gate then wanted ∷ [] else pin_image running (wanted ∷ []))
      ≡ true
unfolding pin_image
pinned_ports true running wanted offered = ground (arith, offered)
pinned_ports false [] wanted offered = ground (arith, offered)
pinned_ports false (c ∷ running) wanted offered = ground (arith, offered)

module _ (itoa : ℕ → String) (quote : String → String) (getenv : Env) (hash : String)
    (info : Option ClusterInfo) (gate : Bool) (cr : OpenShiftPulse) where
  -- The Deployment that a pass writes over the stored one; a new one of the agent is written only
  -- with the version gate open, and a closed gate keeps the image that runs in a stored one.
  abbrev pub spec_of : Server → Deployment → DeploymentSpec
  spec_of new_agent old = build_deployment_spec itoa getenv hash cr info
  spec_of agent old = updated_spec gate old.spec (build_deployment_spec itoa getenv hash cr info)
  spec_of ui old = (ui_deployment_spec quote getenv cr info hash old.spec.template.annotations).1
  spec_of mcp old = (mcp_deployment getenv cr hash old).spec
  spec_of temporal old = (temporal_deployment getenv hash cr old).spec
  spec_of temporal_ui old = (temporal_ui_deployment getenv cr old).spec
  spec_of render old = (render_deployment getenv cr old).spec

  -- The stored Deployment is one that the pass writes over: one of the agent whose selector does not
  -- name the agent's pods is deleted instead.
  abbrev pub IsKept : Server → Deployment → Type 0
  IsKept agent old = is_mismatched (agent_resource_name cr.meta.name) old.spec ≡ false
  IsKept _ old = Unit

  -- If the stored Deployment is one that a pass writes over, that is any but one of the agent whose
  -- selector does not name the agent's pods, then the Service that the pass writes selects the pods of
  -- the Deployment that it writes, whose selector (of the agent: the stored one) asks for every
  -- label of the Service's, and each port of the Service leads to one on which a container of these pods
  -- listens: for a new agent and a stored one, with the version gate open or closed, the UI, the MCP
  -- server, Temporal, its Web UI and the render service.
  pub services_lead_to_pods :
      (server : Server) (service : AppService) (deployment : Deployment)
      → IsKept server deployment
      → LeadsTo (service_of cr server service) (spec_of server deployment)
  unfolding listens build_deployment_spec agent_container agent_service updated_spec is_mismatched
      ui_deployment_spec nginx_container proxy_container ui_container_ports ui_service
      mcp_deployment mcp_container mcp_service temporal_deployment temporal_container
      temporal_service temporal_ui_deployment temporal_ui_container temporal_ui_service
      render_deployment render_container render_service
  services_lead_to_pods agent service deployment kept = record {
    selects_pods = app_selects _;
    own_selector = own_label _ deployment.spec.selector (agent_named cr.meta.name) kept;
    ports_open = (
      pinned_ports gate deployment.spec.template.containers
          (agent_container itoa getenv hash cr info) refl,
      tt,
    );
  }
  services_lead_to_pods ui service deployment kept = record {
    selects_pods = app_selects _;
    own_selector = (_, refl, app_selects _);
    ports_open = ui_ports (render_enabled cr);
  }
  services_lead_to_pods _ service deployment kept = record {
    selects_pods = app_selects _;
    own_selector = (_, refl, app_selects _);
    ports_open = (refl, tt);
  }

-- The ServiceMonitor finds the agent's Service by its labels, and each endpoint that it scrapes is a
-- port of the Service by name.
pub monitor_finds_service :
    (cr : OpenShiftPulse) (old : AppService)
    → (has_labels (agent_service cr old).labels (wanted_monitor cr).selector ≡ true)
      × All
          (λ e. any (λ p. p.name == e.port) (agent_service cr old).ports ≡ true)
          (wanted_monitor cr).endpoints
unfolding agent_service wanted_monitor
monitor_finds_service cr old = (app_selects _, (refl, tt))
