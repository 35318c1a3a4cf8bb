-- ===== src/Network/Laws.antt =====
-- Who may connect to the agent, the UI and the database, by the policies of a CR alone.
use Prim.Native.String.{◌++◌ as add}
use text.Mathlib.TextLemmas.{append_assoc}
use pulse_operator.Prelude.{
  String, true, false, ◌&&◌, ◌||◌, Dict, lookup, ◌==◌, ◌≡◌, refl, sym, ◌∙◌, arith, eq_refl,
}
use pulse_operator.Api.{OpenShiftPulse}
use pulse_operator.Names.{
  agent_resource_name, ui_resource_name, mcp_resource_name, render_resource_name,
  temporal_resource_name,
}
use pulse_operator.Features.{render_enabled, temporal_enabled}
use pulse_operator.Network.{
  Port, Endpoint, has_label, has_labels, selects, applies_to, let_in, may_connect,
}
use pulse_operator.Network.Policies.{
  pg_labels, metadata_name_label, user_workload_monitoring, ui_policy, pg_policy, agent_policy,
  mcp_policy, temporal_policy, render_policy, policies,
}
use pulse_operator.Network.Reach.{
  differ, app_pod, is_app, is_router, tcp_number, lets, ui-applies, agent-applies, ui-lets,
  agent-lets, pg-lets,
}
use pulse_operator.Network.Sums.{lets_in, let_in-policies, let_in-app, connects-let_in}

-- What the other policies than its own make of the agent's pods.
agent_is_no_other :
    (name : String)
    → ((agent_resource_name name == ui_resource_name name) ≡ false)
      × ((agent_resource_name name == mcp_resource_name name) ≡ false)
      × ((agent_resource_name name == temporal_resource_name name) ≡ false)
      × ((agent_resource_name name == add (temporal_resource_name name) "-ui") ≡ false)
      × ((agent_resource_name name == render_resource_name name) ≡ false)
unfolding agent_resource_name ui_resource_name mcp_resource_name render_resource_name
    temporal_resource_name
agent_is_no_other name = (
  differ name "-openshift-sre-agent" "-openshiftpulse" refl,
  differ name "-openshift-sre-agent" "-mcp-server" refl,
  differ name "-openshift-sre-agent" "-temporal" refl,
  rw (append_assoc name "-temporal" "-ui") (differ name "-openshift-sre-agent" "-temporal-ui" refl),
  differ name "-openshift-sre-agent" "-render" refl,
)

ui_is_no_other :
    (name : String)
    → ((ui_resource_name name == agent_resource_name name) ≡ false)
      × ((ui_resource_name name == mcp_resource_name name) ≡ false)
      × ((ui_resource_name name == temporal_resource_name name) ≡ false)
      × ((ui_resource_name name == add (temporal_resource_name name) "-ui") ≡ false)
      × ((ui_resource_name name == render_resource_name name) ≡ false)
unfolding agent_resource_name ui_resource_name mcp_resource_name render_resource_name
    temporal_resource_name
ui_is_no_other name = (
  differ name "-openshiftpulse" "-openshift-sre-agent" refl,
  differ name "-openshiftpulse" "-mcp-server" refl,
  differ name "-openshiftpulse" "-temporal" refl,
  rw (append_assoc name "-temporal" "-ui") (differ name "-openshiftpulse" "-temporal-ui" refl),
  differ name "-openshiftpulse" "-render" refl,
)

-- One of the policies that are always there is enough.
always-let_in :
    (cr : OpenShiftPulse) (source target : Endpoint) (port : Port)
    → (applies_to (ui_policy cr) target
        || (applies_to (pg_policy cr) target || applies_to (agent_policy cr) target))
      ≡ true
    → may_connect (policies cr) source target port ≡ true
    → let_in (policies cr) source target port ≡ true
unfolding policies
always-let_in cr source target port a h =
    connects-let_in source target port (policies cr) (ground arith) h

module _ (cr : OpenShiftPulse) (labels : Dict String) where
  agent_is_guarded :
      (applies_to (ui_policy cr) (app_pod cr labels (agent_resource_name cr.meta.name))
        || (applies_to (pg_policy cr) (app_pod cr labels (agent_resource_name cr.meta.name))
            || applies_to (agent_policy cr) (app_pod cr labels (agent_resource_name cr.meta.name))))
      ≡ true
  agent_is_guarded =
      rw (agent-applies cr labels (agent_resource_name cr.meta.name))
        (ground (arith, eq_refl (agent_resource_name cr.meta.name)))

  ui_is_guarded :
      (applies_to (ui_policy cr) (app_pod cr labels (ui_resource_name cr.meta.name))
        || (applies_to (pg_policy cr) (app_pod cr labels (ui_resource_name cr.meta.name))
            || applies_to (agent_policy cr) (app_pod cr labels (ui_resource_name cr.meta.name))))
      ≡ true
  ui_is_guarded =
      rw (ui-applies cr labels (ui_resource_name cr.meta.name))
        (ground (arith, eq_refl (ui_resource_name cr.meta.name)))

-- Only the CR's UI pods and the pods of the monitoring namespace may connect to the agent, and only
-- to its port 8080.
pub agent_callers :
    (cr : OpenShiftPulse) (labels : Dict String) (source : Endpoint) (port : Port)
    → may_connect (policies cr) source (app_pod cr labels (agent_resource_name cr.meta.name)) port
      ≡ true
    → ((is_app cr (ui_resource_name cr.meta.name) source
          || has_label source.namespace_labels metadata_name_label user_workload_monitoring)
        && tcp_number 8080 port)
      ≡ true
agent_callers cr labels source port h =
    let app = agent_resource_name cr.meta.name in
    let through =
      always-let_in cr source (app_pod cr labels app) port (agent_is_guarded cr labels) h in
    let split = sym (let_in-app cr labels app source port) ∙ through in
    ground (arith, split, agent_is_no_other cr.meta.name, agent-lets cr source port)

-- Only the router may connect to the UI's login on 8443, and only the CR's render pod, with render
-- on, to the render listener on 8081. No other port of the UI can be reached.
pub ui_callers :
    (cr : OpenShiftPulse) (labels : Dict String) (source : Endpoint) (port : Port)
    → may_connect (policies cr) source (app_pod cr labels (ui_resource_name cr.meta.name)) port
      ≡ true
    → ((is_router source && tcp_number 8443 port)
        || (render_enabled cr
            && (is_app cr (render_resource_name cr.meta.name) source && tcp_number 8081 port)))
      ≡ true
ui_callers cr labels source port h =
    let app = ui_resource_name cr.meta.name in
    let through =
      always-let_in cr source (app_pod cr labels app) port (ui_is_guarded cr labels) h in
    let split = sym (let_in-app cr labels app source port) ∙ through in
    ground (arith, split, ui_is_no_other cr.meta.name, ui-lets cr source port)

-- A pod of the database, with the labels that the StatefulSet stamps on it.
unfoldable pub pg_pod : OpenShiftPulse → Dict String → Endpoint
pg_pod cr labels = record {
  namespace = cr.meta.namespace;
  namespace_labels = labels;
  labels = pg_labels cr.meta.name;
}

pg_pod_policies :
    (cr : OpenShiftPulse) (labels : Dict String)
    → (applies_to (ui_policy cr) (pg_pod cr labels) ≡ false)
      × (applies_to (pg_policy cr) (pg_pod cr labels) ≡ true)
      × (applies_to (agent_policy cr) (pg_pod cr labels) ≡ false)
      × (applies_to (mcp_policy cr) (pg_pod cr labels) ≡ false)
      × (applies_to (temporal_policy cr) (pg_pod cr labels) ≡ false)
      × (applies_to (render_policy cr) (pg_pod cr labels) ≡ false)
unfolding applies_to selects has_labels has_label lookup pg_labels pg_pod ui_policy pg_policy
    agent_policy mcp_policy temporal_policy render_policy
pg_pod_policies cr labels = (
  ground (arith, eq_refl cr.meta.namespace),
  ground (arith, eq_refl cr.meta.namespace, eq_refl cr.meta.name),
  ground (arith, eq_refl cr.meta.namespace),
  ground (arith, eq_refl cr.meta.namespace),
  ground (arith, eq_refl cr.meta.namespace),
  ground (arith, eq_refl cr.meta.namespace),
)

let_in-pg :
    (cr : OpenShiftPulse) (labels : Dict String) (source : Endpoint) (port : Port)
    → let_in (policies cr) source (pg_pod cr labels) port ≡ lets (pg_policy cr) source port
unfolding lets_in
let_in-pg cr labels source port =
    let_in-policies source (pg_pod cr labels) port cr ∙ ground (arith, pg_pod_policies cr labels)

-- Only the CR's agent pods and, with Temporal on, its Temporal pods may connect to the database,
-- and only to its port 5432.
pub database_callers :
    (cr : OpenShiftPulse) (labels : Dict String) (source : Endpoint) (port : Port)
    → may_connect (policies cr) source (pg_pod cr labels) port ≡ true
    → ((is_app cr (agent_resource_name cr.meta.name) source
          || (temporal_enabled cr && is_app cr (temporal_resource_name cr.meta.name) source))
        && tcp_number 5432 port)
      ≡ true
database_callers cr labels source port h =
    let (a, pg, b, c, d, e) = pg_pod_policies cr labels in
    let through = always-let_in cr source (pg_pod cr labels) port (ground (arith, pg)) h in
    sym (let_in-pg cr labels source port ∙ pg-lets cr source port) ∙ through
