-- ===== src/Network/Reach.antt =====
-- What each policy of a CR applies to, and what it lets in there.
use Prim.Native.String.{◌++◌ as add}
use text.Mathlib.TextLemmas.{append_cancel_left}
use pulse_operator.Prelude.{
  ℕ, String, Bool, false, ◌&&◌, ◌||◌, Dict, lookup, ◌==◌, ◌≡◌, arith, eq_iff, eq_refl,
}
use pulse_operator.Api.{OpenShiftPulse}
use pulse_operator.Names.{
  agent_resource_name, ui_resource_name, mcp_resource_name, render_resource_name,
  temporal_resource_name,
}
use pulse_operator.Features.{render_enabled, temporal_enabled}
use pulse_operator.Network.{
  tcp, Port, Endpoint, NetworkPolicy, has_label, has_labels, selects, is_peer, is_port,
  lets_through, applies_to,
}
use pulse_operator.Network.Policies.{
  app_label, pg_labels, router_label, host_network_label, metadata_name_label,
  user_workload_monitoring, ui_policy, pg_policy, agent_policy, mcp_policy, temporal_policy,
  render_policy,
}

-- Names that end differently are different.
pub differ : (name a b : String) → (a == b) ≡ false → (add name a == add name b) ≡ false
differ name a b h =
    ground (arith, eq_iff (add name a) (add name b), append_cancel_left name a b, eq_iff a b)

-- A pod with the app label, in the CR's namespace.
abbrev pub app_pod : OpenShiftPulse → Dict String → String → Endpoint
app_pod cr namespace_labels app = record {
  namespace = cr.meta.namespace;
  namespace_labels = namespace_labels;
  labels = app_label app;
}

-- A pod of the CR's namespace that has the app label.
unfoldable pub is_app : OpenShiftPulse → String → Endpoint → Bool
is_app cr app end = end.namespace == cr.meta.namespace && has_label end.labels "app" app

module _ (cr : OpenShiftPulse) (labels : Dict String) (app : String) where
  pub ui-applies :
      applies_to (ui_policy cr) (app_pod cr labels app) ≡ (app == ui_resource_name cr.meta.name)
  unfolding applies_to selects has_labels has_label ui_policy lookup
  ui-applies = ground (arith, eq_refl cr.meta.namespace)

  pub pg-applies : applies_to (pg_policy cr) (app_pod cr labels app) ≡ false
  unfolding applies_to selects has_labels has_label pg_policy lookup pg_labels
  pg-applies = ground (arith, eq_refl cr.meta.namespace)

  pub agent-applies :
      applies_to (agent_policy cr) (app_pod cr labels app)
      ≡ (app == agent_resource_name cr.meta.name)
  unfolding applies_to selects has_labels has_label agent_policy lookup
  agent-applies = ground (arith, eq_refl cr.meta.namespace)

  pub mcp-applies :
      applies_to (mcp_policy cr) (app_pod cr labels app) ≡ (app == mcp_resource_name cr.meta.name)
  unfolding applies_to selects has_labels has_label mcp_policy lookup
  mcp-applies = ground (arith, eq_refl cr.meta.namespace)

  pub temporal-applies : applies_to (temporal_policy cr) (app_pod cr labels app) ≡ (
      app == temporal_resource_name cr.meta.name
      || app == add (temporal_resource_name cr.meta.name) "-ui")
  unfolding applies_to selects has_label temporal_policy lookup
  temporal-applies = ground (arith, eq_refl cr.meta.namespace)

  pub render-applies :
      applies_to (render_policy cr) (app_pod cr labels app)
      ≡ (app == render_resource_name cr.meta.name)
  unfolding applies_to selects has_labels has_label render_policy lookup
  render-applies = ground (arith, eq_refl cr.meta.namespace)

-- From the OpenShift router, on the pod network or on the host network.
unfoldable pub is_router : Endpoint → Bool
is_router end =
    has_label end.namespace_labels router_label "ingress"
    || has_label end.namespace_labels host_network_label ""

abbrev pub tcp_number : ℕ → Port → Bool
tcp_number number port = is_port (record { protocol = tcp; number = number }) port

-- What a policy lets in where it applies.
unfoldable pub lets : NetworkPolicy → Endpoint → Port → Bool
lets policy source port = lets_through policy.namespace policy.ingress source port

module _ (cr : OpenShiftPulse) (source : Endpoint) (port : Port) where
  pub ui-lets : lets (ui_policy cr) source port ≡ (
      (is_router source && tcp_number 8443 port)
      || (render_enabled cr
          && (is_app cr (render_resource_name cr.meta.name) source && tcp_number 8081 port)))
  unfolding lets lets_through is_router is_app is_peer selects has_labels ui_policy
  ui-lets = ground arith

  pub agent-lets : lets (agent_policy cr) source port ≡ (
      (is_app cr (ui_resource_name cr.meta.name) source
        || has_label source.namespace_labels metadata_name_label user_workload_monitoring)
      && tcp_number 8080 port)
  unfolding lets lets_through is_app is_peer selects has_labels agent_policy
  agent-lets = ground arith

  pub pg-lets : lets (pg_policy cr) source port ≡ (
      (is_app cr (agent_resource_name cr.meta.name) source
        || (temporal_enabled cr && is_app cr (temporal_resource_name cr.meta.name) source))
      && tcp_number 5432 port)
  unfolding lets lets_through is_app is_peer selects has_labels pg_policy
  pg-lets = ground arith

  pub mcp-lets :
      lets (mcp_policy cr) source port
      ≡ (is_app cr (agent_resource_name cr.meta.name) source && tcp_number 8081 port)
  unfolding lets lets_through is_app is_peer selects has_labels mcp_policy
  mcp-lets = ground arith

  pub temporal-lets : lets (temporal_policy cr) source port ≡ (
      (is_app cr (agent_resource_name cr.meta.name) source
        || (is_app cr (temporal_resource_name cr.meta.name) source
            || is_app cr (add (temporal_resource_name cr.meta.name) "-ui") source))
      && tcp_number 7233 port)
  unfolding lets lets_through is_app is_peer selects has_labels temporal_policy
  temporal-lets = ground arith

  pub render-lets :
      lets (render_policy cr) source port
      ≡ (is_app cr (agent_resource_name cr.meta.name) source && tcp_number 8090 port)
  unfolding lets lets_through is_app is_peer selects has_labels render_policy
  render-lets = ground arith
