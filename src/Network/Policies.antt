-- ===== src/Network/Policies.antt =====
-- The policies of a CR: reconcileUIPodNetworkPolicy, reconcilePGNetworkPolicy,
-- reconcileAgentNetworkPolicy, reconcileMCPNetworkPolicy, and reconcileNetworkPolicy of the Temporal
-- and the render reconciler.
use Prim.Native.String.{◌++◌}
use mathlib.Core.List.{◌++◌ as append}
use pulse_operator.Prelude.{ℕ, String, none, some, List, [], ◌∷◌, Dict, if◌then◌else◌}
use pulse_operator.Api.{OpenShiftPulse}
use pulse_operator.Features.{render_enabled, temporal_enabled}
use pulse_operator.Names.{
  agent_resource_name, ui_resource_name, mcp_resource_name, render_resource_name,
  temporal_resource_name, temporal_network_policy_name,
}
use pulse_operator.Network.{
  match_labels, label_in, tcp, udp, Port, Peer, pods, namespaces, Rule, NetworkPolicy,
}

-- The labels that the operator's Deployments stamp on their pods.
abbrev pub app_label : String → Dict String
app_label app = ("app", app) ∷ []

-- pgLabels, which the StatefulSet stamps on its pods.
unfoldable pub pg_labels : String → Dict String
pg_labels cr_name =
    ("app.kubernetes.io/name", "postgresql")
    ∷ ("app.kubernetes.io/instance", cr_name)
    ∷ ("app.kubernetes.io/component", "database")
    ∷ ("app.kubernetes.io/managed-by", "pulse-operator")
    ∷ []

abbrev pod_of : String → Peer
pod_of app = pods (match_labels (app_label app))

abbrev namespace_of : String → String → Peer
namespace_of key value = namespaces (match_labels ((key, value) ∷ []))

abbrev tcp_port : ℕ → Port
tcp_port number = record { protocol = tcp; number = number }

abbrev udp_port : ℕ → Port
udp_port number = record { protocol = udp; number = number }

abbrev pub router_label : String
router_label = "network.openshift.io/policy-group"

abbrev pub host_network_label : String
host_network_label = "policy-group.network.openshift.io/host-network"

abbrev router_rule : Rule
router_rule = record {
  peers = namespace_of router_label "ingress" ∷ namespace_of host_network_label "" ∷ [];
  ports = tcp_port 8443 ∷ [];
}

abbrev render_rule : String → Rule
render_rule cr_name = record {
  peers = pod_of (render_resource_name cr_name) ∷ [];
  ports = tcp_port 8081 ∷ [];
}

unfoldable pub ui_policy : OpenShiftPulse → NetworkPolicy
ui_policy pulse = record {
  name = ui_resource_name pulse.meta.name;
  namespace = pulse.meta.namespace;
  pod_selector = match_labels (app_label (ui_resource_name pulse.meta.name));
  ingress =
      if render_enabled pulse
      then router_rule ∷ render_rule pulse.meta.name ∷ []
      else router_rule ∷ [];
  egress = some (record { peers = []; ports = [] } ∷ []);
}

unfoldable pub pg_policy : OpenShiftPulse → NetworkPolicy
unfolding pg_labels
pg_policy pulse =
    let agent_peer = pod_of (agent_resource_name pulse.meta.name) in
    let temporal_peer = pod_of (temporal_resource_name pulse.meta.name) in
    record {
      name = pulse.meta.name ++ "-pg-access";
      namespace = pulse.meta.namespace;
      pod_selector = match_labels (pg_labels pulse.meta.name);
      ingress =
          record {
            peers =
                if temporal_enabled pulse then agent_peer ∷ temporal_peer ∷ [] else agent_peer ∷ [];
            ports = tcp_port 5432 ∷ [];
          }
          ∷ [];
      egress = none;
    }

abbrev pub metadata_name_label : String
metadata_name_label = "kubernetes.io/metadata.name"

abbrev pub user_workload_monitoring : String
user_workload_monitoring = "openshift-user-workload-monitoring"

unfoldable pub agent_policy : OpenShiftPulse → NetworkPolicy
agent_policy pulse = record {
  name = pulse.meta.name ++ "-agent-access";
  namespace = pulse.meta.namespace;
  pod_selector = match_labels (app_label (agent_resource_name pulse.meta.name));
  ingress =
      record { peers = pod_of (ui_resource_name pulse.meta.name) ∷ []; ports = tcp_port 8080 ∷ [] }
      ∷ record {
        peers = namespace_of metadata_name_label user_workload_monitoring ∷ [];
        ports = tcp_port 8080 ∷ [];
      }
      ∷ [];
  egress = none;
}

unfoldable pub mcp_policy : OpenShiftPulse → NetworkPolicy
mcp_policy pulse = record {
  name = mcp_resource_name pulse.meta.name;
  namespace = pulse.meta.namespace;
  pod_selector = match_labels (app_label (mcp_resource_name pulse.meta.name));
  ingress =
      record {
        peers = pod_of (agent_resource_name pulse.meta.name) ∷ [];
        ports = tcp_port 8081 ∷ [];
      }
      ∷ [];
  egress = none;
}

unfoldable pub temporal_policy : OpenShiftPulse → NetworkPolicy
temporal_policy pulse =
    let server = temporal_resource_name pulse.meta.name in
    let ui = server ++ "-ui" in
    record {
      name = temporal_network_policy_name pulse.meta.name;
      namespace = pulse.meta.namespace;
      pod_selector = label_in "app" (server ∷ ui ∷ []);
      ingress =
          record {
            peers = pod_of (agent_resource_name pulse.meta.name) ∷ pod_of server ∷ pod_of ui ∷ [];
            ports = tcp_port 7233 ∷ [];
          }
          ∷ [];
      egress = none;
    }

unfoldable pub render_policy : OpenShiftPulse → NetworkPolicy
render_policy pulse = record {
  name = render_resource_name pulse.meta.name;
  namespace = pulse.meta.namespace;
  pod_selector = match_labels (app_label (render_resource_name pulse.meta.name));
  ingress =
      record {
        peers = pod_of (agent_resource_name pulse.meta.name) ∷ [];
        ports = tcp_port 8090 ∷ [];
      }
      ∷ [];
  egress = some (
      record { peers = pod_of (ui_resource_name pulse.meta.name) ∷ []; ports = tcp_port 8081 ∷ [] }
      ∷ record {
        peers = namespaces (match_labels []) ∷ [];
        ports = udp_port 53 ∷ tcp_port 53 ∷ udp_port 5353 ∷ tcp_port 5353 ∷ [];
      }
      ∷ []);
}

-- What the steps of a pass write: the first three always, the others with their feature.
unfoldable pub policies : OpenShiftPulse → List NetworkPolicy
unfolding ui_policy pg_policy agent_policy mcp_policy temporal_policy render_policy
policies pulse =
    let mcp = if pulse.spec.agent.mcp.enabled then mcp_policy pulse ∷ [] else [] in
    let temporal = if temporal_enabled pulse then temporal_policy pulse ∷ [] else [] in
    let render = if render_enabled pulse then render_policy pulse ∷ [] else [] in
    ui_policy pulse ∷ pg_policy pulse ∷ agent_policy pulse ∷ append mcp (append temporal render)
