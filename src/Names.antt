-- ===== src/Names.antt =====
-- The names of the objects that the operator makes (agent_reconciler.go, ui_reconciler.go,
-- mcp_reconciler.go, postgresql_reconciler.go).
use Prim.Native.String.{◌++◌}
use text.Mathlib.TextLemmas.{append_assoc}
use pulse_operator.Prelude.{String, ◌≡◌}

unfoldable pub agent_resource_name : String → String
agent_resource_name cr_name = cr_name ++ "-openshift-sre-agent"

unfoldable pub agent_cluster_role_name : String → String → String
unfolding agent_resource_name
agent_cluster_role_name cr_name cr_namespace = cr_namespace ++ ("-" ++ agent_resource_name cr_name)

unfoldable pub agent_monitoring_view_binding_name : String → String → String
agent_monitoring_view_binding_name cr_name cr_namespace =
    agent_cluster_role_name cr_name cr_namespace ++ "-monitoring-view"

unfoldable pub memory_pvc_name : String → String
memory_pvc_name cr_name = cr_name ++ "-openshift-sre-agent-memory"

unfoldable pub ws_token_secret_name : String → String
ws_token_secret_name cr_name = cr_name ++ "-ws-token"

unfoldable pub ui_resource_name : String → String
ui_resource_name cr_name = cr_name ++ "-openshiftpulse"

unfoldable pub ui_cluster_role_name_unqualified : String → String
ui_cluster_role_name_unqualified cr_name = cr_name ++ "-openshiftpulse-reader"

unfoldable pub ui_cluster_role_name : String → String → String
ui_cluster_role_name cr_name cr_namespace =
    cr_namespace ++ ("-" ++ ui_cluster_role_name_unqualified cr_name)

unfoldable pub oauth_client_name : String → String → String
oauth_client_name cr_name cr_namespace = "openshiftpulse-" ++ (cr_namespace ++ ("-" ++ cr_name))

unfoldable pub mcp_resource_name : String → String
mcp_resource_name cr_name = cr_name ++ "-mcp-server"

unfoldable pub mcp_cluster_role_name : String → String → String
mcp_cluster_role_name cr_name cr_namespace = cr_namespace ++ ("-" ++ mcp_resource_name cr_name)

unfoldable pub pg_auth_secret_name : String → String
pg_auth_secret_name cr_name = cr_name ++ "-pg-auth"

unfoldable pub pg_stateful_set_name : String → String
pg_stateful_set_name cr_name = cr_name ++ "-openshift-sre-agent-postgresql"

-- The claim of ordinal 0 of the StatefulSet's template "pg-data".
unfoldable pub pg_data_pvc_name : String → String
unfolding pg_stateful_set_name
pg_data_pvc_name cr_name = "pg-data-" ++ (pg_stateful_set_name cr_name ++ "-0")

-- Qualifying by the namespace does not make the name of a cluster-scoped object unique: the CR `y`
-- in namespace `n-x` and the CR `x-y` in namespace `n` share the agent's ClusterRole.
pub cluster_role_name_shared :
    (n x y : String)
    → agent_cluster_role_name y (n ++ ("-" ++ x)) ≡ agent_cluster_role_name (x ++ ("-" ++ y)) n
unfolding agent_cluster_role_name
cluster_role_name_shared n x y = simp append_assoc

unfoldable pub render_resource_name : String → String
render_resource_name cr_name = cr_name ++ "-render"

unfoldable pub render_token_secret_name : String → String
render_token_secret_name cr_name = cr_name ++ "-render-token"

unfoldable pub render_service_url : String → String
unfolding render_resource_name
render_service_url cr_name = "http://" ++ (render_resource_name cr_name ++ ":8090")

unfoldable pub temporal_resource_name : String → String
temporal_resource_name cr_name = cr_name ++ "-temporal"

unfoldable pub temporal_network_policy_name : String → String
unfolding temporal_resource_name
temporal_network_policy_name cr_name = temporal_resource_name cr_name ++ "-access"

unfoldable pub temporal_host_for : String → String
unfolding temporal_resource_name
temporal_host_for cr_name = temporal_resource_name cr_name ++ ":7233"

unfoldable pub mcp_config_name : String → String
unfolding mcp_resource_name
mcp_config_name cr_name = mcp_resource_name cr_name ++ "-config"

unfoldable pub mcp_service_url : String → String
mcp_service_url cr_name = "http://" ++ (cr_name ++ "-mcp-server:8081")
