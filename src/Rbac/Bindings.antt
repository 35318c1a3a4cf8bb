-- ===== src/Rbac/Bindings.antt =====
-- The writes of the ClusterRoles and of their bindings: reconcileClusterRole,
-- reconcileClusterRoleBinding and reconcileAgentMonitoringViewBinding (agent_reconciler.go),
-- reconcileUIClusterRole, reconcileUIClusterRoleBinding and reconcileUIAuthDelegatorBinding
-- (ui_reconciler.go), reconcileMCPClusterRole and reconcileMCPClusterRoleBinding
-- (mcp_reconciler.go).
use Prim.Native.String.{◌++◌}
use pulse_operator.Prelude.{String, Option, none, some, List, [], ◌∷◌, Dict, ◌==◌, if◌then◌else◌}
use pulse_operator.Api.{OpenShiftPulse}
use pulse_operator.Names.{
  agent_resource_name, agent_cluster_role_name, ui_resource_name, ui_cluster_role_name,
  ui_cluster_role_name_unqualified, mcp_resource_name, mcp_cluster_role_name,
}
use pulse_operator.Cluster.{Kind, cluster_role, cluster_role_binding, Cluster, M, ◌>>=◌, return}
use pulse_operator.Cluster.Removal.{annotation_owner_uid, delete_stale, wrap_error}
use pulse_operator.Upsert.{UpsertAnswers, Upserted, create_or_update, create_or_change}
use pulse_operator.Rbac.Rules.{PolicyRule}
use pulse_operator.Rbac.Roles.{agent_rules, ui_rules, mcp_rules}

pub record ClusterRole : Type 0 where
  pub annotations : Dict String
  pub rules : List PolicyRule

-- A subject of kind ServiceAccount.
pub record Subject : Type 0 where
  pub name : String
  pub namespace : String

-- `role` is the name of the ClusterRole that the binding refers to; empty when it refers to none.
pub record ClusterRoleBinding : Type 0 where
  pub annotations : Dict String
  pub subjects : List Subject
  pub role : String

-- clusterScopedAnnotations
unfoldable pub cluster_scoped_annotations : OpenShiftPulse → Dict String
cluster_scoped_annotations cr =
    ("pulse.ai/owner-name", cr.meta.name)
    ∷ ("pulse.ai/owner-namespace", cr.meta.namespace)
    ∷ (annotation_owner_uid, cr.meta.uid)
    ∷ []

abbrev pub account_of : String → OpenShiftPulse → Subject
account_of name pulse = record { name = name; namespace = pulse.meta.namespace }

-- Cluster-scoped objects have no controller reference.
abbrev pub unowned : UpsertAnswers → UpsertAnswers
unowned answers = record answers { owner_error = none }

-- The mutation of a role.
unfoldable pub set_rules : OpenShiftPulse → List PolicyRule → ClusterRole → ClusterRole
set_rules pulse rules role = record {
  annotations = cluster_scoped_annotations pulse;
  rules = rules;
}

-- The mutation of a binding; the role is set where there is none.
unfoldable pub set_binding :
    OpenShiftPulse → String → String → ClusterRoleBinding → ClusterRoleBinding
set_binding pulse account role binding = record {
  annotations = cluster_scoped_annotations pulse;
  subjects = account_of account pulse ∷ [];
  role = if binding.role == "" then role else binding.role;
}

abbrev pub no_role : ClusterRole
no_role = record { annotations = []; rules = [] }

abbrev pub no_binding : ClusterRoleBinding
no_binding = record { annotations = []; subjects = []; role = "" }

-- The two bindings of the UI: RoleRef stays in an update of the one, and is always set, with the
-- annotations of what is there, in the other.
unfoldable pub set_ui_binding : OpenShiftPulse → ClusterRoleBinding → ClusterRoleBinding
set_ui_binding pulse binding = record binding {
  annotations = cluster_scoped_annotations pulse;
  subjects = account_of (ui_resource_name pulse.meta.name) pulse ∷ [];
}

unfoldable pub set_auth_delegator : OpenShiftPulse → ClusterRoleBinding → ClusterRoleBinding
set_auth_delegator pulse binding = record binding {
  subjects = account_of (ui_resource_name pulse.meta.name) pulse ∷ [];
  role = "system:auth-delegator";
}

module _ (cluster : Cluster) (answers : UpsertAnswers) (pulse : OpenShiftPulse) where
  -- An object of the name without a namespace is removed first.
  unfoldable pub after_migration :
      {A : Type 0} → Kind → String → String → Option A → Upserted A → M (Upserted A)
  after_migration kind old_name text stored write = do
    err ← delete_stale cluster kind old_name pulse
    return (elim (wrap_error text err) [ some e ↦ (some e, stored) | none ↦ write ])

  unfoldable pub reconcile_agent_role : Option ClusterRole → M (Upserted ClusterRole)
  unfolding after_migration set_rules
  reconcile_agent_role stored =
      after_migration cluster_role (agent_resource_name pulse.meta.name)
        "migrate stale agent ClusterRole" stored
        (create_or_update (unowned answers) no_role (set_rules pulse (agent_rules pulse)) stored)

  unfoldable pub reconcile_ui_role : Option ClusterRole → M (Upserted ClusterRole)
  unfolding after_migration set_rules
  reconcile_ui_role stored =
      after_migration cluster_role (ui_cluster_role_name_unqualified pulse.meta.name)
        "migrate stale UI ClusterRole" stored
        (create_or_change (unowned answers) (set_rules pulse ui_rules no_role)
          (set_rules pulse ui_rules) stored)

  unfoldable pub reconcile_mcp_role : Option ClusterRole → M (Upserted ClusterRole)
  unfolding after_migration set_rules
  reconcile_mcp_role stored =
      after_migration cluster_role (mcp_resource_name pulse.meta.name)
        "migrate stale MCP ClusterRole" stored
        (create_or_update (unowned answers) no_role (set_rules pulse mcp_rules) stored)

  unfoldable pub reconcile_agent_binding :
      Option ClusterRoleBinding → M (Upserted ClusterRoleBinding)
  unfolding after_migration set_binding
  reconcile_agent_binding stored =
      after_migration cluster_role_binding (agent_resource_name pulse.meta.name)
        "migrate stale agent ClusterRoleBinding" stored
        (create_or_update (unowned answers) no_binding
          (set_binding pulse (agent_resource_name pulse.meta.name)
            (agent_cluster_role_name pulse.meta.name pulse.meta.namespace))
          stored)

  -- To a role of OpenShift's.
  unfoldable pub reconcile_monitoring_view_binding :
      Option ClusterRoleBinding → M (Upserted ClusterRoleBinding)
  unfolding set_binding
  reconcile_monitoring_view_binding stored = return (
      create_or_update (unowned answers) no_binding
        (set_binding pulse (agent_resource_name pulse.meta.name) "cluster-monitoring-view") stored)

  unfoldable pub reconcile_mcp_binding : Option ClusterRoleBinding → M (Upserted ClusterRoleBinding)
  unfolding after_migration set_binding
  reconcile_mcp_binding stored =
      after_migration cluster_role_binding (mcp_resource_name pulse.meta.name)
        "migrate stale MCP ClusterRoleBinding" stored
        (create_or_update (unowned answers) no_binding
          (set_binding pulse (mcp_resource_name pulse.meta.name)
            (mcp_cluster_role_name pulse.meta.name pulse.meta.namespace))
          stored)

  unfoldable pub reconcile_ui_binding : Option ClusterRoleBinding → M (Upserted ClusterRoleBinding)
  unfolding after_migration set_ui_binding
  reconcile_ui_binding stored =
      after_migration cluster_role_binding (ui_cluster_role_name_unqualified pulse.meta.name)
        "migrate stale UI ClusterRoleBinding" stored
        (create_or_change (unowned answers)
          (set_ui_binding pulse (record no_binding {
            role = ui_cluster_role_name pulse.meta.name pulse.meta.namespace;
          }))
          (set_ui_binding pulse) stored)

  unfoldable pub reconcile_auth_delegator_binding :
      Option ClusterRoleBinding → M (Upserted ClusterRoleBinding)
  unfolding after_migration set_auth_delegator
  reconcile_auth_delegator_binding stored =
      after_migration cluster_role_binding
        (ui_cluster_role_name_unqualified pulse.meta.name ++ "-auth-delegator")
        "migrate stale UI auth-delegator ClusterRoleBinding" stored
        (create_or_update (unowned answers)
          (record no_binding { annotations = cluster_scoped_annotations pulse })
          (set_auth_delegator pulse) stored)
