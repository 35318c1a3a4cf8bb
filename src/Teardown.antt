-- ===== src/Teardown.antt =====
-- What the deletion of a CR removes: deleteClusterScopedResources (openshiftpulse_controller.go),
-- deletePGDataOnRequest (postgresql_reconciler.go) and the finalizer branch of Reconcile.
pub mod Calls
pub mod Laws
pub mod Settled
pub mod Owned
pub mod Final
use Prim.Native.String
use mathlib.Core.List.{◌++◌}
use pulse_operator.Prelude.{
  String, Bool, true, false, not, ◌&&◌, ◌||◌, Option, none, some, List, [], ◌∷◌, text_at, ◌==◌,
  if◌then◌else◌, any, keep,
}
use pulse_operator.Api.{OpenShiftPulse}
use pulse_operator.Host.{Host, EventType, normal, warning, Event}
use pulse_operator.Cluster.{
  Error, wrap, is_not_found, is_no_match, Kind, cluster_role, cluster_role_binding, oauth_client,
  secret, persistent_volume_claim, openshift_pulse, Ref, Stored, found, failed, Cluster, M, ◌>>=◌,
  return, api_get, api_delete, api_update, join_errors,
}
use pulse_operator.Cluster.Removal.{annotation_owner_uid, delete_stale}
use pulse_operator.Names.{
  agent_resource_name, agent_cluster_role_name, agent_monitoring_view_binding_name,
  ui_cluster_role_name_unqualified, ui_cluster_role_name, oauth_client_name, mcp_resource_name,
  mcp_cluster_role_name, pg_auth_secret_name, pg_data_pvc_name,
}

-- A cluster-scoped object to delete, and its name in an error.
pub record Target : Type 0 where
  pub kind : Kind
  pub name : String
  pub desc : String

abbrev pub target_ref : Target → Ref
target_ref t = record { kind = t.kind; namespace = ""; name = t.name }

abbrev scoped : Kind → String → String → Target
scoped kind name desc = record { kind = kind; name = name; desc = desc }

-- Deleted already, or the cluster has no such API.
unfoldable pub is_gone : Error → Bool
is_gone e = is_not_found e || is_no_match e

-- Stamped with the UID of another CR; an object without a stamp is older than the stamp.
unfoldable pub is_foreign : OpenShiftPulse → Stored → Bool
is_foreign pulse stored =
    let uid = text_at annotation_owner_uid stored.annotations in
    not (uid == "") && not (uid == pulse.meta.uid)

-- The error to report, unless the object is gone.
unfoldable pub report : String → Option Error → List Error
report text none = []
report text (some e) = if is_gone e then [] else wrap text e ∷ []

-- The errors of a call that a caller wraps and collects.
unfoldable pub collect : String → Option Error → List Error
collect text none = []
collect text (some e) = wrap text e ∷ []

-- Run the step on every target, whatever the ones before it answered, and collect the errors.
unfoldable pub for_each : (Target → M (List Error)) → List Target → M (List Error)
for_each step [] = return []
for_each step (t ∷ ts) = do errs ← step t; rest ← for_each step ts; return (errs ++ rest)

unfoldable pub scoped_targets : OpenShiftPulse → List Target
scoped_targets pulse =
    let agent = agent_cluster_role_name pulse.meta.name pulse.meta.namespace in
    let view = agent_monitoring_view_binding_name pulse.meta.name pulse.meta.namespace in
    let ui = ui_cluster_role_name pulse.meta.name pulse.meta.namespace in
    let mcp = mcp_cluster_role_name pulse.meta.name pulse.meta.namespace in
    let delegator = Prim.Native.String.◌++◌ ui "-auth-delegator" in
    scoped cluster_role agent "agent ClusterRole"
    ∷ scoped cluster_role ui "UI ClusterRole"
    ∷ scoped cluster_role_binding agent "agent ClusterRoleBinding"
    ∷ scoped cluster_role_binding view "agent monitoring-view ClusterRoleBinding"
    ∷ scoped cluster_role_binding ui "UI ClusterRoleBinding"
    ∷ scoped cluster_role_binding delegator "UI auth-delegator ClusterRoleBinding"
    ∷ scoped cluster_role mcp "MCP ClusterRole"
    ∷ scoped cluster_role_binding mcp "MCP ClusterRoleBinding"
    ∷ []

-- The names that an earlier version gave, not qualified by the namespace.
unfoldable pub stale_targets : OpenShiftPulse → List Target
stale_targets pulse =
    let agent = agent_resource_name pulse.meta.name in
    let ui = ui_cluster_role_name_unqualified pulse.meta.name in
    let mcp = mcp_resource_name pulse.meta.name in
    let delegator = Prim.Native.String.◌++◌ ui "-auth-delegator" in
    scoped cluster_role agent "agent ClusterRole"
    ∷ scoped cluster_role_binding agent "agent ClusterRoleBinding"
    ∷ scoped cluster_role ui "UI ClusterRole"
    ∷ scoped cluster_role_binding ui "UI ClusterRoleBinding"
    ∷ scoped cluster_role_binding delegator "UI auth-delegator ClusterRoleBinding"
    ∷ scoped cluster_role mcp "MCP ClusterRole"
    ∷ scoped cluster_role_binding mcp "MCP ClusterRoleBinding"
    ∷ []

unfoldable pub oauth_targets : OpenShiftPulse → List Target
oauth_targets pulse =
    scoped oauth_client (oauth_client_name pulse.meta.name pulse.meta.namespace) "OAuthClient" ∷ []

module _ (cluster : Cluster) (pulse : OpenShiftPulse) where
  -- The closure `del` of deleteClusterScopedResources.
  unfoldable pub delete_target : Target → M (List Error)
  delete_target t = do
    got ← api_get cluster (target_ref t)
    elim got [
      | failed e ↦ return (report (Prim.Native.String.◌++◌ "get " t.desc) (some e))
      | found stored ↦ if is_foreign pulse stored then return [] else (do
        err ← api_delete cluster (target_ref t)
        return (report (Prim.Native.String.◌++◌ "delete " t.desc) err))
    ]

  unfoldable pub delete_stale_target : Target → M (List Error)
  delete_stale_target t = do
    err ← delete_stale cluster t.kind t.name pulse
    return (collect (Prim.Native.String.◌++◌ "delete stale unqualified " t.desc) err)

  unfoldable pub delete_cluster_scoped_resources : M (Option Error)
  delete_cluster_scoped_resources = do
    scoped_errs ← for_each delete_target (scoped_targets pulse)
    stale_errs ← for_each delete_stale_target (stale_targets pulse)
    oauth_errs ← for_each delete_target (oauth_targets pulse)
    return (join_errors (scoped_errs ++ (stale_errs ++ oauth_errs)))
