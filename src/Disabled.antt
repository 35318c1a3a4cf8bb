-- ===== src/Disabled.antt =====
-- What turning a feature off removes: removeMCP (mcp_reconciler.go), removeTemporal
-- (temporal_reconciler.go), removeRender (render_reconciler.go), and the disruption budget of a UI
-- with one replica (pdb_reconciler.go).
pub mod Laws
use Prim.Native.String.{◌++◌}
use mathlib.Core.List.{◌++◌ as append}
use pulse_operator.Prelude.{
  ℕ, String, Bool, true, false, Option, none, some, List, [], ◌∷◌, leb, if◌then◌else◌,
}
use pulse_operator.Api.{OpenShiftPulse}
use pulse_operator.Features.{temporal_enabled, temporal_ui_enabled}
use pulse_operator.Names.{
  mcp_resource_name, mcp_config_name, mcp_cluster_role_name, render_resource_name,
  render_token_secret_name, temporal_resource_name, temporal_network_policy_name, ui_resource_name,
}
use pulse_operator.Image.Choice.{resolved_ui_replicas}
use pulse_operator.Cluster.{
  Error, Kind, cluster_role, cluster_role_binding, deployment, service, secret, config_map,
  service_account, network_policy, pod_disruption_budget, Ref, Cluster, M, ◌>>=◌, return,
}
use pulse_operator.Cluster.Removal.{
  delete_owned, delete_owned_cluster_scoped, delete_if, is_controlled_by, wrap_error,
}

-- A kind and a name.
abbrev pub Target : Type 0
Target = Kind × String

unfoldable pub mcp_targets : OpenShiftPulse → List Target
mcp_targets pulse =
    let name = mcp_resource_name pulse.meta.name in
    (deployment, name)
    ∷ (config_map, mcp_config_name pulse.meta.name)
    ∷ (service, name)
    ∷ (network_policy, name)
    ∷ (service_account, name)
    ∷ []

unfoldable pub mcp_scoped_targets : OpenShiftPulse → List Target
mcp_scoped_targets pulse =
    let name = mcp_cluster_role_name pulse.meta.name pulse.meta.namespace in
    (cluster_role_binding, name) ∷ (cluster_role, name) ∷ []

unfoldable pub render_targets : OpenShiftPulse → List Target
render_targets pulse =
    let name = render_resource_name pulse.meta.name in
    (deployment, name)
    ∷ (service, name)
    ∷ (network_policy, name)
    ∷ (secret, render_token_secret_name pulse.meta.name)
    ∷ []

abbrev pods_of : String → List Target
pods_of name = (deployment, name) ∷ (service, name) ∷ []

-- With the server off, its policy goes first; the Web UI goes with either switch.
unfoldable pub temporal_targets : OpenShiftPulse → List Target
temporal_targets pulse =
    let server = temporal_resource_name pulse.meta.name in
    let ui = pods_of (server ++ "-ui") in
    if temporal_enabled pulse
    then if temporal_ui_enabled pulse then [] else ui
    else (network_policy, temporal_network_policy_name pulse.meta.name) ∷ append ui (pods_of server)

-- `if err != nil { return err }`
unfoldable pub unless_error : Option Error → M (Option Error) → M (Option Error)
unless_error (some e) next = return (some e)
unless_error none next = next

-- One by one, up to the first error.
unfoldable pub until_error : (Target → M (Option Error)) → List Target → M (Option Error)
unfolding unless_error
until_error remove [] = return none
until_error remove (t ∷ rest) = do err ← remove t; unless_error err (until_error remove rest)

module _ (cluster : Cluster) (pulse : OpenShiftPulse) where
  abbrev pub remove_owned : Target → M (Option Error)
  remove_owned (kind, name) = delete_owned cluster kind name pulse

  abbrev pub remove_scoped : Target → M (Option Error)
  remove_scoped (kind, name) = delete_owned_cluster_scoped cluster kind name pulse

  unfoldable pub remove_mcp : M (Option Error)
  unfolding until_error unless_error
  remove_mcp = do
    err ← until_error remove_owned (mcp_targets pulse)
    unless_error err (until_error remove_scoped (mcp_scoped_targets pulse))

  unfoldable pub remove_temporal : M (Option Error)
  unfolding until_error
  remove_temporal = until_error remove_owned (temporal_targets pulse)

  unfoldable pub remove_render : M (Option Error)
  unfolding until_error
  remove_render = do
    err ← until_error remove_owned (render_targets pulse)
    return (wrap_error "remove render" err)

  -- The branch of reconcileUIPodsDisruptionBudget for one replica.
  unfoldable pub remove_pdb : M (Option Error)
  unfolding delete_if
  remove_pdb =
      delete_if cluster (λ s. is_controlled_by s pulse) (λ e. e)
        (record {
          kind = pod_disruption_budget;
          namespace = pulse.meta.namespace;
          name = ui_resource_name pulse.meta.name;
        })

  -- `write` is the CreateOrUpdate of the budget.
  unfoldable pub reconcile_pdb : M (Option Error) → M (Option Error)
  reconcile_pdb write = if leb (resolved_ui_replicas pulse) 1 then remove_pdb else write

-- The disruption budget: the label that its pods carry, and how many must stay.
pub record Budget : Type 0 where
  pub selector : List (String × String)
  pub min_available : ℕ

-- What CreateOrUpdate writes for two replicas or more.
unfoldable pub budget_of : OpenShiftPulse → Budget
budget_of pulse = record {
  selector = ("app", ui_resource_name pulse.meta.name) ∷ [];
  min_available = 1;
}
