-- ===== src/Rbac/BindingLaws.antt =====
-- Whatever stood in the place of a role or a binding, a pass without an error leaves the operator's
-- rules, and its own account as the only subject.
use pulse_operator.Prelude.{
  String, Option, none, some, List, [], ◌∷◌, ◌≡◌, refl, sym, ap, ◌∙◌, inl, inr, arith, Option-cases,
}
use pulse_operator.Api.{OpenShiftPulse}
use pulse_operator.Names.{agent_resource_name, ui_resource_name, mcp_resource_name}
use pulse_operator.Cluster.{Kind, Cluster, M, Log}
use pulse_operator.Cluster.Removal.{delete_stale, wrap_error}
use pulse_operator.Upsert.{UpsertAnswers, Upserted, create_or_update-ok, create_or_change-ok}
use pulse_operator.Rbac.Rules.{PolicyRule}
use pulse_operator.Rbac.Roles.{agent_rules, ui_rules, mcp_rules}
use pulse_operator.Rbac.Bindings.{
  ClusterRole, ClusterRoleBinding, account_of, unowned, no_role, no_binding, set_rules, set_binding,
  set_ui_binding, set_auth_delegator, after_migration, reconcile_agent_role, reconcile_ui_role,
  reconcile_mcp_role, reconcile_agent_binding, reconcile_monitoring_view_binding,
  reconcile_mcp_binding, reconcile_ui_binding, reconcile_auth_delegator_binding,
}

pub data Component : Type 0 where
  the_agent the_ui the_mcp_server : Component

-- The bindings of the operator: one for each component, and two to roles of OpenShift's.
pub data Binding : Type 0 where
  own : Component → Binding
  monitoring_view auth_delegator : Binding

abbrev pub rules_of : Component → OpenShiftPulse → List PolicyRule
rules_of the_agent pulse = agent_rules pulse
rules_of the_ui pulse = ui_rules
rules_of the_mcp_server pulse = mcp_rules

abbrev pub account_name : Binding → OpenShiftPulse → String
account_name (own the_agent) pulse = agent_resource_name pulse.meta.name
account_name (own the_ui) pulse = ui_resource_name pulse.meta.name
account_name (own the_mcp_server) pulse = mcp_resource_name pulse.meta.name
account_name monitoring_view pulse = agent_resource_name pulse.meta.name
account_name auth_delegator pulse = ui_resource_name pulse.meta.name

module _ (cluster : Cluster) (answers : UpsertAnswers) (pulse : OpenShiftPulse) where
  abbrev pub reconcile_role : Component → Option ClusterRole → M (Upserted ClusterRole)
  reconcile_role the_agent = reconcile_agent_role cluster answers pulse
  reconcile_role the_ui = reconcile_ui_role cluster answers pulse
  reconcile_role the_mcp_server = reconcile_mcp_role cluster answers pulse

  abbrev pub reconcile_binding :
      Binding → Option ClusterRoleBinding → M (Upserted ClusterRoleBinding)
  reconcile_binding (own the_agent) = reconcile_agent_binding cluster answers pulse
  reconcile_binding (own the_ui) = reconcile_ui_binding cluster answers pulse
  reconcile_binding (own the_mcp_server) = reconcile_mcp_binding cluster answers pulse
  reconcile_binding monitoring_view = reconcile_monitoring_view_binding cluster answers pulse
  reconcile_binding auth_delegator = reconcile_auth_delegator_binding cluster answers pulse

  -- Without an error the write was made.
  after_migration-ok :
      {A : Type 0} (kind : Kind) (old_name text : String) (stored : Option A) (write : Upserted A)
      (log : Log)
      → (after_migration cluster answers pulse kind old_name text stored write log).0.0 ≡ none
      → (after_migration cluster answers pulse kind old_name text stored write log).0 ≡ write
  unfolding after_migration
  after_migration-ok kind old_name text stored write log h =
      elim (Option-cases (wrap_error text (delete_stale cluster kind old_name pulse log).0)) [
        | inl fine ↦ ground (arith, fine)
        | inr (e, bad) ↦ absurd (ground (arith, bad, h))
      ]

  -- So what holds after every write without an error holds after the whole pass.
  migrated :
      {A : Type 0} (P : A → Type 0) (kind : Kind) (old_name text : String) (stored : Option A)
      (write : Upserted A) (log : Log)
      → (write.0 ≡ none → (after : A) × (write.1 ≡ some after) × P after)
      → (after_migration cluster answers pulse kind old_name text stored write log).0.0 ≡ none
      → (after : A) × ((after_migration cluster answers pulse kind old_name text stored write
            log).0.1
          ≡ some after)
        × P after
  migrated P kind old_name text stored write log ok h =
      let same = after_migration-ok kind old_name text stored write log h in
      let (after, at, p) = ok (ap (λ r. r.0) (sym same) ∙ h) in (after, ap (λ r. r.1) same ∙ at, p)

  -- A pass over a role of the agent, the UI or the MCP server without an error leaves exactly the
  -- rules that the CR calls for, whatever rules stood there.
  pub role_drift_is_undone :
      (which : Component) (stored : Option ClusterRole) (log : Log)
      → (reconcile_role which stored log).0.0 ≡ none
      → (after : ClusterRole) × ((reconcile_role which stored log).0.1 ≡ some after)
        × (after.rules ≡ rules_of which pulse)
  unfolding reconcile_agent_role reconcile_ui_role reconcile_mcp_role set_rules
  role_drift_is_undone the_agent stored log =
      migrated (λ after. after.rules ≡ agent_rules pulse) _ _ _ stored _ log
        (create_or_update-ok (λ after. after.rules ≡ agent_rules pulse) (unowned answers) stored
          no_role (set_rules pulse (agent_rules pulse)) (λ old. refl))
  role_drift_is_undone the_ui stored log =
      migrated (λ after. after.rules ≡ ui_rules) _ _ _ stored _ log
        (create_or_change-ok (λ after. after.rules ≡ ui_rules) (unowned answers) stored
          (set_rules pulse ui_rules no_role) (set_rules pulse ui_rules) refl (λ old. refl))
  role_drift_is_undone the_mcp_server stored log =
      migrated (λ after. after.rules ≡ mcp_rules) _ _ _ stored _ log
        (create_or_update-ok (λ after. after.rules ≡ mcp_rules) (unowned answers) stored no_role
          (set_rules pulse mcp_rules) (λ old. refl))

  -- The only subject is the component's own account, in the CR's namespace.
  abbrev pub IsBound : Binding → ClusterRoleBinding → Type 0
  IsBound which after = after.subjects ≡ account_of (account_name which pulse) pulse ∷ []

  -- A pass over a binding without an error leaves the component's own service account, in the CR's
  -- namespace, as the only subject, whoever was bound before.
  pub only_own_account_is_bound :
      (which : Binding) (stored : Option ClusterRoleBinding) (log : Log)
      → (reconcile_binding which stored log).0.0 ≡ none
      → (after : ClusterRoleBinding) × ((reconcile_binding which stored log).0.1 ≡ some after)
        × (after.subjects ≡ account_of (account_name which pulse) pulse ∷ [])
  unfolding reconcile_agent_binding reconcile_ui_binding reconcile_mcp_binding
      reconcile_monitoring_view_binding reconcile_auth_delegator_binding set_binding set_ui_binding
      set_auth_delegator
  only_own_account_is_bound (own the_agent) stored log =
      migrated (IsBound (own the_agent)) _ _ _ stored _ log (
        create_or_update-ok (IsBound (own the_agent)) (unowned answers) stored no_binding _
          (λ old. refl))
  only_own_account_is_bound (own the_ui) stored log =
      migrated (IsBound (own the_ui)) _ _ _ stored _ log
        (create_or_change-ok (IsBound (own the_ui)) (unowned answers) stored _ _ refl (λ old. refl))
  only_own_account_is_bound (own the_mcp_server) stored log =
      migrated (IsBound (own the_mcp_server)) _ _ _ stored _ log (
        create_or_update-ok (IsBound (own the_mcp_server)) (unowned answers) stored no_binding _
          (λ old. refl))
  only_own_account_is_bound monitoring_view stored log =
      create_or_update-ok (IsBound monitoring_view) (unowned answers) stored no_binding _
        (λ old. refl)
  only_own_account_is_bound auth_delegator stored log =
      migrated (IsBound auth_delegator) _ _ _ stored _ log
        (create_or_update-ok (IsBound auth_delegator) (unowned answers) stored _ _ (λ old. refl))
