-- ===== src/Mcp/Sequence.antt =====
-- reconcileMCP: the order of the steps, and the hash that ties the Deployment to the configuration.
use pulse_operator.Prelude.{
  ℕ, String, Bool, true, Option, none, some, [], ◌∷◌, Dict, lookup, lookup-insert, if◌then◌else◌,
  ◌≡◌, refl, sym, ap, ◌∙◌, arith, Option-cases, inl, inr,
}
use pulse_operator.Api.{OpenShiftPulse}
use pulse_operator.Host.{Env}
use pulse_operator.Cluster.{Error, wrap}
use pulse_operator.Image.Tag.{take}
use pulse_operator.Workload.{Deployment, AppService, blank_deployment}
use pulse_operator.Upsert.{UpsertAnswers, create_or_update-ok, stop_or}
use pulse_operator.Mcp.Config.{build_mcp_config_toml}
use pulse_operator.Mcp.Server.{
  mcp_config_hash_annotation, mcp_deployment, reconcile_mcp_config, reconcile_mcp_deployment,
  reconcile_mcp_service,
}

-- The answers to the calls of the steps; those of the account, the role and the binding come as the
-- error of their step, and so does that of the network policy.
pub record McpAnswers : Type 0 where
  pub account : Option Error
  pub role : Option Error
  pub binding : Option Error
  pub config : UpsertAnswers
  pub deployment : UpsertAnswers
  pub service : UpsertAnswers
  pub network_policy : Option Error

-- The keys of the ConfigMap, the Deployment and the Service.
pub record McpObjects : Type 0 where
  pub config : Option (Dict String)
  pub deployment : Option Deployment
  pub service : Option AppService

-- The rest of the steps, unless this one failed.
unfoldable pub unless_failed :
    String → Option Error → McpObjects → Option Error × McpObjects → Option Error × McpObjects
unless_failed text none after rest = rest
unless_failed text (some e) after rest = (some (wrap text e), after)

unless_failed-ok :
    (text : String) (error : Option Error) (after : McpObjects) (rest : Option Error × McpObjects)
    → (unless_failed text error after rest).0 ≡ none
    → (error ≡ none) × (unless_failed text error after rest ≡ rest)
unfolding unless_failed
unless_failed-ok text none after rest h = (refl, refl)
unless_failed-ok text (some e) after rest h = absurd (ground (arith, h))

module _ (is_print : ℕ → Bool) (sha256 : String → String) (getenv : Env) (answers : McpAnswers)
    (pulse : OpenShiftPulse) where
  -- From the ConfigMap on.
  unfoldable pub mcp_from_service : McpObjects → Option Error × McpObjects
  mcp_from_service objects =
      let (error, service) = reconcile_mcp_service answers.service pulse objects.service in
      let after = record objects { service = service } in
      (stop_or "MCP Service" error (stop_or "MCP NetworkPolicy" answers.network_policy none), after)

  unfoldable pub mcp_from_deployment : String → McpObjects → Option Error × McpObjects
  unfolding mcp_from_service unless_failed
  mcp_from_deployment hash objects =
      let (error, deployment) =
        reconcile_mcp_deployment getenv answers.deployment pulse hash objects.deployment in
      let after = record objects { deployment = deployment } in
      unless_failed "MCP Deployment" error after (mcp_from_service after)

  unfoldable pub mcp_from_config : McpObjects → Option Error × McpObjects
  unfolding mcp_from_deployment unless_failed
  mcp_from_config objects =
      let (hash, written) =
        reconcile_mcp_config is_print sha256 answers.config pulse objects.config in
      let after = record objects { config = written.1 } in
      unless_failed "MCP ConfigMap" written.0 after (mcp_from_deployment hash after)

  unfoldable pub reconcile_mcp : McpObjects → Option Error × McpObjects
  unfolding mcp_from_config
  reconcile_mcp objects =
      let before = stop_or "MCP ServiceAccount" answers.account (
        stop_or "MCP ClusterRole" answers.role
          (stop_or "MCP ClusterRoleBinding" answers.binding none)) in
      let rest = mcp_from_config objects in
      if pulse.spec.agent.mcp.enabled
      then (elim before [ some e ↦ (some e, objects) | none ↦ rest ])
      else (none, objects)

  -- A pod template that carries the hash.
  abbrev pub HashIs : String → Deployment → Type 0
  HashIs hash deployment =
      lookup mcp_config_hash_annotation deployment.spec.template.annotations ≡ some hash

  carries_hash :
      (hash : String) (old : Deployment) → HashIs hash (mcp_deployment getenv pulse hash old)
  unfolding mcp_deployment
  carries_hash hash old =
      lookup-insert mcp_config_hash_annotation mcp_config_hash_annotation hash
        old.spec.template.annotations

  deployment-HashIs :
      (hash : String) (stored : Option Deployment)
      → (reconcile_mcp_deployment getenv answers.deployment pulse hash stored).0 ≡ none
      → (after : Deployment) × ((reconcile_mcp_deployment getenv answers.deployment pulse hash
            stored).1
          ≡ some after)
        × HashIs hash after
  unfolding reconcile_mcp_deployment
  deployment-HashIs hash stored =
      create_or_update-ok (HashIs hash) answers.deployment stored blank_deployment _
        (carries_hash hash)

  from_deployment-HashIs :
      (hash : String) (objects : McpObjects)
      → (mcp_from_deployment hash objects).0 ≡ none
      → ((mcp_from_deployment hash objects).1.config ≡ objects.config)
        × (after : Deployment) × ((mcp_from_deployment hash objects).1.deployment ≡ some after)
        × HashIs hash after
  unfolding mcp_from_deployment mcp_from_service
  from_deployment-HashIs hash objects h =
      let (fine, same) = unless_failed-ok "MCP Deployment" _ _ _ h in
      let (after, at, carried) = deployment-HashIs hash objects.deployment fine in
      (ap (λ r. r.1.config) same, after, ap (λ r. r.1.deployment) same ∙ at, carried)

  from_config-HashIs :
      (objects : McpObjects)
      → (mcp_from_config objects).0 ≡ none
      → ((mcp_from_config objects).1.config
          ≡ some (("config.toml", build_mcp_config_toml is_print pulse) ∷ []))
        × (after : Deployment) × ((mcp_from_config objects).1.deployment ≡ some after)
        × HashIs (take 8 (sha256 (build_mcp_config_toml is_print pulse))) after
  unfolding mcp_from_config reconcile_mcp_config
  from_config-HashIs objects h =
      let toml = build_mcp_config_toml is_print pulse in
      let (fine, same) = unless_failed-ok "MCP ConfigMap" _ _ _ h in
      let (keys, at, stored) =
        create_or_update-ok (λ keys. keys ≡ ("config.toml", toml) ∷ []) answers.config
          objects.config [] (λ old. ("config.toml", toml) ∷ []) (λ old. refl) fine in
      let rest = from_deployment-HashIs (take 8 (sha256 toml)) _ (ap (λ r. r.0) (sym same) ∙ h) in
      (
        ap (λ r. r.1.config) same ∙ (rest.0 ∙ (at ∙ ap some stored)),
        rest.1,
        ap (λ r. r.1.deployment) same ∙ rest.2,
        rest.3,
      )

  -- A pass that leaves the MCP server on and ends without an error has stored the rendered
  -- configuration, and left a Deployment whose pods carry the hash of just that configuration: a
  -- change of the configuration with another hash rolls the pods out.
  pub config_change_rolls_out :
      (objects : McpObjects)
      → pulse.spec.agent.mcp.enabled ≡ true
      → (reconcile_mcp objects).0 ≡ none
      → ((reconcile_mcp objects).1.config
          ≡ some (("config.toml", build_mcp_config_toml is_print pulse) ∷ []))
        × (after : Deployment) × ((reconcile_mcp objects).1.deployment ≡ some after)
        × (lookup mcp_config_hash_annotation after.spec.template.annotations
            ≡ some (take 8 (sha256 (build_mcp_config_toml is_print pulse))))
  unfolding reconcile_mcp
  config_change_rolls_out objects on h =
      let before = stop_or "MCP ServiceAccount" answers.account (
        stop_or "MCP ClusterRole" answers.role
          (stop_or "MCP ClusterRoleBinding" answers.binding none)) in
      elim (Option-cases before) [
        | inl fine ↦
            let same : reconcile_mcp objects ≡ mcp_from_config objects = ground (arith, on, fine) in
            let rest = from_config-HashIs objects (ap (λ r. r.0) (sym same) ∙ h) in
            (
              ap (λ r. r.1.config) same ∙ rest.0,
              rest.1,
              ap (λ r. r.1.deployment) same ∙ rest.2,
              rest.3,
            )
        | inr (e, bad) ↦ absurd (ground (arith, on, bad, h))
      ]
