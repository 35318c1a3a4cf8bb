-- ===== src/Temporal/Laws.antt =====
-- What a pass over the Temporal server's Deployment does to a restart that a user asked for.
use pulse_operator.Prelude.{
  String, Option, none, some, [], ◌∷◌, lookup, lookup-insert, ◌≡◌, refl, ap,
}
use pulse_operator.Api.{OpenShiftPulse}
use pulse_operator.Host.{Env}
use pulse_operator.Pods.{restarted_at_annotation}
use pulse_operator.Agent.Template.{pg_auth_hash_annotation}
use pulse_operator.Workload.{Deployment, blank_deployment}
use pulse_operator.Upsert.{UpsertAnswers, create_or_update-ok}
use pulse_operator.Mcp.Server.{mcp_deployment}
use pulse_operator.Temporal.{temporal_deployment, reconcile_temporal_deployment}

-- A pass over the Temporal server's Deployment without an error leaves no restart annotation in the
-- pod template, whatever the template carried, and the hash of the credentials that the pass read.
pub temporal_drops_restart :
    (answers : UpsertAnswers) (getenv : Env) (pulse : OpenShiftPulse) (cred_hash : String)
    (stored : Option Deployment)
    → (reconcile_temporal_deployment answers getenv pulse cred_hash stored).0 ≡ none
    → (after : Deployment) × ((reconcile_temporal_deployment answers getenv pulse cred_hash
          stored).1
        ≡ some after)
      × (lookup restarted_at_annotation after.spec.template.annotations ≡ none)
      × (lookup pg_auth_hash_annotation after.spec.template.annotations ≡ some cred_hash)
unfolding reconcile_temporal_deployment temporal_deployment lookup
temporal_drops_restart answers getenv pulse cred_hash stored h =
    let (after, at, kept) =
      create_or_update-ok
        (λ after. after.spec.template.annotations ≡ (pg_auth_hash_annotation, cred_hash) ∷ [])
        answers stored blank_deployment (temporal_deployment getenv cred_hash pulse) (λ old. refl)
        h in
    (after, at, ap (lookup restarted_at_annotation) kept, ap (lookup pg_auth_hash_annotation) kept)

-- The MCP server's Deployment keeps the annotation.
pub mcp_keeps_restart :
    (getenv : Env) (pulse : OpenShiftPulse) (config_hash : String) (old : Deployment)
    → lookup restarted_at_annotation
        (mcp_deployment getenv pulse config_hash old).spec.template.annotations
      ≡ lookup restarted_at_annotation old.spec.template.annotations
unfolding mcp_deployment
mcp_keeps_restart getenv pulse config_hash old =
    lookup-insert "pulse.ai/mcp-config-hash" restarted_at_annotation config_hash
      old.spec.template.annotations
