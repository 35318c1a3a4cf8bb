-- ===== src/Agent/Environment.antt =====
-- The environment of the agent's container in buildDeploymentSpec.
use Prim.Native.String.{◌++◌ as add}
use mathlib.Core.List.{◌++◌}
use pulse_operator.Prelude.{ℕ, String, Option, none, some, List, [], ◌∷◌, ◌==◌, if◌then◌else◌}
use pulse_operator.Api.{OpenShiftPulse, VertexAiConfig}
use pulse_operator.Features.{database_enabled, temporal_enabled, render_enabled, default_false}
use pulse_operator.Names.{
  ws_token_secret_name, mcp_service_url, temporal_host_for, render_service_url,
  render_token_secret_name,
}
use pulse_operator.Detection.{ClusterInfo}
use pulse_operator.Workload.{EnvVar, secret_key, set_to}

abbrev from_key : String → String → String → EnvVar
from_key name secret key = record { name = name; value = secret_key secret key }

-- strconv.Itoa is an argument.
module _ (itoa : ℕ → String) (cr : OpenShiftPulse) where
  unfoldable pub base_env : List EnvVar
  base_env =
      from_key "PULSE_AGENT_WS_TOKEN" (ws_token_secret_name cr.meta.name) "token"
      ∷ set_to "PULSE_AGENT_TRUST_LEVEL" (itoa cr.spec.agent.trust_level)
      ∷ set_to "PULSE_AGENT_MAX_TRUST_LEVEL" (itoa cr.spec.agent.trust_level)
      ∷ []

  unfoldable pub admin_env : List EnvVar
  admin_env =
      if cr.spec.agent.admin_users == ""
      then []
      else set_to "PULSE_AGENT_ADMIN_USERS" cr.spec.agent.admin_users ∷ []

  unfoldable pub vertex_env : VertexAiConfig → List EnvVar
  vertex_env vertex =
      let region = if vertex.region == "" then "us-east5" else vertex.region in
      set_to "ANTHROPIC_VERTEX_PROJECT_ID" vertex.project_id
      ∷ set_to "CLOUD_ML_REGION" region
      ∷ (if vertex.credential_secret == ""
          then []
          else set_to "GOOGLE_APPLICATION_CREDENTIALS" "/var/secrets/google/key.json" ∷ [])

  unfoldable pub api_key_env : List EnvVar
  api_key_env = elim cr.spec.anthropic_api_key [
    | none ↦ []
    | some key ↦
        if key.existing_secret == ""
        then []
        else from_key "ANTHROPIC_API_KEY" key.existing_secret "ANTHROPIC_API_KEY" ∷ []
  ]

  unfoldable pub backend_env : List EnvVar
  unfolding vertex_env api_key_env
  backend_env = elim cr.spec.vertex_ai [
    | none ↦ api_key_env
    | some vertex ↦ if vertex.project_id == "" then api_key_env else vertex_env vertex
  ]

  unfoldable pub database_env : List EnvVar
  database_env =
      if database_enabled cr
      then from_key "PULSE_AGENT_DATABASE_URL" (add cr.meta.name "-postgresql") "database-url" ∷ []
      else []

  unfoldable pub mcp_env : List EnvVar
  mcp_env =
      if cr.spec.agent.mcp.enabled
      then set_to "PULSE_MCP_URL" (mcp_service_url cr.meta.name) ∷ []
      else []

  unfoldable pub temporal_env : List EnvVar
  temporal_env =
      if temporal_enabled cr
      then set_to "PULSE_AGENT_TEMPORAL_HOST" (temporal_host_for cr.meta.name) ∷ []
      else []

  unfoldable pub render_env : List EnvVar
  render_env =
      if render_enabled cr
      then set_to "PULSE_AGENT_RENDER_URL" (render_service_url cr.meta.name)
        ∷ from_key "PULSE_AGENT_RENDER_TOKEN" (render_token_secret_name cr.meta.name) "token"
        ∷ []
      else []

  unfoldable pub autofix_env : List EnvVar
  autofix_env =
      if default_false cr.spec.agent.durable_auto_fix
      then set_to "PULSE_AGENT_DURABLE_AUTOFIX" "true" ∷ []
      else []

  unfoldable pub acm_env : Option ClusterInfo → List EnvVar
  acm_env none = []
  acm_env (some info) =
      if info.acm_available
      then set_to "PULSE_AGENT_ACM_THANOS_ENABLED" "true"
        ∷ (if info.acm_thanos_url == ""
            then []
            else set_to "PULSE_AGENT_ACM_THANOS_URL" info.acm_thanos_url ∷ [])
      else []

  unfoldable pub agent_env : Option ClusterInfo → List EnvVar
  unfolding base_env admin_env backend_env database_env mcp_env temporal_env render_env autofix_env
      acm_env
  agent_env info =
      base_env
      ++ (admin_env
          ++ (backend_env
              ++ (database_env
                  ++ (mcp_env ++ (temporal_env ++ (render_env ++ (autofix_env ++ acm_env info)))))))
