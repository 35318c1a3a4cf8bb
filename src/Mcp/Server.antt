-- ===== src/Mcp/Server.antt =====
-- The objects of the MCP server: reconcileMCPServiceAccount, reconcileMCPConfig,
-- reconcileMCPDeployment and reconcileMCPService.
use pulse_operator.Prelude.{
  ℕ, String, Bool, true, false, Option, none, some, [], ◌∷◌, Dict, insert, ◌==◌, if◌then◌else◌,
}
use pulse_operator.Api.{OpenShiftPulse, Resources}
use pulse_operator.Host.{Env}
use pulse_operator.Names.{mcp_resource_name, mcp_config_name}
use pulse_operator.Image.Choice.{image_from_env}
use pulse_operator.Workload.{
  from_config_map, Probe, http_get, Container, Deployment, AppService, blank_deployment,
  blank_service, http_port, with_template, default_pod_sec_ctx, default_container_sec_ctx,
}
use pulse_operator.Upsert.{UpsertAnswers, Upserted, create_or_update, create_or_change}
use pulse_operator.Image.Tag.{take}
use pulse_operator.Mcp.Config.{build_mcp_config_toml}

abbrev pub default_mcp_server_image : String
default_mcp_server_image = "quay.io/amobrem/pulse-agent:mcp-server"

abbrev pub mcp_config_hash_annotation : String
mcp_config_hash_annotation = "pulse.ai/mcp-config-hash"

-- A ServiceAccount is its annotations; the operator sets none of the MCP server's.
unfoldable pub reconcile_mcp_service_account :
    UpsertAnswers → Option (Dict String) → Upserted (Dict String)
reconcile_mcp_service_account answers stored = create_or_update answers [] (λ old. old) stored

unfoldable pub mcp_image : Env → OpenShiftPulse → String
mcp_image getenv pulse =
    if pulse.spec.agent.mcp.image == ""
    then image_from_env getenv "RELATED_IMAGE_MCP_SERVER" default_mcp_server_image
    else pulse.spec.agent.mcp.image

unfoldable pub mcp_resources : Resources
mcp_resources = record {
  requests = some (("memory", 134217728) ∷ []);
  limits = some (("memory", 536870912) ∷ []);
}

abbrev healthz : ℕ → ℕ → Probe
healthz delay period = record {
  handler = http_get "/healthz" 8081 false;
  initial_delay_seconds = delay;
  period_seconds = period;
  timeout_seconds = 0;
  failure_threshold = 0;
}

unfoldable pub mcp_container : Env → OpenShiftPulse → Container
unfolding mcp_image mcp_resources
mcp_container getenv pulse = record {
  name = "mcp-server";
  image = mcp_image getenv pulse;
  command = [];
  args = "--config=/etc/mcp/config.toml" ∷ [];
  resources = mcp_resources;
  security = default_container_sec_ctx;
  ports = 8081 ∷ [];
  env = [];
  mounts =
      record { name = "config"; mount_path = "/etc/mcp"; sub_path = ""; read_only = true } ∷ [];
  liveness = some (healthz 15 20);
  readiness = some (healthz 5 10);
}

-- The mutation of the Deployment; replicas, strategy and the other annotations stay.
unfoldable pub mcp_deployment : Env → OpenShiftPulse → String → Deployment → Deployment
unfolding mcp_container
mcp_deployment getenv pulse config_hash old =
    let name = mcp_resource_name pulse.meta.name in
    let template = old.spec.template in
    with_template old (("app", name) ∷ []) (record template {
      labels = ("app", name) ∷ [];
      annotations = insert mcp_config_hash_annotation config_hash template.annotations;
      service_account = name;
      security = default_pod_sec_ctx none;
      containers = mcp_container getenv pulse ∷ [];
      volumes =
          record { name = "config"; source = from_config_map (mcp_config_name pulse.meta.name) }
          ∷ [];
    })

unfoldable pub reconcile_mcp_deployment :
    Env → UpsertAnswers → OpenShiftPulse → String → Option Deployment → Upserted Deployment
unfolding mcp_deployment
reconcile_mcp_deployment getenv answers pulse config_hash stored =
    create_or_update answers blank_deployment (mcp_deployment getenv pulse config_hash) stored

-- `sha256` is the digest of a text in hexadecimal digits, of which the first eight are kept.
module _ (is_print : ℕ → Bool) (sha256 : String → String) where
  -- The hash, and the keys of the ConfigMap.
  unfoldable pub reconcile_mcp_config :
      UpsertAnswers → OpenShiftPulse → Option (Dict String) → String × Upserted (Dict String)
  reconcile_mcp_config answers pulse stored =
      let toml = build_mcp_config_toml is_print pulse in
      (take 8 (sha256 toml), create_or_update answers [] (λ old. ("config.toml", toml) ∷ []) stored)

unfoldable pub mcp_service : OpenShiftPulse → AppService → AppService
mcp_service pulse old = record old {
  selector = ("app", mcp_resource_name pulse.meta.name) ∷ [];
  ports = http_port "http" 8081 ∷ [];
}

unfoldable pub reconcile_mcp_service :
    UpsertAnswers → OpenShiftPulse → Option AppService → Upserted AppService
unfolding mcp_service
reconcile_mcp_service answers pulse stored =
    create_or_change answers (mcp_service pulse blank_service) (mcp_service pulse) stored
