-- ===== src/Tests/ServerTests.antt =====
-- Witnesses for the MCP server, Temporal, the Services, nginx, the bindings, the memory metrics and
-- the hash of a Secret.
use pulse_operator.Prelude.{
  ℕ, String, Bool, true, false, Option, none, some, List, [], ◌∷◌, Dict, lookup, text_at, ◌==◌, ◌≡◌,
  ◌≢◌, refl, arith, if◌then◌else◌, eq_iff,
}
use pulse_operator.Api.{OpenShiftPulse}
use pulse_operator.Cluster.{
  Cluster, not_found, other, found, failed, is_not_found, status_not_found,
}
use pulse_operator.Image.Tag.{take}
use pulse_operator.Workload.{Deployment, blank_deployment, blank_service}
use pulse_operator.Upsert.{
  UpsertAnswers, create_or_update, create_or_change, after_read, write_unless,
}
use pulse_operator.Mcp.Config.{
  wanted_toolsets, build_mcp_config_toml, split, trimmed, trim_space, trim_left, trim_right,
  is_space, prints,
}
use pulse_operator.Mcp.ConfigLaws.{all_print, commas, no_comma, read_toolsets, toolsets_read_back}
use pulse_operator.Mcp.Server.{
  mcp_config_hash_annotation, reconcile_mcp_config, reconcile_mcp_deployment, reconcile_mcp_service,
}
use pulse_operator.Mcp.Sequence.{McpAnswers, McpObjects, reconcile_mcp, config_change_rolls_out}
use pulse_operator.Agent.Deployment.{is_mismatched}
use pulse_operator.Names.{agent_resource_name}
use pulse_operator.Endpoints.{
  LeadsTo, agent as agent_pods, service_of, spec_of, services_lead_to_pods,
}
use pulse_operator.Metrics.PodMemory.{
  PodSample, observed_memory, largest_total, observed_memory-largest, pod_total, quantity, plus,
}
use pulse_operator.Postgres.Hash.{hash_secret_data}
use pulse_operator.Postgres.Hash.Order.{swap, hash_ignores_order}
use pulse_operator.Temporal.{reconcile_temporal_deployment}
use pulse_operator.Temporal.Laws.{temporal_drops_restart}
use pulse_operator.Agent.Template.{pg_auth_hash_annotation}
use pulse_operator.Pods.{restarted_at_annotation}
use pulse_operator.Cluster.Removal.{delete_stale, delete_if, ignore_not_found, wrap_error}
use pulse_operator.Rbac.Bindings.{
  ClusterRoleBinding, account_of, after_migration, reconcile_auth_delegator_binding,
}
use pulse_operator.Rbac.BindingLaws.{
  auth_delegator, account_name, reconcile_binding, only_own_account_is_bound,
}
use pulse_operator.Ui.Template.{ui_deployment_spec}
use pulse_operator.Ui.Nginx.{
  NginxAnswers, NginxPass, ws_token, wanted_conf, after_write, remove_stale_config_map,
  reconcile_ui_nginx_config_map,
}
use pulse_operator.Ui.NginxLaws.{nginx_hash_annotation, nginx_pass_settles}
use pulse_operator.Tests.Sample.{cr, spec, agent, host}

abbrev is_print : ℕ → Bool
is_print c = false

-- A digest for the tests: the text itself.
abbrev digest : String → String
digest text = text

-- The sample with the MCP server on and two toolsets.
abbrev with_mcp : OpenShiftPulse
with_mcp = record cr {
  spec = record spec {
    agent = record agent { mcp = record { enabled = true; image = ""; toolsets = "core,helm" } };
  };
}

-- Nothing is there yet, and every call succeeds.
abbrev fresh : UpsertAnswers
fresh = record { read_error = some not_found; owner_error = none; write_error = none }

abbrev again : UpsertAnswers
again = record fresh { read_error = none }

toolsets_of_sample : wanted_toolsets with_mcp ≡ "core" ∷ "helm" ∷ []
unfolding wanted_toolsets split trimmed trim_space trim_left trim_right is_space
toolsets_of_sample = refl

toolsets_read_back_example :
    read_toolsets (build_mcp_config_toml is_print with_mcp) ≡ some ("core" ∷ "helm" ∷ [])
unfolding commas no_comma trim_space trim_left trim_right is_space all_print prints
toolsets_read_back_example =
    toolsets_read_back is_print with_mcp "core" ("helm" ∷ []) refl
      ((refl, refl, refl, refl), ((refl, refl, refl, refl), tt))

abbrev mcp_answers : McpAnswers
mcp_answers = record {
  account = none;
  role = none;
  binding = none;
  config = fresh;
  deployment = fresh;
  service = fresh;
  network_policy = none;
}

abbrev nothing : McpObjects
nothing = record { config = none; deployment = none; service = none }

config_change_rolls_out_example :
    ((reconcile_mcp is_print digest host.getenv mcp_answers with_mcp nothing).1.config
      ≡ some (("config.toml", build_mcp_config_toml is_print with_mcp) ∷ []))
    × (after : Deployment) × ((reconcile_mcp is_print digest host.getenv mcp_answers with_mcp
          nothing).1.deployment
        ≡ some after)
    × (lookup mcp_config_hash_annotation after.spec.template.annotations
        ≡ some (take 8 (digest (build_mcp_config_toml is_print with_mcp))))
unfolding reconcile_mcp reconcile_mcp_config reconcile_mcp_deployment reconcile_mcp_service
    create_or_update create_or_change after_read write_unless is_not_found status_not_found
config_change_rolls_out_example =
    config_change_rolls_out is_print digest host.getenv mcp_answers with_mcp nothing refl refl

-- The agent's Deployment under a selector of two labels.
abbrev stored_agent : Deployment
stored_agent = record blank_deployment {
  spec = record (blank_deployment.spec) {
    selector = some (("app", agent_resource_name cr.meta.name) ∷ ("team", "sre") ∷ []);
  };
}

services_lead_to_pods_example :
    LeadsTo
      (service_of cr agent_pods blank_service)
      (spec_of (λ n. "2") (λ t. t) host.getenv "h" none false cr agent_pods stored_agent)
unfolding is_mismatched agent_resource_name text_at lookup
services_lead_to_pods_example =
    services_lead_to_pods (λ n. "2") (λ t. t) host.getenv "h" none false cr agent_pods blank_service
      stored_agent refl

-- A quantity with as many bytes as its text is long, for the tests.
abbrev parse : String → Option ℕ
parse text = if text == "" then none else some 1048576

abbrev samples : List PodSample
samples = some (some "1Mi" ∷ none ∷ some "1Mi" ∷ []) ∷ none ∷ some (some "1Mi" ∷ []) ∷ []

observed_memory-largest_example : observed_memory parse (some samples) ≡ largest_total parse samples
unfolding pod_total quantity plus
observed_memory-largest_example = observed_memory-largest parse samples (omega arith)

names_differ : ◌≢◌ {A = String} "USER" "PASSWORD"
names_differ = ground (arith, eq_iff "USER" "PASSWORD")

hash_ignores_order_example :
    hash_secret_data digest (("USER", "pulse") ∷ ("PASSWORD", "x") ∷ [])
    ≡ hash_secret_data digest (("PASSWORD", "x") ∷ ("USER", "pulse") ∷ [])
hash_ignores_order_example =
    hash_ignores_order digest (swap "USER" "pulse" "PASSWORD" "x" [] names_differ)

temporal_drops_restart_example :
    (after : Deployment) × ((reconcile_temporal_deployment fresh host.getenv cr "h" none).1
      ≡ some after)
    × (lookup restarted_at_annotation after.spec.template.annotations ≡ none)
    × (lookup pg_auth_hash_annotation after.spec.template.annotations ≡ some "h")
unfolding reconcile_temporal_deployment create_or_update after_read write_unless is_not_found
    status_not_found
temporal_drops_restart_example = temporal_drops_restart fresh host.getenv cr "h" none refl

abbrev no_cluster : Cluster
no_cluster = record { on_get = λ log ref. failed not_found; on_write = λ log call. none }

-- A binding that someone gave another subject and another role.
abbrev drifted : ClusterRoleBinding
drifted = record {
  annotations = [];
  subjects = record { name = "intruder"; namespace = "default" } ∷ [];
  role = "cluster-admin";
}

only_own_account_is_bound_example :
    (after : ClusterRoleBinding) × ((reconcile_binding no_cluster again cr auth_delegator
        (some drifted)
        []).0.1
      ≡ some after)
    × (after.subjects ≡ account_of (account_name auth_delegator cr) cr ∷ [])
unfolding reconcile_auth_delegator_binding after_migration delete_stale delete_if ignore_not_found
    wrap_error create_or_update after_read write_unless is_not_found status_not_found
only_own_account_is_bound_example =
    only_own_account_is_bound no_cluster again cr auth_delegator (some drifted) [] refl

-- The token is there; or the read of it times out.
abbrev with_token : NginxAnswers
with_token = record { token = found (("token", "t0") ∷ []); write = fresh; delete_error = none }

abbrev without_token : NginxAnswers
without_token = record { token = failed (other "timeout"); write = again; delete_error = none }

abbrev nginx_pass : NginxAnswers → Option (Dict String) → Bool → NginxPass
nginx_pass answers secret stale =
    reconcile_ui_nginx_config_map host (λ t. t) (λ t. none) digest answers cr secret stale

nginx_pass_settles_example :
    ((nginx_pass with_token none true).secret
      ≡ some (
          (
            "nginx.conf",
            wanted_conf host (λ t. t) (λ t. none) digest (ws_token with_token.token) cr,
          )
          ∷ []))
    × ((nginx_pass with_token none true).stale ≡ false)
    × (lookup nginx_hash_annotation
          (ui_deployment_spec
            (λ t. t)
            host.getenv
            cr
            none
            (nginx_pass with_token none true).hash
            []).1.template.annotations
        ≡ some (
            take 8 (
              digest
                (wanted_conf host (λ t. t) (λ t. none) digest (ws_token with_token.token) cr))))
unfolding reconcile_ui_nginx_config_map create_or_update after_read write_unless is_not_found
    status_not_found after_write remove_stale_config_map
nginx_pass_settles_example =
    nginx_pass_settles host (λ t. t) (λ t. none) digest with_token cr none true host.getenv none []
      refl
