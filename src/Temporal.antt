-- ===== src/Temporal.antt =====
-- temporal_reconciler.go: the Deployments and Services of the Temporal server and of its Web UI, and
-- the order of the steps.
pub mod Laws
use Prim.Native.String.{◌++◌}
use pulse_operator.Prelude.{
  ℕ, String, false, Option, none, some, List, [], ◌∷◌, ◌==◌, if◌then◌else◌,
}
use pulse_operator.Api.{OpenShiftPulse}
use pulse_operator.Host.{Env}
use pulse_operator.Features.{temporal_enabled, temporal_ui_enabled}
use pulse_operator.Names.{
  temporal_resource_name, temporal_host_for, pg_stateful_set_name, pg_auth_secret_name,
}
use pulse_operator.Image.Choice.{image_from_env}
use pulse_operator.Cluster.{Error}
use pulse_operator.Upsert.{UpsertAnswers, Upserted, create_or_update, stop_or}
use pulse_operator.Agent.Template.{pg_auth_hash_annotation}
use pulse_operator.Workload.{
  EnvVar, set_to, secret_key, field_path, empty_dir, Probe, tcp_socket, Container, recreate,
  Deployment, AppService, no_container_resources, blank_deployment, blank_service, http_port,
  with_template, default_pod_sec_ctx, default_container_sec_ctx, writable_container_sec_ctx,
}

abbrev pub default_temporal_image : String
default_temporal_image = "temporalio/auto-setup:1.25.2"

abbrev pub default_temporal_ui_image : String
default_temporal_ui_image = "temporalio/ui:2.31.2"

unfoldable pub temporal_image : Env → OpenShiftPulse → String
temporal_image getenv pulse =
    if pulse.spec.temporal.image == ""
    then image_from_env getenv "RELATED_IMAGE_TEMPORAL" default_temporal_image
    else pulse.spec.temporal.image

unfoldable pub temporal_ui_image : Env → OpenShiftPulse → String
temporal_ui_image getenv pulse =
    if pulse.spec.temporal.ui_image == ""
    then image_from_env getenv "RELATED_IMAGE_TEMPORAL_UI" default_temporal_ui_image
    else pulse.spec.temporal.ui_image

unfoldable pub temporal_ui_name : OpenShiftPulse → String
temporal_ui_name pulse = temporal_resource_name pulse.meta.name ++ "-ui"

abbrev tcp_probe : ℕ → ℕ → ℕ → ℕ → Probe
tcp_probe port delay period threshold = record {
  handler = tcp_socket port;
  initial_delay_seconds = delay;
  period_seconds = period;
  timeout_seconds = 0;
  failure_threshold = threshold;
}

abbrev pub temporal_config_dir : String
temporal_config_dir = "/etc/temporal/config"

-- The init container that copies the templates of the image into the volume.
unfoldable pub temporal_init_container : String → Container
temporal_init_container image = record {
  name = "config-template";
  image = image;
  command = "sh" ∷ "-c" ∷ ("cp -r " ++ (temporal_config_dir ++ "/. /config-work/")) ∷ [];
  args = [];
  resources = no_container_resources;
  security = default_container_sec_ctx;
  ports = [];
  env = [];
  mounts =
      record {
        name = "temporal-config";
        mount_path = "/config-work";
        sub_path = "";
        read_only = false;
      }
      ∷ [];
  liveness = none;
  readiness = none;
}

unfoldable pub temporal_env_vars : OpenShiftPulse → List EnvVar
temporal_env_vars pulse =
    let auth = pg_auth_secret_name pulse.meta.name in
    set_to "DB" "postgres12"
    ∷ set_to "DB_PORT" "5432"
    ∷ set_to "POSTGRES_SEEDS" (pg_stateful_set_name pulse.meta.name)
    ∷ set_to "DBNAME" "temporal"
    ∷ set_to "VISIBILITY_DBNAME" "temporal_visibility"
    ∷ record { name = "POSTGRES_USER"; value = secret_key auth "POSTGRESQL_USER" }
    ∷ record { name = "POSTGRES_PWD"; value = secret_key auth "POSTGRESQL_PASSWORD" }
    ∷ set_to "BIND_ON_IP" "0.0.0.0"
    ∷ record { name = "TEMPORAL_BROADCAST_ADDRESS"; value = field_path "status.podIP" }
    ∷ []

unfoldable pub temporal_container : OpenShiftPulse → String → Container
unfolding temporal_env_vars
temporal_container pulse image = record {
  name = "temporal";
  image = image;
  command = [];
  args = [];
  resources = no_container_resources;
  security = writable_container_sec_ctx;
  ports = 7233 ∷ [];
  env = temporal_env_vars pulse;
  mounts =
      record {
        name = "temporal-config";
        mount_path = temporal_config_dir;
        sub_path = "";
        read_only = false;
      }
      ∷ [];
  liveness = some (tcp_probe 7233 120 30 6);
  readiness = some (tcp_probe 7233 10 10 30);
}

-- The mutation of the server's Deployment; `cred_hash` is the hash of the credentials' Secret, empty
-- when it cannot be read.
unfoldable pub temporal_deployment : Env → String → OpenShiftPulse → Deployment → Deployment
unfolding temporal_init_container temporal_container temporal_image
temporal_deployment getenv cred_hash pulse old =
    let image = temporal_image getenv pulse in
    let labels = ("app", temporal_resource_name pulse.meta.name) ∷ [] in
    let template = old.spec.template in
    record {
      replicas = some 1;
      spec = record {
        strategy = recreate;
        selector = some labels;
        template = record template {
          labels = labels;
          annotations = (pg_auth_hash_annotation, cred_hash) ∷ [];
          security = default_pod_sec_ctx none;
          init_containers = temporal_init_container image ∷ [];
          containers = temporal_container pulse image ∷ [];
          volumes = record { name = "temporal-config"; source = empty_dir } ∷ [];
        };
      };
    }

unfoldable pub temporal_service : OpenShiftPulse → AppService → AppService
temporal_service pulse old = record old {
  selector = ("app", temporal_resource_name pulse.meta.name) ∷ [];
  ports = http_port "frontend" 7233 ∷ [];
}

unfoldable pub temporal_ui_container : Env → OpenShiftPulse → Container
unfolding temporal_ui_image
temporal_ui_container getenv pulse = record {
  name = "ui";
  image = temporal_ui_image getenv pulse;
  command = [];
  args = [];
  resources = no_container_resources;
  security = writable_container_sec_ctx;
  ports = 8080 ∷ [];
  env =
      set_to "TEMPORAL_ADDRESS" (temporal_host_for pulse.meta.name)
      ∷ set_to "TEMPORAL_UI_PORT" "8080"
      ∷ set_to "TEMPORAL_CORS_ORIGINS" "http://localhost:3000"
      ∷ [];
  mounts =
      record {
        name = "ui-config";
        mount_path = "/home/ui-server/config";
        sub_path = "";
        read_only = false;
      }
      ∷ [];
  liveness = none;
  readiness = some (tcp_probe 8080 5 10 12);
}

unfoldable pub temporal_ui_deployment : Env → OpenShiftPulse → Deployment → Deployment
unfolding temporal_ui_container temporal_ui_name
temporal_ui_deployment getenv pulse old =
    let labels = ("app", temporal_ui_name pulse) ∷ [] in
    let template = old.spec.template in
    let changed = with_template old labels (record template {
      labels = labels;
      security = default_pod_sec_ctx none;
      containers = temporal_ui_container getenv pulse ∷ [];
      volumes = record { name = "ui-config"; source = empty_dir } ∷ [];
    }) in
    record changed { replicas = some 1 }

unfoldable pub temporal_ui_service : OpenShiftPulse → AppService → AppService
unfolding temporal_ui_name
temporal_ui_service pulse old = record old {
  selector = ("app", temporal_ui_name pulse) ∷ [];
  ports = http_port "http" 8080 ∷ [];
}

module _ (answers : UpsertAnswers) (getenv : Env) (pulse : OpenShiftPulse) where
  unfoldable pub reconcile_temporal_deployment : String → Option Deployment → Upserted Deployment
  reconcile_temporal_deployment cred_hash stored =
      create_or_update answers blank_deployment (temporal_deployment getenv cred_hash pulse) stored

  unfoldable pub reconcile_temporal_service : Option AppService → Upserted AppService
  reconcile_temporal_service stored =
      create_or_update answers blank_service (temporal_service pulse) stored

  unfoldable pub reconcile_temporal_ui_deployment : Option Deployment → Upserted Deployment
  reconcile_temporal_ui_deployment stored =
      create_or_update answers blank_deployment (temporal_ui_deployment getenv pulse) stored

  unfoldable pub reconcile_temporal_ui_service : Option AppService → Upserted AppService
  reconcile_temporal_ui_service stored =
      create_or_update answers blank_service (temporal_ui_service pulse) stored

-- The errors of the steps of reconcileTemporal, the last two those of reconcileUI.
pub record TemporalErrors : Type 0 where
  pub deployment : Option Error
  pub service : Option Error
  pub network_policy : Option Error
  pub ui_deployment : Option Error
  pub ui_service : Option Error

unfoldable pub reconcile_temporal : OpenShiftPulse → TemporalErrors → Option Error
reconcile_temporal pulse errors =
    let ui =
      stop_or "temporal ui" errors.ui_deployment (stop_or "temporal ui" errors.ui_service none) in
    if temporal_enabled pulse
    then stop_or "temporal deployment" errors.deployment (
        stop_or "temporal service" errors.service (
          stop_or "temporal network policy" errors.network_policy
            (if temporal_ui_enabled pulse then ui else none)))
    else none
