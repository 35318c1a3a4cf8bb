-- ===== src/Render.antt =====
-- render_reconciler.go: the render service's token, Deployment and Service, and the order of the
-- steps.
use Prim.Native.String.{◌++◌}
use pulse_operator.Prelude.{
  ℕ, String, Bool, true, false, Option, none, some, [], ◌∷◌, Dict, ◌==◌, ◌&&◌, if◌then◌else◌,
}
use pulse_operator.Api.{OpenShiftPulse, Resources}
use pulse_operator.Host.{Env}
use pulse_operator.Features.{render_enabled}
use pulse_operator.Names.{ui_resource_name, render_resource_name, render_token_secret_name}
use pulse_operator.Image.Choice.{image_from_env}
use pulse_operator.Cluster.{Error, Got}
use pulse_operator.Upsert.{UpsertAnswers, Upserted, create_or_update, stop_or}
use pulse_operator.Agent.Sequence.{OnceAnswers, create_once}
use pulse_operator.Workload.{
  set_to, secret_key, empty_dir, memory_dir, Probe, http_get, Container, Deployment, AppService,
  blank_deployment, blank_service, http_port, with_template, default_pod_sec_ctx,
  default_container_sec_ctx,
}

abbrev pub default_render_image : String
default_render_image = "quay.io/amobrem/openshiftpulse-render:latest"

unfoldable pub render_ui_url : String → String
render_ui_url cr_name = "http://" ++ (ui_resource_name cr_name ++ ":8081")

unfoldable pub resolved_render_image : Env → OpenShiftPulse → String
resolved_render_image getenv pulse =
    if pulse.spec.render.image == ""
    then image_from_env getenv "RELATED_IMAGE_RENDER" default_render_image
    else pulse.spec.render.image

-- `len(m) == 0`
abbrev is_empty : Option (Dict ℕ) → Bool
is_empty none = true
is_empty (some []) = true
is_empty (some (entry ∷ rest)) = false

unfoldable pub render_resources : OpenShiftPulse → Resources
render_resources pulse =
    let given = pulse.spec.render.resources in
    if is_empty given.requests && is_empty given.limits
    then record {
      requests = some (("cpu", 100) ∷ ("memory", 268435456) ∷ []);
      limits = some (("memory", 1073741824) ∷ []);
    }
    else given

-- The shared token of the agent and the render service, under "token": created once.
unfoldable pub reconcile_render_token_secret :
    OnceAnswers → Got String → Option String → Option Error × Option String
unfolding create_once
reconcile_render_token_secret answers token stored = create_once answers token stored

abbrev healthz : ℕ → Probe
healthz delay = record {
  handler = http_get "/healthz" 8090 false;
  initial_delay_seconds = delay;
  period_seconds = 10;
  timeout_seconds = 0;
  failure_threshold = 0;
}

unfoldable pub render_container : Env → OpenShiftPulse → Container
unfolding resolved_render_image render_resources render_ui_url
render_container getenv pulse = record {
  name = "render";
  image = resolved_render_image getenv pulse;
  command = [];
  args = [];
  resources = render_resources pulse;
  security = default_container_sec_ctx;
  ports = 8090 ∷ [];
  env =
      set_to "PORT" "8090"
      ∷ set_to "UI_URL" (render_ui_url pulse.meta.name)
      ∷ set_to "MAX_CONCURRENT" "2"
      ∷ set_to "RENDER_TIMEOUT_MS" "30000"
      ∷ record {
        name = "RENDER_TOKEN";
        value = secret_key (render_token_secret_name pulse.meta.name) "token";
      }
      ∷ [];
  mounts =
      record { name = "tmp"; mount_path = "/tmp"; sub_path = ""; read_only = false }
      ∷ record { name = "dshm"; mount_path = "/dev/shm"; sub_path = ""; read_only = false }
      ∷ [];
  liveness = some (healthz 20);
  readiness = some (healthz 5);
}

unfoldable pub render_deployment : Env → OpenShiftPulse → Deployment → Deployment
unfolding render_container
render_deployment getenv pulse old =
    let labels = ("app", render_resource_name pulse.meta.name) ∷ [] in
    let template = old.spec.template in
    let changed = with_template old labels (record template {
      labels = labels;
      automount_token = some false;
      security = default_pod_sec_ctx none;
      containers = render_container getenv pulse ∷ [];
      volumes =
          record { name = "tmp"; source = empty_dir }
          ∷ record { name = "dshm"; source = memory_dir }
          ∷ [];
    }) in
    record changed { replicas = some 1 }

unfoldable pub render_service : OpenShiftPulse → AppService → AppService
render_service pulse old = record old {
  selector = ("app", render_resource_name pulse.meta.name) ∷ [];
  ports = http_port "http" 8090 ∷ [];
}

module _ (answers : UpsertAnswers) (getenv : Env) (pulse : OpenShiftPulse) where
  unfoldable pub reconcile_render_deployment : Option Deployment → Upserted Deployment
  reconcile_render_deployment stored =
      create_or_update answers blank_deployment (render_deployment getenv pulse) stored

  unfoldable pub reconcile_render_service : Option AppService → Upserted AppService
  reconcile_render_service stored =
      create_or_update answers blank_service (render_service pulse) stored

pub record RenderErrors : Type 0 where
  pub token : Option Error
  pub deployment : Option Error
  pub service : Option Error
  pub network_policy : Option Error

-- `removed` is the error of the removal, which is made when the feature is off.
unfoldable pub reconcile_render : OpenShiftPulse → Option Error → RenderErrors → Option Error
reconcile_render pulse removed errors =
    if render_enabled pulse
    then stop_or "render token" errors.token (
        stop_or "render deployment" errors.deployment (
          stop_or "render service" errors.service
            (stop_or "render network policy" errors.network_policy none)))
    else removed
