-- ===== src/Ui/Template.antt =====
-- reconcileUIDeployment: the pod template of the UI, nginx and the login proxy in front of it.
use Prim.Native.String.{◌++◌}
use pulse_operator.Prelude.{
  ℕ, String, Bool, true, false, Option, none, some, is_some, List, [], ◌∷◌, Dict, ◌==◌, ◌||◌,
  if◌then◌else◌,
}
use pulse_operator.Api.{OpenShiftPulse, Resources}
use pulse_operator.Host.{Env}
use pulse_operator.Features.{render_enabled}
use pulse_operator.Names.{ui_resource_name, oauth_client_name}
use pulse_operator.Image.Choice.{image_from_env, resolved_ui_image, resolved_ui_replicas}
use pulse_operator.Detection.{ClusterInfo, default_oauth_proxy_image, env_oauth_proxy_image}
use pulse_operator.Pods.{keep_restarted_at}
use pulse_operator.Workload.{
  VolumeMount, Volume, from_secret, from_config_map, Probe, http_get, Container, rolling_update,
  DeploymentSpec, default_pod_sec_ctx, default_container_sec_ctx,
}

unfoldable pub ui_tls_secret_name : String → String
ui_tls_secret_name cr_name = cr_name ++ "-openshiftpulse-tls"

unfoldable pub ui_oauth_secrets_name : String → String
ui_oauth_secrets_name cr_name = cr_name ++ "-oauth-secrets"

unfoldable pub ui_nginx_secret_name : String → String
ui_nginx_secret_name cr_name = cr_name ++ "-nginx"

unfoldable pub ui_service_ca_bundle_name : String → String
ui_service_ca_bundle_name cr_name = cr_name ++ "-service-ca"

-- uiResources: quantities in bytes.
unfoldable pub ui_resources : OpenShiftPulse → Resources
ui_resources cr =
    if is_some cr.spec.ui.resources.requests || is_some cr.spec.ui.resources.limits
    then cr.spec.ui.resources
    else record {
      requests = some (("memory", 134217728) ∷ []);
      limits = some (("memory", 536870912) ∷ []);
    }

unfoldable pub oauth_proxy_resources : Resources
oauth_proxy_resources = record {
  requests = some (("memory", 67108864) ∷ []);
  limits = some (("memory", 268435456) ∷ []);
}

-- What the cluster was found to use, where the spec says nothing.
unfoldable pub detected_proxy_image : Option ClusterInfo → String
detected_proxy_image none = ""
detected_proxy_image (some info) = info.oauth_proxy_image

unfoldable pub resolved_oauth_proxy_image : Env → OpenShiftPulse → Option ClusterInfo → String
unfolding detected_proxy_image
resolved_oauth_proxy_image getenv cr info =
    let found =
      if cr.spec.ui.oauth_proxy_image == ""
      then detected_proxy_image info
      else cr.spec.ui.oauth_proxy_image in
    if found == ""
    then image_from_env getenv env_oauth_proxy_image default_oauth_proxy_image
    else found

unfoldable pub ui_container_ports : OpenShiftPulse → List ℕ
ui_container_ports pulse = if render_enabled pulse then 8080 ∷ 8081 ∷ [] else 8080 ∷ []

-- `quote` is `%q`.
unfoldable pub ui_access_check_arg : (String → String) → String → String
ui_access_check_arg quote namespace =
    "--openshift-sar={\"namespace\":"
    ++ (quote namespace ++ ",\"resource\":\"services\",\"verb\":\"get\"}")

abbrev probe : String → ℕ → Bool → ℕ → ℕ → Probe
probe path port https delay period = record {
  handler = http_get path port https;
  initial_delay_seconds = delay;
  period_seconds = period;
  timeout_seconds = 0;
  failure_threshold = 0;
}

abbrev mount : String → String → String → Bool → VolumeMount
mount name path sub_path read_only = record {
  name = name;
  mount_path = path;
  sub_path = sub_path;
  read_only = read_only;
}

unfoldable pub nginx_container : Env → OpenShiftPulse → Container
nginx_container getenv pulse = record {
  name = "openshiftpulse";
  image = resolved_ui_image getenv pulse;
  command = [];
  args = [];
  resources = ui_resources pulse;
  security = default_container_sec_ctx;
  ports = ui_container_ports pulse;
  env = [];
  mounts =
      mount "nginx-conf" "/etc/nginx/nginx.conf" "nginx.conf" false
      ∷ mount "service-ca" "/etc/pki/service-ca" "" true
      ∷ [];
  liveness = some (probe "/healthz" 8080 false 15 20);
  readiness = some (probe "/healthz" 8080 false 5 10);
}

unfoldable pub proxy_args : (String → String) → OpenShiftPulse → List String
proxy_args quote pulse =
    "--https-address=:8443"
    ∷ "--provider=openshift"
    ∷ "--upstream=http://localhost:8080"
    ∷ "--tls-cert=/etc/tls/private/tls.crt"
    ∷ "--tls-key=/etc/tls/private/tls.key"
    ∷ "--cookie-secret-file=/etc/proxy/secrets/cookie-secret"
    ∷ ("--client-id=" ++ oauth_client_name pulse.meta.name pulse.meta.namespace)
    ∷ "--client-secret-file=/etc/proxy/secrets/client-secret"
    ∷ "--skip-provider-button"
    ∷ "--pass-access-token=true"
    ∷ "--scope=user:full"
    ∷ ui_access_check_arg quote pulse.meta.namespace
    ∷ "--cookie-expire=168h"
    ∷ "--request-logging=false"
    ∷ []

unfoldable pub proxy_container :
    (String → String) → Env → OpenShiftPulse → Option ClusterInfo → Container
unfolding proxy_args
proxy_container quote getenv pulse info = record {
  name = "oauth-proxy";
  image = resolved_oauth_proxy_image getenv pulse info;
  command = [];
  args = proxy_args quote pulse;
  resources = oauth_proxy_resources;
  security = default_container_sec_ctx;
  ports = 8443 ∷ [];
  env = [];
  mounts =
      mount "proxy-tls" "/etc/tls/private" "" true
      ∷ mount "proxy-secrets" "/etc/proxy/secrets" "" true
      ∷ [];
  liveness = some (probe "/oauth/healthz" 8443 true 15 20);
  readiness = some (probe "/oauth/healthz" 8443 true 5 10);
}

unfoldable pub ui_volumes : OpenShiftPulse → List Volume
ui_volumes pulse =
    let name = pulse.meta.name in
    record { name = "nginx-conf"; source = from_secret (ui_nginx_secret_name name) }
    ∷ record { name = "service-ca"; source = from_config_map (ui_service_ca_bundle_name name) }
    ∷ record { name = "proxy-tls"; source = from_secret (ui_tls_secret_name name) }
    ∷ record { name = "proxy-secrets"; source = from_secret (ui_oauth_secrets_name name) }
    ∷ []

-- The mutation of the Deployment: its replicas and its spec; `previous` are the annotations of the
-- stored template.
unfoldable pub ui_deployment_spec :
    (String → String)
    → Env
    → OpenShiftPulse
    → Option ClusterInfo
    → String
    → Dict String
    → ℕ × DeploymentSpec
unfolding nginx_container proxy_container ui_volumes
ui_deployment_spec quote getenv pulse info nginx_hash previous = (
  resolved_ui_replicas pulse,
  record {
    strategy = rolling_update;
    selector = some (("app", ui_resource_name pulse.meta.name) ∷ []);
    template = record {
      labels = ("app", ui_resource_name pulse.meta.name) ∷ [];
      annotations = keep_restarted_at previous (("pulse.ai/nginx-config-hash", nginx_hash) ∷ []);
      service_account = ui_resource_name pulse.meta.name;
      automount_token = none;
      security = default_pod_sec_ctx none;
      init_containers = [];
      containers = nginx_container getenv pulse ∷ proxy_container quote getenv pulse info ∷ [];
      volumes = ui_volumes pulse;
    };
  },
)
