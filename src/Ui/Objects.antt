-- ===== src/Ui/Objects.antt =====
-- The UI's ServiceAccount, CA bundle, Deployment and Service: reconcileUIServiceAccount,
-- reconcileUIServiceCABundle, reconcileUIDeployment and reconcileUIService.
use Prim.Native.String.{◌++◌}
use pulse_operator.Prelude.{String, Option, some, [], ◌∷◌, Dict, insert, if◌then◌else◌}
use pulse_operator.Api.{OpenShiftPulse}
use pulse_operator.Features.{render_enabled}
use pulse_operator.Host.{Env}
use pulse_operator.Detection.{ClusterInfo}
use pulse_operator.Names.{ui_resource_name}
use pulse_operator.Workload.{Deployment, AppService, blank_deployment, blank_service, http_port}
use pulse_operator.Upsert.{UpsertAnswers, Upserted, create_or_update, create_or_change}
use pulse_operator.Ui.Template.{ui_tls_secret_name, ui_deployment_spec}

abbrev pub oauth_redirect_annotation : String
oauth_redirect_annotation = "serviceaccounts.openshift.io/oauth-redirectreference.primary"

unfoldable pub redirect_reference : String → String
redirect_reference route_name =
    "{\"kind\":\"OAuthRedirectReference\",\"apiVersion\":\"v1\",\"reference\":{\"kind\":\"Route\",\"name\":\""
    ++ (route_name ++ "\"}}")

-- The annotations of the account; what others set stays.
unfoldable pub reconcile_ui_service_account :
    UpsertAnswers → OpenShiftPulse → Option (Dict String) → Upserted (Dict String)
unfolding redirect_reference
reconcile_ui_service_account answers pulse stored =
    let change =
      insert oauth_redirect_annotation (redirect_reference (ui_resource_name pulse.meta.name)) in
    create_or_change answers (change []) change stored

-- The annotations of the ConfigMap that the service CA operator fills.
unfoldable pub reconcile_ui_service_ca_bundle :
    UpsertAnswers → Option (Dict String) → Upserted (Dict String)
reconcile_ui_service_ca_bundle answers stored =
    create_or_update answers [] (insert "service.beta.openshift.io/inject-cabundle" "true") stored

unfoldable pub ui_service : OpenShiftPulse → AppService → AppService
ui_service pulse old = record old {
  annotations =
      insert "service.beta.openshift.io/serving-cert-secret-name"
        (ui_tls_secret_name pulse.meta.name) old.annotations;
  selector = ("app", ui_resource_name pulse.meta.name) ∷ [];
  ports =
      if render_enabled pulse
      then http_port "https" 8443 ∷ http_port "render" 8081 ∷ []
      else http_port "https" 8443 ∷ [];
}

unfoldable pub reconcile_ui_service :
    UpsertAnswers → OpenShiftPulse → Option AppService → Upserted AppService
unfolding ui_service
reconcile_ui_service answers pulse stored =
    create_or_update answers blank_service (ui_service pulse) stored

-- The mutation of the Deployment: all of it but the annotation of a restart by hand.
unfoldable pub ui_deployment :
    (String → String) → Env → OpenShiftPulse → Option ClusterInfo → String → Deployment → Deployment
ui_deployment quote getenv pulse info nginx_hash old =
    let (replicas, spec) =
      ui_deployment_spec quote getenv pulse info nginx_hash old.spec.template.annotations in
    record { replicas = some replicas; spec = spec }

unfoldable pub reconcile_ui_deployment :
    (String → String)
    → Env
    → UpsertAnswers
    → OpenShiftPulse
    → Option ClusterInfo
    → String
    → Option Deployment
    → Upserted Deployment
unfolding ui_deployment
reconcile_ui_deployment quote getenv answers pulse info nginx_hash stored =
    create_or_update answers blank_deployment (ui_deployment quote getenv pulse info nginx_hash)
      stored
