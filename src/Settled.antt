-- ===== src/Settled.antt =====
-- A second write of an object changes nothing.
use pulse_operator.Prelude.{String, insert-insert, ◌≡◌, refl}
use pulse_operator.Api.{OpenShiftPulse}
use pulse_operator.Host.{Env}
use pulse_operator.Workload.{Deployment, AppService}
use pulse_operator.Mcp.Server.{mcp_config_hash_annotation, mcp_deployment, mcp_service}
use pulse_operator.Temporal.{
  temporal_deployment, temporal_service, temporal_ui_deployment, temporal_ui_service,
}
use pulse_operator.Render.{render_deployment, render_service}
use pulse_operator.Agent.Objects.{agent_service}
use pulse_operator.Ui.Template.{ui_tls_secret_name}
use pulse_operator.Ui.Objects.{ui_service}
use pulse_operator.Endpoints.{Server, ui, service_of}

-- The Deployments that are changed field by field.
pub data Upserted : Type 0 where
  mcp_server temporal_server temporal_web_ui render_server : Upserted

module _ (getenv : Env) (hash : String) (pulse : OpenShiftPulse) where
  abbrev pub change_of : Upserted → Deployment → Deployment
  change_of mcp_server = mcp_deployment getenv pulse hash
  change_of temporal_server = temporal_deployment getenv hash pulse
  change_of temporal_web_ui = temporal_ui_deployment getenv pulse
  change_of render_server = render_deployment getenv pulse

  deployment_settles :
      (which : Upserted) (old : Deployment)
      → change_of which (change_of which old) ≡ change_of which old
  unfolding mcp_deployment temporal_deployment temporal_ui_deployment render_deployment
  deployment_settles mcp_server old =
      rw (insert-insert mcp_config_hash_annotation hash old.spec.template.annotations) refl
  deployment_settles _ old = refl

  service_settles :
      (server : Server) (old : AppService)
      → service_of pulse server (service_of pulse server old) ≡ service_of pulse server old
  unfolding agent_service ui_service mcp_service temporal_service temporal_ui_service render_service
  service_settles ui old =
      rw
        (insert-insert "service.beta.openshift.io/serving-cert-secret-name"
          (ui_tls_secret_name pulse.meta.name) old.annotations)
        refl
  service_settles _ old = refl

  -- A pass that writes the Services and the Deployments of the MCP server, Temporal, its Web UI and
  -- the render service again, with the same inputs, leaves them as the pass before left them,
  -- whatever was stored.
  pub objects_settle :
      (which : Upserted) (server : Server) (deployment : Deployment) (service : AppService)
      → (change_of which (change_of which deployment) ≡ change_of which deployment)
        × (service_of pulse server (service_of pulse server service)
            ≡ service_of pulse server service)
  objects_settle which server deployment service =
      (deployment_settles which deployment, service_settles server service)
