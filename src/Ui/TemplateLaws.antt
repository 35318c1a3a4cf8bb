-- ===== src/Ui/TemplateLaws.antt =====
-- The UI's pod template and what can reach it.
use pulse_operator.Prelude.{
  ℕ, String, Bool, true, false, ◌&&◌, ◌||◌, Option, Dict, any, eqb, All, ◌==◌, ◌≡◌, refl, arith,
}
use pulse_operator.Api.{OpenShiftPulse}
use pulse_operator.Host.{Env}
use pulse_operator.Features.{render_enabled}
use pulse_operator.Names.{ui_resource_name}
use pulse_operator.Detection.{ClusterInfo}
use pulse_operator.Workload.{PodTemplate}
use pulse_operator.Network.{Port, Endpoint, is_port, may_connect}
use pulse_operator.Network.Policies.{policies}
use pulse_operator.Network.Reach.{app_pod}
use pulse_operator.Network.Laws.{ui_callers}
use pulse_operator.Ui.Template.{
  ui_container_ports, nginx_container, proxy_container, ui_volumes, ui_deployment_spec,
}

-- Some container of the template declares the port.
unfoldable pub declares : PodTemplate → ℕ → Bool
declares template number = any (λ c. any (λ p. eqb p number) c.ports) template.containers

-- Every mount of every container has its volume.
abbrev pub MountsHaveVolumes : PodTemplate → Type 0
MountsHaveVolumes template =
    All (λ c. All (λ m. any (λ v. v.name == m.name) template.volumes ≡ true) c.mounts)
      template.containers

abbrev template :
    (String → String)
    → Env
    → OpenShiftPulse
    → Option ClusterInfo
    → String
    → Dict String
    → PodTemplate
template quote getenv cr info hash previous =
    (ui_deployment_spec quote getenv cr info hash previous).1.template

mounts_are_there :
    (quote : String → String) (getenv : Env) (cr : OpenShiftPulse) (info : Option ClusterInfo)
    (hash : String) (previous : Dict String)
    → MountsHaveVolumes (template quote getenv cr info hash previous)
unfolding ui_deployment_spec nginx_container proxy_container ui_volumes
mounts_are_there quote getenv cr info hash previous = ((refl, (refl, tt)), ((refl, (refl, tt)), tt))

declares_iff :
    (quote : String → String) (getenv : Env) (cr : OpenShiftPulse) (info : Option ClusterInfo)
    (hash : String) (previous : Dict String) (number : ℕ)
    → declares (template quote getenv cr info hash previous) number
      ≡ (eqb 8080 number || (eqb 8443 number || (render_enabled cr && eqb 8081 number)))
unfolding declares ui_deployment_spec nginx_container proxy_container ui_container_ports
declares_iff quote getenv cr info hash previous number = ground arith

-- The UI's template is consistent in itself and with the network policies: every mount has its
-- volume, and a port of the UI's pods that the policies let anyone reach is one that a container
-- declares, and is not 8080, where nginx listens behind the login.
pub ui_template_is_consistent :
    (quote : String → String) (getenv : Env) (cr : OpenShiftPulse) (info : Option ClusterInfo)
    (hash : String) (previous labels : Dict String) (source : Endpoint) (port : Port)
    → may_connect (policies cr) source (app_pod cr labels (ui_resource_name cr.meta.name)) port
      ≡ true
    → MountsHaveVolumes (ui_deployment_spec quote getenv cr info hash previous).1.template
      × (declares (ui_deployment_spec quote getenv cr info hash previous).1.template port.number
          ≡ true)
      × (eqb port.number 8080 ≡ false)
unfolding is_port
ui_template_is_consistent quote getenv cr info hash previous labels source port h =
    let reached = ui_callers cr labels source port h in
    (
      mounts_are_there quote getenv cr info hash previous,
      ground (arith, reached, declares_iff quote getenv cr info hash previous port.number),
      ground (arith, reached),
    )
