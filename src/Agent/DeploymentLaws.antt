-- ===== src/Agent/DeploymentLaws.antt =====
-- What a pass does to the agent's Deployment behind a closed version gate, and after an error.
use pulse_operator.Prelude.{
  ℕ, String, false, Option, none, some, is_some, List, [], ◌∷◌, ◌≡◌, ◌≢◌, ◌⊎◌, inl, inr, refl,
  arith, Option-cases,
}
use pulse_operator.Api.{OpenShiftPulse}
use pulse_operator.Host.{Host, Event}
use pulse_operator.Cluster.{Error}
use pulse_operator.Compat.{Semver, agent_version_compatible, set_agent_version_compatible_condition}
use pulse_operator.Skew.{set_version_skew_condition}
use pulse_operator.Image.Choice.{resolved_image, requested_image}
use pulse_operator.Detection.{ClusterInfo}
use pulse_operator.Workload.{Container, DeploymentSpec}
use pulse_operator.Agent.Template.{build_deployment_spec, agent_container}
use pulse_operator.Agent.Deployment.{
  Answers, Outcome, pin_image, updated_spec, report_versions, reconcile_existing, create_deployment,
  reconcile_deployment,
}

-- The image of the first container, where there is a Deployment with one.
unfoldable pub first_image : List Container → Option String
first_image [] = none
first_image (first ∷ rest) = some first.image

unfoldable pub running_image : Option DeploymentSpec → Option String
unfolding first_image
running_image none = none
running_image (some d) = first_image d.template.containers

first_image-pin_image :
    (image : String) (running desired : List Container)
    → first_image running ≡ some image
    → first_image desired ≢ none
    → first_image (pin_image running desired) ≡ some image
unfolding first_image pin_image
first_image-pin_image image [] desired h k = absurd (ground arith)
first_image-pin_image image (r ∷ rs) [] h k = absurd (k refl)
first_image-pin_image image (r ∷ rs) (d ∷ ds) h k = h

-- Every pod template that the operator builds has its one container.
pub built_image :
    (itoa : ℕ → String) (getenv : String → String) (hash : String) (cr : OpenShiftPulse)
    (info : Option ClusterInfo)
    → first_image (build_deployment_spec itoa getenv hash cr info).template.containers
      ≡ some (resolved_image getenv cr)
unfolding first_image build_deployment_spec agent_container
built_image itoa getenv hash cr info = refl

module _ (itoa : ℕ → String) (host : Host) (semver : Semver) (hash : String)
    (info : Option ClusterInfo) where
  -- The pass.
  abbrev pass : Answers → OpenShiftPulse → Option DeploymentSpec → Outcome
  pass answers pulse stored = reconcile_deployment itoa host semver hash info answers pulse stored

  existing-closed :
      (answers : Answers) (cr : OpenShiftPulse) (events : List Event) (existing : DeploymentSpec)
      (image : String)
      → first_image existing.template.containers ≡ some image
      → ((reconcile_existing itoa host semver hash info answers false cr events existing).stored
          ≡ none)
        ⊎ (running_image
              (reconcile_existing itoa host semver hash info answers false cr events
                existing).stored
            ≡ some image)
  unfolding reconcile_existing running_image updated_spec
  existing-closed answers cr events existing image h = ground (
    arith,
    h,
    built_image itoa host.getenv hash cr info,
    first_image-pin_image image existing.template.containers
        (build_deployment_spec itoa host.getenv hash cr info).template.containers,
  )

  created-closed :
      (answers : Answers) (cr : OpenShiftPulse) (events : List Event)
      (stored : Option DeploymentSpec)
      → (create_deployment itoa host semver hash info answers false cr events stored).stored
        ≡ stored
  unfolding create_deployment
  created-closed answers cr events stored = refl

  pub same_name :
      (pulse : OpenShiftPulse)
      → (report_versions itoa host semver hash info pulse).0.meta ≡ pulse.meta
  unfolding report_versions set_version_skew_condition set_agent_version_compatible_condition
  same_name pulse = ground arith

  pub same_image :
      (pulse : OpenShiftPulse)
      → resolved_image host.getenv (report_versions itoa host semver hash info pulse).0
        ≡ resolved_image host.getenv pulse
  unfolding report_versions set_version_skew_condition set_agent_version_compatible_condition
      resolved_image requested_image
  same_image pulse = ground arith

-- While the version gate is closed, a pass neither creates the agent's Deployment nor changes the
-- image of the one that runs: it leaves that image, or no Deployment.
pub closed_gate_keeps_image :
    (itoa : ℕ → String) (host : Host) (semver : Semver) (hash : String) (info : Option ClusterInfo)
    (answers : Answers) (pulse : OpenShiftPulse) (stored : Option DeploymentSpec)
    → (agent_version_compatible semver pulse).0 ≡ false
    → is_some (running_image stored) ≡ is_some stored
    → ((reconcile_deployment itoa host semver hash info answers pulse stored).stored ≡ none)
      ⊎ (running_image (reconcile_deployment itoa host semver hash info answers pulse stored).stored
          ≡ running_image stored)
unfolding reconcile_deployment running_image create_deployment
closed_gate_keeps_image itoa host semver hash info answers pulse none closed whole =
    inl (ground (arith, closed))
closed_gate_keeps_image itoa host semver hash info answers pulse (some existing) closed whole =
    let (cr, events) = report_versions itoa host semver hash info pulse in
    elim (Option-cases (first_image existing.template.containers)) [
      | inl n ↦ absurd (ground (arith, n, whole))
      | inr (image, q) ↦
          let kept =
            existing-closed itoa host semver hash info answers cr events existing image q in
          ground (arith, closed, q, kept)
    ]

-- An error of a pass leaves the Deployment as it was, and asks for no requeue.
pub error_keeps_deployment :
    (itoa : ℕ → String) (host : Host) (semver : Semver) (hash : String) (info : Option ClusterInfo)
    (answers : Answers) (pulse : OpenShiftPulse) (stored : Option DeploymentSpec) (e : Error)
    → (reconcile_deployment itoa host semver hash info answers pulse stored).error ≡ some e
    → ((reconcile_deployment itoa host semver hash info answers pulse stored).stored ≡ stored)
      × ((reconcile_deployment itoa host semver hash info answers pulse stored).requeue_after ≡ 0)
unfolding reconcile_deployment reconcile_existing create_deployment
error_keeps_deployment itoa host semver hash info answers pulse stored e h = ground (arith, h)
