-- ===== src/Agent/Deployment.antt =====
-- reconcileDeployment of the agent. What the API answers in one pass is an argument.
use pulse_operator.Prelude.{
  ℕ, String, Bool, true, not, Option, none, some, List, [], ◌∷◌, text_at, ◌==◌, if◌then◌else◌,
}
use pulse_operator.Api.{OpenShiftPulse}
use pulse_operator.Host.{Host, Event, normal, warning, record_event}
use pulse_operator.Names.{agent_resource_name}
use pulse_operator.Cluster.{Error, wrap, is_not_found}
use pulse_operator.Cluster.Removal.{ignore_not_found}
use pulse_operator.Compat.{Semver, agent_version_compatible, set_agent_version_compatible_condition}
use pulse_operator.Skew.{agent_ui_version_skew, set_version_skew_condition}
use pulse_operator.Pods.{keep_restarted_at}
use pulse_operator.Detection.{ClusterInfo}
use pulse_operator.Workload.{Container, DeploymentSpec}
use pulse_operator.Agent.Template.{build_deployment_spec}

-- The answers to a pass: the error of the read (without one the read finds the Deployment that there
-- is, or is "not found"), of setting the controller reference, and of the write.
pub record Answers : Type 0 where
  pub read_error : Option Error
  pub owner_error : Option Error
  pub write_error : Option Error

-- The CR with its conditions, the Deployment that there is afterwards, the requeue in seconds (0 for
-- none), the error and the events.
pub record Outcome : Type 0 where
  pub cr : OpenShiftPulse
  pub stored : Option DeploymentSpec
  pub requeue_after : ℕ
  pub error : Option Error
  pub events : List Event

-- The selector does not name the agent's pods.
unfoldable pub is_mismatched : String → DeploymentSpec → Bool
is_mismatched name existing = elim existing.selector [
  | none ↦ true
  | some labels ↦ not (text_at "app" labels == name)
]

-- The image of the running template's first container in place of the desired one.
unfoldable pub pin_image : List Container → List Container → List Container
pin_image [] desired = desired
pin_image (running ∷ others) [] = []
pin_image (running ∷ others) (first ∷ rest) = record first { image = running.image } ∷ rest

-- The update of a Deployment whose selector matches.
unfoldable pub updated_spec : Bool → DeploymentSpec → DeploymentSpec → DeploymentSpec
unfolding pin_image
updated_spec compatible existing desired =
    let template = desired.template in
    record desired {
      selector = existing.selector;
      template = record template {
        containers =
            if compatible
            then template.containers
            else pin_image existing.template.containers template.containers;
        annotations = keep_restarted_at existing.template.annotations template.annotations;
      };
    }

-- A write that sets the controller reference first.
unfoldable pub write_error : Answers → Option Error
write_error answers = elim answers.owner_error [ some e ↦ some e | none ↦ answers.write_error ]

module _ (itoa : ℕ → String) (host : Host) (semver : Semver) (credential_hash : String)
    (info : Option ClusterInfo) where
  -- The conditions and events of the version gate and of the skew.
  unfoldable pub report_versions : OpenShiftPulse → OpenShiftPulse × List Event
  report_versions cr =
      let (compatible, message) = agent_version_compatible semver cr in
      let gated =
        if cr.spec.agent.min_operator_version == ""
        then cr
        else set_agent_version_compatible_condition host cr compatible message in
      let gate_events =
        if compatible then [] else record_event host warning "IncompatibleVersion" [] in
      let (skewed, skew_message) = agent_ui_version_skew gated in
      (
        set_version_skew_condition host gated skewed skew_message,
        if skewed then record_event host warning "AgentUIVersionSkew" gate_events else gate_events,
      )

  -- The branch of a Deployment that is there.
  unfoldable pub reconcile_existing :
      Answers → Bool → OpenShiftPulse → List Event → DeploymentSpec → Outcome
  unfolding is_mismatched updated_spec write_error
  reconcile_existing answers compatible cr events existing =
      if is_mismatched (agent_resource_name cr.meta.name) existing
      then elim (ignore_not_found answers.write_error) [
        | some e ↦ record {
          cr = cr;
          stored = some existing;
          requeue_after = 0;
          error = some (wrap "delete mismatched deployment" e);
          events = events;
        }
        | none ↦ record {
          cr = cr;
          stored = none;
          requeue_after = 5;
          error = none;
          events = record_event host normal "SelfHealed" events;
        }
      ]
      else elim (write_error answers) [
        | some e ↦ record {
          cr = cr;
          stored = some existing;
          requeue_after = 0;
          error = some e;
          events = events;
        }
        | none ↦
            let desired = build_deployment_spec itoa host.getenv credential_hash cr info in
            record {
              cr = cr;
              stored = some (updated_spec compatible existing desired);
              requeue_after = 0;
              error = none;
              events = events;
            }
      ]

  -- The branch of a missing Deployment.
  unfoldable pub create_deployment :
      Answers → Bool → OpenShiftPulse → List Event → Option DeploymentSpec → Outcome
  unfolding write_error
  create_deployment answers compatible cr events stored =
      if compatible
      then elim (write_error answers) [
        | some e ↦ record {
          cr = cr;
          stored = stored;
          requeue_after = 0;
          error = some e;
          events = events;
        }
        | none ↦ record {
          cr = cr;
          stored = some (build_deployment_spec itoa host.getenv credential_hash cr info);
          requeue_after = 0;
          error = none;
          events = events;
        }
      ]
      else record { cr = cr; stored = stored; requeue_after = 5; error = none; events = events }

  unfoldable pub reconcile_deployment : Answers → OpenShiftPulse → Option DeploymentSpec → Outcome
  unfolding report_versions reconcile_existing create_deployment
  reconcile_deployment answers pulse stored =
      let compatible = (agent_version_compatible semver pulse).0 in
      let (cr, events) = report_versions pulse in
      elim answers.read_error [
        | some e ↦
            if is_not_found e
            then create_deployment answers compatible cr events stored
            else record {
              cr = cr;
              stored = stored;
              requeue_after = 0;
              error = some e;
              events = events;
            }
        | none ↦ elim stored [
          | none ↦ create_deployment answers compatible cr events none
          | some existing ↦ reconcile_existing answers compatible cr events existing
        ]
      ]
