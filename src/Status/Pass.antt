-- ===== src/Status/Pass.antt =====
-- The end of Reconcile (openshiftpulse_controller.go), from the health of the components to the
-- status that is written: the sync, reportPodProblems and reconcileAutoRollback in one pass.
use pulse_operator.Prelude.{
  ℕ, String, Bool, false, Option, none, some, List, [], ◌∷◌, if◌then◌else◌,
}
use pulse_operator.Api.{OpenShiftPulse}
use pulse_operator.Host.{Host, Event, warning, record_event}
use pulse_operator.Image.Tag.{image_version_label}
use pulse_operator.Pods.{PodProblem, problem_text}
use pulse_operator.Status.Sync.{ComponentHealth, sync_phase_and_conditions}
use pulse_operator.Status.Rollback.{reconcile_auto_rollback}

-- What a pass sees of the cluster. `agent_images` are the container images of the agent's
-- Deployment, if it could be read; a problem is diagnoseDeploymentPods' answer, `none` where there
-- is none or the pods could not be listed.
pub record Observed : Type 0 where
  pub now : ℕ
  pub health : ComponentHealth
  pub ui_available : Bool
  pub agent_images : Option (List String)
  pub agent_problem : Option PodProblem
  pub ui_problem : Option PodProblem

-- status.agentVersion
unfoldable pub agent_version : Option (List String) → String → String
agent_version none old = old
agent_version (some []) old = old
agent_version (some (image ∷ rest)) old = image_version_label image

-- The status fields set before the sync; reconcileUI has set uiAvailable before.
unfoldable pub observe : Observed → OpenShiftPulse → OpenShiftPulse
unfolding agent_version
observe seen cr =
    let status = cr.status in
    record cr {
      status = record status {
        ui_available = seen.ui_available;
        agent_healthy = seen.health.agent_serving;
        database_ready = seen.health.pg_ready;
        agent_version = agent_version seen.agent_images status.agent_version;
      };
    }

-- One round of reportPodProblems' loop.
unfoldable pub report_problem :
    Host
    → String
    → Bool
    → Option PodProblem
    → OpenShiftPulse × List Event
    → OpenShiftPulse × List Event
report_problem host type ready none (cr, events) = (cr, events)
report_problem host type ready (some problem) (cr, events) = if ready then (cr, events) else (
  let status = cr.status in
      record cr {
        status = record status {
          conditions = host.store.set status.conditions (record {
            type = type;
            status = false;
            reason = problem.reason;
            message = problem_text problem;
            observed_generation = cr.meta.generation;
          });
        };
      },
  record_event host warning "PodNotHealthy" events,
)

unfoldable pub report_pod_problems :
    Host → Observed → OpenShiftPulse → List Event → OpenShiftPulse × List Event
unfolding report_problem
report_pod_problems host seen cr events =
    report_problem host "UIReady" cr.status.ui_available seen.ui_problem
      (report_problem host "AgentReady" seen.health.agent_serving seen.agent_problem (cr, events))

unfoldable pub set_observed_generation : OpenShiftPulse → OpenShiftPulse
set_observed_generation cr =
    let status = cr.status in
    record cr { status = record status { observed_generation = cr.meta.generation } }

pub record PassResult : Type 0 where
  pub cr : OpenShiftPulse
  pub rolled_back : Bool
  pub requeue_after_seconds : ℕ
  pub events : List Event

unfoldable pub status_pass : Host → Observed → OpenShiftPulse → PassResult
status_pass host seen cr =
    let r = sync_phase_and_conditions host seen.now (observe seen cr) seen.health in
    let (reported, events) = report_pod_problems host seen r.cr r.events in
    let rb =
      reconcile_auto_rollback host seen.now reported r.agent_upgrading r.ui_upgrading events in
    record {
      cr = set_observed_generation rb.cr;
      rolled_back = rb.rolled_back;
      requeue_after_seconds = if rb.rolled_back then 1 else 30;
      events = rb.events;
    }
