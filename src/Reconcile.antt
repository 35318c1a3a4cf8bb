-- ===== src/Reconcile.antt =====
-- The middle of Reconcile (openshiftpulse_controller.go): the sub-reconcilers in order, with the
-- early returns, between admission and the status part. What a sub-reconciler answers is a
-- parameter; of the CR it may change the fields that the status part takes as observed.
use mathlib.Core.List.{◌++◌}
use pulse_operator.Prelude.{ℕ, String, List, [], ◌∷◌, if◌then◌else◌, All, ◌≡◌, ◌↔◌, refl, arith}
use pulse_operator.Api.{OpenShiftPulse, Phase, installing}
use pulse_operator.Host.{Event, warning}
use pulse_operator.Cluster.{Error, wrap}
use pulse_operator.Features.{has_ai_backend, monitoring_enabled}

pub data Step : Type 0 where
  postgres_step render_step agent_step network_policies_step pdb_step : Step
  monitoring_step mcp_step remove_mcp_step temporal_step remove_temporal_step ui_step : Step

-- What a sub-reconciler answers; only the database, the agent and the UI ask for a requeue.
pub data Answer : Type 0 where
  done : Answer
  requeue : ℕ → Answer
  error : Error → Answer

-- The text that an error is wrapped in.
unfoldable pub step_text : Step → String
step_text postgres_step = "reconcilePostgres"
step_text render_step = "reconcileRender"
step_text agent_step = "reconcileAgent"
step_text network_policies_step = "reconcileNetworkPolicies"
step_text pdb_step = "reconcileUIPodsDisruptionBudget"
step_text monitoring_step = "reconcileMonitoring"
step_text mcp_step = "reconcileMCP"
step_text remove_mcp_step = "removeMCP"
step_text temporal_step = "reconcileTemporal"
step_text remove_temporal_step = "removeTemporal"
step_text ui_step = "reconcileUI"

-- The steps whose failure is an event besides a count.
unfoldable pub failure_events : Step → List Event
failure_events postgres_step = record { type = warning; reason = "ReconcileFailed" } ∷ []
failure_events agent_step = record { type = warning; reason = "ReconcileFailed" } ∷ []
failure_events _ = []

-- The steps of a pass over a CR, in order.
unfoldable pub steps_of : OpenShiftPulse → List Step
steps_of pulse =
    let monitoring = if monitoring_enabled pulse then monitoring_step ∷ [] else [] in
    let mcp = if pulse.spec.agent.mcp.enabled then mcp_step else remove_mcp_step in
    postgres_step
    ∷ render_step
    ∷ agent_step
    ∷ network_policies_step
    ∷ pdb_step
    ∷ (monitoring ++ (mcp ∷ temporal_step ∷ remove_temporal_step ∷ ui_step ∷ []))

-- How the steps end: all done, a requeue asked for, or an error to return.
pub data End : Type 0 where
  all_done : End
  come_back : ℕ → End
  give_up : Error → End

-- The CR, the steps that ran, the events, and the end.
pub record Ran : Type 0 where
  pub cr : OpenShiftPulse
  pub steps : List Step
  pub events : List Event
  pub end : End

-- flushInstallingStatus; whether the write succeeds is not asked.
unfoldable pub flush_installing_status : OpenShiftPulse → OpenShiftPulse
flush_installing_status pulse =
    let status = pulse.status in record pulse { status = record status { phase = installing } }

-- A step's answer decides on the rest.
unfoldable pub run_steps : (Step → Answer) → OpenShiftPulse → List Step → Ran
run_steps answer pulse [] = record { cr = pulse; steps = []; events = []; end = all_done }
run_steps answer pulse (step ∷ rest) =
    let later = run_steps answer pulse rest in
    elim (answer step) [
      | done ↦ record later { steps = step ∷ later.steps }
      | requeue seconds ↦ record {
        cr = flush_installing_status pulse;
        steps = step ∷ [];
        events = [];
        end = come_back seconds;
      }
      | error e ↦ record {
        cr = pulse;
        steps = step ∷ [];
        events = failure_events step;
        end = give_up (wrap (step_text step) e);
      }
    ]

unfoldable pub reconcile_components : (Step → Answer) → OpenShiftPulse → Ran
unfolding steps_of run_steps
reconcile_components answer pulse =
    let ran = run_steps answer pulse (steps_of pulse) in
    if has_ai_backend pulse then ran else record ran {
      events = record { type = warning; reason = "NoAIBackendConfigured" } ∷ ran.events;
    }

run_steps-done_iff :
    (answer : Step → Answer) (pulse : OpenShiftPulse) (steps : List Step)
    → ((run_steps answer pulse steps).end ≡ all_done) ↔ All (λ s. answer s ≡ done) steps
unfolding run_steps
run_steps-done_iff answer pulse [] = (λ h. tt, λ h. refl)
run_steps-done_iff answer pulse (step ∷ rest) = ground (arith, run_steps-done_iff answer pulse rest)

-- The phase at an early return is Installing if a step asks for a requeue, and what it was before
-- if a step fails.
unfoldable pub phase_at : End → Phase → Phase
phase_at (come_back seconds) before = installing
phase_at _ before = before

run_steps-phase :
    (answer : Step → Answer) (pulse : OpenShiftPulse) (steps : List Step)
    → (run_steps answer pulse steps).cr.status.phase
      ≡ phase_at (run_steps answer pulse steps).end pulse.status.phase
unfolding run_steps phase_at flush_installing_status
run_steps-phase answer pulse [] = refl
run_steps-phase answer pulse (step ∷ rest) = ground (arith, run_steps-phase answer pulse rest)

-- The status part is reached exactly when every step of the CR is done.
pub status_reached_iff :
    (answer : Step → Answer) (pulse : OpenShiftPulse)
    → ((reconcile_components answer pulse).end ≡ all_done)
      ↔ All (λ s. answer s ≡ done) (steps_of pulse)
unfolding reconcile_components
status_reached_iff answer pulse = ground (arith, run_steps-done_iff answer pulse (steps_of pulse))

-- Before the status part, the phase is changed only by a requeue, to Installing: a step that fails
-- leaves the phase of the pass before, so that a CR that was Running still says so.
pub phase_of_early_return :
    (answer : Step → Answer) (pulse : OpenShiftPulse)
    → (reconcile_components answer pulse).cr.status.phase
      ≡ phase_at (reconcile_components answer pulse).end pulse.status.phase
unfolding reconcile_components
phase_of_early_return answer pulse = ground (arith, run_steps-phase answer pulse (steps_of pulse))
