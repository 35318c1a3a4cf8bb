-- ===== src/Tests/StatusTests.antt =====
-- The phase machine and the rollback on concrete resources.
use pulse_operator.Prelude.{
  ℕ, ◌*◌, true, false, none, some, List, [], ◌∷◌, ◌≡◌, ◌≢◌, ◌↔◌, ◌⊎◌, refl, arith, eq_iff,
}
use pulse_operator.Api.{installing, upgrading, running, degraded, OpenShiftPulse, ImageRollback}
use pulse_operator.Host.{is_condition_false}
use pulse_operator.Image.Choice.{requested_image, requested_ui_image, resolved_image}
use pulse_operator.Status.Sync.{ComponentHealth, sync_phase_and_conditions, current_rollback}
use pulse_operator.Status.Rollback.{reconcile_auto_rollback, timed_out}
use pulse_operator.Status.RollbackLaws.{HasTimedOut, agent_rollback_recorded}
use pulse_operator.Status.Pass.{
  Observed, status_pass, observe, report_pod_problems, set_observed_generation,
}
use pulse_operator.Status.PassLaws.{synced, outcome}
use pulse_operator.Status.PhaseLaws
use pulse_operator.Status.ConditionLaws
use pulse_operator.Status.RollbackLaws
use pulse_operator.Status.PhaseLaws.{
  phase-running_iff, phase-upgrading_iff, phase-degraded_iff, last_healthy_agent_image_moves,
  upgrade_duration_moves,
}
use pulse_operator.Status.ConditionLaws.{conditions_match_phase}
use pulse_operator.Status.Passes.{
  run, Asks, RolledBack, bad_image-RolledBack, one_rollback_per_image,
}
use pulse_operator.Status.Degraded.{degraded_lasts_one_pass}
use pulse_operator.Status.SharedTimer.{new_ui_image_rolled_back}
use pulse_operator.Tests.Sample.{host, cr, status, find_condition}

-- The agent serves from its old pod, and v2 does not roll out.
abbrev stuck : ComponentHealth
stuck = record {
  agent_serving = true;
  agent_rolled_out = false;
  ui_rolled_out = true;
  pg_ready = true;
}

abbrev down : ComponentHealth
down = record {
  agent_serving = false;
  agent_rolled_out = true;
  ui_rolled_out = true;
  pg_ready = true;
}

abbrev seen_at : ℕ → ComponentHealth → Observed
seen_at time health = record {
  now = time;
  health = health;
  ui_available = true;
  agent_images = none;
  agent_problem = none;
  ui_problem = none;
}

abbrev minute : ℕ
minute = 60000000000

-- Running becomes Upgrading and the timer starts.
upgrade_begins : (status_pass host (seen_at minute stuck) cr).cr.status.phase ≡ upgrading
unfolding status_pass observe sync_phase_and_conditions report_pod_problems reconcile_auto_rollback
    set_observed_generation resolved_image timed_out
upgrade_begins = refl

abbrev bad_ones : List Observed
bad_ones = seen_at minute stuck ∷ seen_at (3 * minute) stuck ∷ seen_at (6 * minute) stuck ∷ []

phase-running_iff_example : ((PhaseLaws.after host minute cr stuck).phase ≡ running) ↔ (
    (stuck.agent_serving ≡ true)
    × (stuck.pg_ready ≡ true)
    × (cr.status.ui_available ≡ true)
    × ((PhaseLaws.result host minute cr stuck).agent_upgrading ≡ false)
    × ((PhaseLaws.result host minute cr stuck).ui_upgrading ≡ false))
phase-running_iff_example = phase-running_iff host minute cr stuck

degraded_lasts_one_pass_example :
    ((run host (seen_at minute down ∷ []) cr).status.phase ≡ degraded)
    × ((run host
          (seen_at minute down ∷ (seen_at (2 * minute) down ∷ (seen_at (3 * minute) down ∷ [])))
          cr).status.phase
        ≡ installing)
unfolding sync_phase_and_conditions resolved_image status_pass observe reconcile_auto_rollback
    report_pod_problems set_observed_generation timed_out
degraded_lasts_one_pass_example =
    degraded_lasts_one_pass host (seen_at minute down) (seen_at (2 * minute) down)
      (seen_at (3 * minute) down ∷ []) cr refl
      (refl, refl, refl, (refl, refl, refl, (refl, refl, refl, tt)))

abbrev upgrading_cr : OpenShiftPulse
upgrading_cr = record cr {
  status = record status { phase = upgrading; upgrade_started_at = some minute };
}

conditions_match_phase_example :
    ConditionLaws.HasStatus host minute cr stuck "Ready"
      (λ b. (b ≡ true) ↔ ((ConditionLaws.after host minute cr stuck).phase ≡ running))
    × ConditionLaws.HasStatus host minute cr stuck "Progressing" (λ b. (b ≡ true) ↔ (
        ((ConditionLaws.after host minute cr stuck).phase ≡ installing)
        ⊎ ((ConditionLaws.after host minute cr stuck).phase ≡ upgrading)))
    × ConditionLaws.HasStatus host minute cr stuck "AgentReady" (λ b. b ≡ true)
    × ConditionLaws.HasStatus host minute cr stuck "DatabaseReady" (λ b. b ≡ true)
    × ConditionLaws.HasStatus host minute cr stuck "UIReady" (λ b. b ≡ true)
conditions_match_phase_example = conditions_match_phase host minute cr stuck

abbrev late_rollback : ImageRollback
late_rollback = record {
  from = "quay.io/pulse/agent:v2";
  to = "quay.io/pulse/agent:v1";
  at = 6 * minute;
}

agent_rollback_recorded_example :
    HasTimedOut upgrading_cr (6 * minute)
    × (true ≡ true)
    × (is_condition_false host.store upgrading_cr.status.conditions "AgentVersionCompatible"
        ≡ false)
    × (late_rollback.from ≡ requested_image host.getenv upgrading_cr)
    × (late_rollback.to ≡ upgrading_cr.status.last_healthy_agent_image)
    × (late_rollback.to ≢ "")
    × (late_rollback.at ≡ 6 * minute)
    × ((RollbackLaws.result host (6 * minute) upgrading_cr true false []).rolled_back ≡ true)
    × ((RollbackLaws.result host
          (6 * minute)
          upgrading_cr
          true
          false
          []).cr.status.upgrade_started_at
        ≡ none)
unfolding reconcile_auto_rollback timed_out requested_image find_condition
agent_rollback_recorded_example =
    agent_rollback_recorded host (6 * minute) upgrading_cr true false [] late_rollback refl refl

Asks-v2 : Asks host "quay.io/pulse/agent:v2" "quay.io/pulse/agent:v1" cr
unfolding requested_image
Asks-v2 = record {
  asks_bad = refl;
  good_healthy = refl;
  good_known = λ e. ground (arith, eq_iff "quay.io/pulse/agent:v1" "");
  differ = λ e. ground (arith, eq_iff "quay.io/pulse/agent:v2" "quay.io/pulse/agent:v1");
}

bad_image-RolledBack_example :
    RolledBack host "quay.io/pulse/agent:v2" "quay.io/pulse/agent:v1" (run host bad_ones cr)
unfolding find_condition
bad_image-RolledBack_example =
    bad_image-RolledBack host "quay.io/pulse/agent:v2" "quay.io/pulse/agent:v1"
      (seen_at minute stuck) (seen_at (3 * minute) stuck ∷ []) (seen_at (6 * minute) stuck) [] cr
      Asks-v2 refl refl tt (refl, (refl, tt)) refl (omega arith)

abbrev rolled_cr : OpenShiftPulse
rolled_cr = record cr { status = record status { agent_rollback = some late_rollback } }

Asks-rolled : Asks host "quay.io/pulse/agent:v2" "quay.io/pulse/agent:v1" rolled_cr
unfolding requested_image
Asks-rolled = record {
  asks_bad = refl;
  good_healthy = refl;
  good_known = Asks-v2.good_known;
  differ = Asks-v2.differ;
}

one_rollback_per_image_example :
    ((run host bad_ones rolled_cr).status.agent_rollback ≡ some late_rollback)
    × ((run host bad_ones rolled_cr).status.last_healthy_agent_image ≡ "quay.io/pulse/agent:v1")
    × (resolved_image host.getenv (run host bad_ones rolled_cr) ≡ "quay.io/pulse/agent:v1")
    × ((synced host (seen_at (7 * minute) stuck) (run host bad_ones rolled_cr)).agent_upgrading
        ≡ false)
one_rollback_per_image_example =
    one_rollback_per_image host "quay.io/pulse/agent:v2" "quay.io/pulse/agent:v1" bad_ones
      (seen_at (7 * minute) stuck) rolled_cr late_rollback Asks-rolled refl refl refl

-- The agent's timer has run for six minutes when the spec begins to ask for UI v2.
abbrev new_ui : OpenShiftPulse
new_ui = record upgrading_cr {
  status = record status {
    phase = upgrading;
    upgrade_started_at = some minute;
    last_healthy_ui_image = "registry.local:5000/ui:v0";
  };
}

abbrev ui_stuck : ComponentHealth
ui_stuck = record stuck { ui_rolled_out = false }

new_ui_image_rolled_back_example :
    (outcome host (seen_at (7 * minute) ui_stuck) new_ui).cr.status.ui_rollback
    ≡ some (record {
      from = "registry.local:5000/ui:v1";
      to = "registry.local:5000/ui:v0";
      at = 7 * minute;
    })
unfolding requested_ui_image current_rollback
new_ui_image_rolled_back_example =
    new_ui_image_rolled_back host (seen_at (7 * minute) ui_stuck) new_ui minute refl (omega arith)
      (λ e. ground (arith, eq_iff "registry.local:5000/ui:v0" ""))
      (λ e. ground (arith, eq_iff "registry.local:5000/ui:v1" "registry.local:5000/ui:v0")) refl
      refl
