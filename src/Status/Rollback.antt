-- ===== src/Status/Rollback.antt =====
-- reconcileAutoRollback of status.go. It never returns an error, so its result is the status and
-- whether a rollback was recorded.
use pulse_operator.Prelude.{
  ℕ, ◌-◌, Bool, false, not, ◌&&◌, ◌||◌, Option, none, some, List, ◌==◌, ltb, if◌then◌else◌, is_some,
}
use pulse_operator.Api.{Phase, OpenShiftPulse}
use pulse_operator.Host.{Host, Event, warning, record_event, is_condition_false}
use pulse_operator.Image.Choice.{requested_image, requested_ui_image}
use pulse_operator.Status.Sync.{is_upgrading_phase}

-- upgradeHealthTimeout, five minutes in nanoseconds.
abbrev pub upgrade_health_timeout : ℕ
upgrade_health_timeout = 300000000000

pub record RollbackResult : Type 0 where
  pub cr : OpenShiftPulse
  pub rolled_back : Bool
  pub events : List Event

-- The guards of the agent's rollback; `gated` is a False AgentVersionCompatible condition.
unfoldable pub agent_rolls_back : Host → OpenShiftPulse → Bool → Bool
agent_rolls_back host cr agent_upgrading =
    agent_upgrading
    && (not (is_condition_false host.store cr.status.conditions "AgentVersionCompatible")
        && (not (is_some cr.status.agent_rollback)
            && not (cr.status.last_healthy_agent_image == "")))

unfoldable pub ui_rolls_back : OpenShiftPulse → Bool → Bool
ui_rolls_back cr ui_upgrading =
    ui_upgrading
    && (not (is_some cr.status.ui_rollback) && not (cr.status.last_healthy_ui_image == ""))

unfoldable pub roll_back_agent : Host → ℕ → OpenShiftPulse → OpenShiftPulse
roll_back_agent host now cr =
    let status = cr.status in
    record cr {
      status = record status {
        agent_rollback = some (record {
          from = requested_image host.getenv cr;
          to = status.last_healthy_agent_image;
          at = now;
        });
      };
    }

unfoldable pub roll_back_ui : Host → ℕ → OpenShiftPulse → OpenShiftPulse
roll_back_ui host now cr =
    let status = cr.status in
    record cr {
      status = record status {
        ui_rollback = some (record {
          from = requested_ui_image host.getenv cr;
          to = status.last_healthy_ui_image;
          at = now;
        });
      };
    }

-- After a recorded rollback the timer is cleared.
unfoldable pub clear_timer : OpenShiftPulse → OpenShiftPulse
clear_timer cr =
    let status = cr.status in record cr { status = record status { upgrade_started_at = none } }

-- Past the guards on the phase and the time.
unfoldable pub roll_back : Host → ℕ → OpenShiftPulse → Bool → Bool → List Event → RollbackResult
unfolding agent_rolls_back ui_rolls_back roll_back_agent roll_back_ui clear_timer
roll_back host now cr agent_upgrading ui_upgrading events =
    let agent = agent_rolls_back host cr agent_upgrading in
    let cr1 = if agent then roll_back_agent host now cr else cr in
    let events1 = if agent then record_event host warning "AutoRolledBack" events else events in
    let ui = ui_rolls_back cr1 ui_upgrading in
    let cr2 = if ui then roll_back_ui host now cr1 else cr1 in
    record {
      cr = if agent || ui then clear_timer cr2 else cr2;
      rolled_back = agent || ui;
      events = if ui then record_event host warning "AutoRolledBack" events1 else events1;
    }

unfoldable pub timed_out : Phase → Option ℕ → ℕ → Bool
timed_out phase none now = false
timed_out phase (some start) now =
    is_upgrading_phase phase && not (ltb (now - start) upgrade_health_timeout)

unfoldable pub reconcile_auto_rollback :
    Host → ℕ → OpenShiftPulse → Bool → Bool → List Event → RollbackResult
unfolding roll_back
reconcile_auto_rollback host now cr agent_upgrading ui_upgrading events =
    if timed_out cr.status.phase cr.status.upgrade_started_at now
    then roll_back host now cr agent_upgrading ui_upgrading events
    else record { cr = cr; rolled_back = false; events = events }
