-- ===== src/Status/Sync.antt =====
-- syncPhaseAndConditions of status.go, cut into the assignments that it makes one after another.
-- Times are nanoseconds; `time.Since` of a start in the future is 0 here.
use Prim.Native.String.{◌++◌}
use pulse_operator.Prelude.{
  ℕ, ◌+◌, ◌-◌, ◌/◌, String, Bool, true, false, not, ◌&&◌, ◌||◌, Option, none, some, List, [], ◌∷◌,
  ◌==◌, if◌then◌else◌, bool_text,
}
use pulse_operator.Api.{
  Phase, installing, upgrading, running, degraded, phase_text, Condition, ImageRollback,
  OpenShiftPulse,
}
use pulse_operator.Host.{Host, ConditionStore, Event, normal, warning, record_event}
use pulse_operator.Image.Choice.{
  requested_image, requested_ui_image, resolved_image, resolved_ui_image,
}

pub record ComponentHealth : Type 0 where
  pub agent_serving : Bool
  pub agent_rolled_out : Bool
  pub ui_rolled_out : Bool
  pub pg_ready : Bool

-- A rollback record is dropped once the spec asks for another image.
unfoldable pub current_rollback : String → Option ImageRollback → Option ImageRollback
current_rollback requested none = none
current_rollback requested (some rb) = if rb.from == requested then some rb else none

-- Status with the records that no longer apply dropped.
unfoldable pub drop_stale_rollbacks : Host → OpenShiftPulse → OpenShiftPulse
unfolding current_rollback
drop_stale_rollbacks host cr =
    let status = cr.status in
    record cr {
      status = record status {
        agent_rollback = current_rollback (requested_image host.getenv cr) status.agent_rollback;
        ui_rollback = current_rollback (requested_ui_image host.getenv cr) status.ui_rollback;
      };
    }

-- An image differs from the last healthy one and has not rolled out.
unfoldable pub is_upgrading : Bool → String → String → Bool
is_upgrading rolled_out last_healthy image =
    not rolled_out && (not (last_healthy == "") && not (image == last_healthy))

unfoldable pub record_healthy : Bool → String → String → String
record_healthy rolled_out image last_healthy =
    if rolled_out && not (image == "") then image else last_healthy

unfoldable pub stamp_upgrade : Bool → ℕ → Option ℕ → Option ℕ
stamp_upgrade false now started = none
stamp_upgrade true now none = some now
stamp_upgrade true now (some start) = some start

abbrev pub is_running : Phase → Bool
is_running running = true
is_running _ = false

abbrev pub is_upgrading_phase : Phase → Bool
is_upgrading_phase upgrading = true
is_upgrading_phase _ = false

abbrev pub is_degraded : Phase → Bool
is_degraded degraded = true
is_degraded _ = false

-- The `switch` over the phases.
unfoldable pub next_phase : Bool → Bool → Phase → Phase
next_phase in_progress all_ready previous =
    if in_progress && all_ready
    then upgrading
    else if all_ready
    then running
    else if in_progress
    then upgrading
    else if is_running previous || is_upgrading_phase previous
    then degraded
    else installing

unfoldable pub phase_events : Host → Bool → Bool → Phase → List Event → List Event
phase_events host in_progress all_ready previous events =
    if in_progress && all_ready
    then (if is_upgrading_phase previous
        then events
        else record_event host normal "Upgrading" events)
    else if all_ready
    then (if is_running previous then events else record_event host normal "Running" events)
    else if in_progress
    then (if is_upgrading_phase previous
        then events
        else record_event host normal "Upgrading" events)
    else if is_running previous || is_upgrading_phase previous
    then (if is_degraded previous then events else record_event host warning "Degraded" events)
    else events

-- `int64(time.Since(start).Round(time.Second).Seconds())`
unfoldable pub rounded_seconds : ℕ → ℕ → ℕ
rounded_seconds now start = (now - start + 500000000) / 1000000000

-- The duration is set only in the pass in which an upgrade has become healthy.
unfoldable pub upgrade_duration : Bool → Bool → Phase → Option ℕ → ℕ → ℕ → ℕ
unfolding rounded_seconds
upgrade_duration in_progress all_ready previous none now last = last
upgrade_duration in_progress all_ready previous (some start) now last =
    if not in_progress && (all_ready && is_upgrading_phase previous)
    then rounded_seconds now start
    else last

-- setReadyCondition
unfoldable pub ready_condition : ℕ → String → Bool → String → String → Condition
ready_condition generation type ready ready_message not_ready_message =
    if ready
    then record {
      type = type;
      status = true;
      reason = "Ready";
      message = ready_message;
      observed_generation = generation;
    }
    else record {
      type = type;
      status = false;
      reason = "NotReady";
      message = not_ready_message;
      observed_generation = generation;
    }

unfoldable pub progressing_condition : ℕ → Phase → Condition
progressing_condition generation installing = record {
  type = "Progressing";
  status = true;
  reason = "Installing";
  message = "Installing is in progress";
  observed_generation = generation;
}
progressing_condition generation upgrading = record {
  type = "Progressing";
  status = true;
  reason = "Upgrading";
  message = "Upgrading is in progress";
  observed_generation = generation;
}
progressing_condition generation running = record {
  type = "Progressing";
  status = false;
  reason = "Stable";
  message = "All components are healthy and no rollout is in progress";
  observed_generation = generation;
}
progressing_condition generation _ = record {
  type = "Progressing";
  status = false;
  reason = "Degraded";
  message = "Not progressing — a previously healthy component is now unhealthy";
  observed_generation = generation;
}

unfoldable pub aggregate_condition : ℕ → Phase → Bool → Bool → Bool → Condition
aggregate_condition generation running agent_ready pg_ready ui_ready = record {
  type = "Ready";
  status = true;
  reason = "AllComponentsHealthy";
  message = "Agent, database, and UI are healthy";
  observed_generation = generation;
}
aggregate_condition generation phase agent_ready pg_ready ui_ready = record {
  type = "Ready";
  status = false;
  reason = phase_text phase;
  message =
      "agentHealthy="
      ++ (bool_text agent_ready
          ++ (" databaseReady="
              ++ (bool_text pg_ready ++ (" uiAvailable=" ++ bool_text ui_ready))));
  observed_generation = generation;
}

-- The condition writes, in the order of the source.
unfoldable pub sync_conditions :
    ConditionStore
    → ℕ
    → Phase
    → String
    → String
    → Bool
    → Bool
    → Bool
    → List Condition
    → List Condition
sync_conditions store generation phase agent_image ui_image agent_ready pg_ready ui_ready cs =
    let cs1 = store.set cs (
      ready_condition generation "AgentReady" agent_ready "agent is healthy"
        ("agent Deployment has 0 ready replicas (image=" ++ (agent_image ++ ")"))) in
    let cs2 = store.set cs1 (
      ready_condition generation "DatabaseReady" pg_ready "database is healthy"
        "PostgreSQL StatefulSet has 0 ready replicas") in
    let cs3 = store.set cs2 (
      ready_condition generation "UIReady" ui_ready "UI is healthy"
        ("UI Deployment has 0 ready replicas (image=" ++ (ui_image ++ ")"))) in
    let cs4 = store.set cs3 (progressing_condition generation phase) in
    store.set cs4 (aggregate_condition generation phase agent_ready pg_ready ui_ready)

-- setComponentReadyGauge: what the pulse_operator_component_ready metric is set to.
unfoldable pub component_gauges : Bool → Bool → Bool → List (String × ℕ)
component_gauges agent_ready pg_ready ui_ready =
    ("agent", if agent_ready then 1 else 0)
    ∷ ("database", if pg_ready then 1 else 0)
    ∷ ("ui", if ui_ready then 1 else 0)
    ∷ []

pub record SyncResult : Type 0 where
  pub cr : OpenShiftPulse
  pub agent_image : String
  pub ui_image : String
  pub agent_upgrading : Bool
  pub ui_upgrading : Bool
  pub events : List Event
  pub gauges : List (String × ℕ)

unfoldable pub sync_phase_and_conditions : Host → ℕ → OpenShiftPulse → ComponentHealth → SyncResult
unfolding drop_stale_rollbacks is_upgrading record_healthy stamp_upgrade next_phase upgrade_duration
sync_phase_and_conditions host now given h =
    let cr = drop_stale_rollbacks host given in
    let st = cr.status in
    let ui_ready = st.ui_available in
    let agent_image = resolved_image host.getenv cr in
    let ui_image = resolved_ui_image host.getenv cr in
    let agent_up = is_upgrading h.agent_rolled_out st.last_healthy_agent_image agent_image in
    let ui_up = is_upgrading h.ui_rolled_out st.last_healthy_ui_image ui_image in
    let all_ready = h.agent_serving && (h.pg_ready && ui_ready) in
    let in_progress = agent_up || ui_up in
    let phase = next_phase in_progress all_ready st.phase in
    record {
      cr = record cr {
        status = record st {
          last_healthy_agent_image =
              record_healthy h.agent_rolled_out agent_image st.last_healthy_agent_image;
          last_healthy_ui_image = record_healthy h.ui_rolled_out ui_image st.last_healthy_ui_image;
          upgrade_started_at = stamp_upgrade in_progress now st.upgrade_started_at;
          phase = phase;
          last_upgrade_duration_seconds =
              upgrade_duration in_progress all_ready st.phase st.upgrade_started_at now
                st.last_upgrade_duration_seconds;
          conditions =
              sync_conditions host.store cr.meta.generation phase agent_image ui_image
                h.agent_serving h.pg_ready ui_ready st.conditions;
        };
      };
      agent_image = agent_image;
      ui_image = ui_image;
      agent_upgrading = agent_up;
      ui_upgrading = ui_up;
      events = phase_events host in_progress all_ready st.phase [];
      gauges = component_gauges h.agent_serving h.pg_ready ui_ready;
    }
