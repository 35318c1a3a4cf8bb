-- ===== src/Status/PhaseLaws.antt =====
-- What the status sync leaves behind: the phase, the times and the images.
use pulse_operator.Prelude.{
  ℕ, Bool, true, false, ◌&&◌, ◌||◌, none, some, ◌≡◌, ◌≢◌, ◌⊎◌, ◌↔◌, arith, is_some,
}
use pulse_operator.Api.{Phase, upgrading, running, degraded, OpenShiftPulse, Status}
use pulse_operator.Host.{Host}
use pulse_operator.Status.Sync.{
  ComponentHealth, is_upgrading_phase, next_phase, SyncResult, sync_phase_and_conditions,
  rounded_seconds,
}

next_phase-running_iff :
    (in_progress all_ready : Bool) (previous : Phase)
    → (next_phase in_progress all_ready previous ≡ running)
      ↔ ((in_progress ≡ false) × (all_ready ≡ true))
unfolding next_phase
next_phase-running_iff in_progress all_ready previous = ground arith

next_phase-upgrading_iff :
    (in_progress all_ready : Bool) (previous : Phase)
    → is_upgrading_phase (next_phase in_progress all_ready previous) ≡ in_progress
unfolding next_phase
next_phase-upgrading_iff in_progress all_ready previous = ground arith

module _ (host : Host) (now : ℕ) (given : OpenShiftPulse) (h : ComponentHealth) where
  abbrev pub result : SyncResult
  result = sync_phase_and_conditions host now given h

  abbrev pub after : Status
  after = result.cr.status

  -- The phase is Running exactly when the agent serves, the database is ready, the UI is available
  -- and neither the agent nor the UI is upgrading, whatever the phase was before.
  pub phase-running_iff : (after.phase ≡ running) ↔ (
      (h.agent_serving ≡ true)
      × (h.pg_ready ≡ true)
      × (given.status.ui_available ≡ true)
      × (result.agent_upgrading ≡ false)
      × (result.ui_upgrading ≡ false))
  unfolding sync_phase_and_conditions
  phase-running_iff = ground arith

  -- Upgrading, an upgrade in progress and a running timer are one: the phase is Upgrading exactly
  -- when the agent or the UI is upgrading, and exactly then a start time is kept.
  pub phase-upgrading_iff :
      (is_upgrading_phase after.phase ≡ (result.agent_upgrading || result.ui_upgrading))
      × (is_some after.upgrade_started_at ≡ is_upgrading_phase after.phase)
  unfolding sync_phase_and_conditions
  phase-upgrading_iff = ground arith

  -- The timer is started once: a pass that is still upgrading keeps the start it finds.
  pub upgrade_started_at_kept :
      (start : ℕ)
      → given.status.upgrade_started_at ≡ some start
      → (after.upgrade_started_at ≡ none) ⊎ (after.upgrade_started_at ≡ some start)
  unfolding sync_phase_and_conditions
  upgrade_started_at_kept start e = ground arith

  -- The phase becomes Degraded exactly when it was Running or Upgrading, no upgrade is in progress
  -- and some component is down.
  pub phase-degraded_iff : (after.phase ≡ degraded) ↔ (
      ((given.status.phase ≡ running) ⊎ (given.status.phase ≡ upgrading))
      × (result.agent_upgrading ≡ false)
      × (result.ui_upgrading ≡ false)
      × ((h.agent_serving && (h.pg_ready && given.status.ui_available)) ≡ false))
  unfolding sync_phase_and_conditions
  phase-degraded_iff = ground arith

  -- The agent image on record changes only to the image that runs, in a pass in which that image
  -- has rolled out and the agent is not upgrading.
  pub last_healthy_agent_image_moves :
      after.last_healthy_agent_image ≢ given.status.last_healthy_agent_image
      → (h.agent_rolled_out ≡ true)
        × (after.last_healthy_agent_image ≡ result.agent_image)
        × (result.agent_upgrading ≡ false)
  unfolding sync_phase_and_conditions
  last_healthy_agent_image_moves ne = ground arith

  -- The recorded upgrade time changes only when the phase goes from Upgrading to Running, and is
  -- then the time since the upgrade's start, to the nearest second.
  pub upgrade_duration_moves :
      after.last_upgrade_duration_seconds ≢ given.status.last_upgrade_duration_seconds
      → (given.status.phase ≡ upgrading)
        × (after.phase ≡ running)
        × ((start : ℕ) × (given.status.upgrade_started_at ≡ some start)
            × (after.last_upgrade_duration_seconds ≡ rounded_seconds now start))
  unfolding sync_phase_and_conditions
  upgrade_duration_moves ne = ground arith
