-- ===== src/Status/RollbackLaws.antt =====
-- When a rollback is recorded, what it records, and that it is not repeated.
use pulse_operator.Prelude.{
  ℕ, ◌+◌, ◌≤◌, Bool, true, false, none, some, ◌≡◌, ◌≢◌, ◌↔◌, inl, inr, refl, arith, Option-cases,
  if◌then◌else◌, eq_iff, List,
}
use pulse_operator.Api.{upgrading, OpenShiftPulse, ImageRollback}
use pulse_operator.Host.{Host, Event, is_condition_false}
use pulse_operator.Image.Choice.{requested_image}
use pulse_operator.Status.Rollback.{
  upgrade_health_timeout, RollbackResult, reconcile_auto_rollback, timed_out,
}

-- The timer has run for the whole timeout in phase Upgrading.
abbrev pub HasTimedOut : OpenShiftPulse → ℕ → Type 0
HasTimedOut cr now =
    (cr.status.phase ≡ upgrading)
    × ((start : ℕ) × (cr.status.upgrade_started_at ≡ some start)
        × (start + upgrade_health_timeout ≤ now))

pub timed_out_iff :
    (cr : OpenShiftPulse) (now : ℕ)
    → (timed_out cr.status.phase cr.status.upgrade_started_at now ≡ true) ↔ HasTimedOut cr now
unfolding timed_out
timed_out_iff cr now = elim (Option-cases cr.status.upgrade_started_at) [
  | inl n ↦ rw (n, timed_out) (ground arith)
  | inr (start, e) ↦
      rw (e, timed_out) (λ h. (ground arith, (start, refl, ground arith)), λ due. ground arith)
]

module _ (host : Host) (now : ℕ) (cr : OpenShiftPulse) (agent_upgrading ui_upgrading : Bool)
    (events : List Event) where
  abbrev pub result : RollbackResult
  result = reconcile_auto_rollback host now cr agent_upgrading ui_upgrading events

  -- A new agent rollback is recorded only while the agent is upgrading, after the timeout, with the
  -- version gate not closed, no rollback on record and a last healthy image known; it goes from the
  -- requested image to the last healthy one, and clears the timer.
  pub agent_rollback_recorded :
      (rb : ImageRollback)
      → cr.status.agent_rollback ≡ none
      → result.cr.status.agent_rollback ≡ some rb
      → HasTimedOut cr now
        × (agent_upgrading ≡ true)
        × (is_condition_false host.store cr.status.conditions "AgentVersionCompatible" ≡ false)
        × (rb.from ≡ requested_image host.getenv cr)
        × (rb.to ≡ cr.status.last_healthy_agent_image)
        × (rb.to ≢ "")
        × (rb.at ≡ now)
        × (result.rolled_back ≡ true)
        × (result.cr.status.upgrade_started_at ≡ none)
  unfolding reconcile_auto_rollback
  agent_rollback_recorded rb n e =
      let due : timed_out cr.status.phase cr.status.upgrade_started_at now ≡ true = ground arith in
      (
        (timed_out_iff cr now).0 due,
        ground arith,
        ground arith,
        ground arith,
        ground arith,
        ground (arith, eq_iff cr.status.last_healthy_agent_image ""),
        ground arith,
        ground arith,
        ground arith,
      )

  -- An automatic rollback leaves the spec, the phase, the healthy images and the conditions alone, and
  -- clears the timer; without one nothing at all changes.
  pub rollback_frame :
      (result.cr.spec ≡ cr.spec)
      × (result.cr.meta ≡ cr.meta)
      × (result.cr.status.phase ≡ cr.status.phase)
      × (result.cr.status.upgrade_started_at
          ≡ (if result.rolled_back then none else cr.status.upgrade_started_at))
      × (result.cr.status.last_healthy_agent_image ≡ cr.status.last_healthy_agent_image)
      × (result.cr.status.last_healthy_ui_image ≡ cr.status.last_healthy_ui_image)
      × (result.cr.status.conditions ≡ cr.status.conditions)
      × (result.rolled_back ≡ false → result.cr ≡ cr)
  unfolding reconcile_auto_rollback
  rollback_frame = ground arith

  -- Before the timeout nothing is rolled back.
  pub rollback_early :
      timed_out cr.status.phase cr.status.upgrade_started_at now ≡ false
      → result.rolled_back ≡ false
  unfolding reconcile_auto_rollback
  rollback_early early = ground (arith, early)

  -- With every guard but the timer passed, the timer decides.
  pub agent_rollback_by_timer :
      cr.status.agent_rollback ≡ none
      → agent_upgrading ≡ true
      → is_condition_false host.store cr.status.conditions "AgentVersionCompatible" ≡ false
      → cr.status.last_healthy_agent_image ≢ ""
      → result.cr.status.agent_rollback ≡ (
          if timed_out cr.status.phase cr.status.upgrade_started_at now
          then some (record {
            from = requested_image host.getenv cr;
            to = cr.status.last_healthy_agent_image;
            at = now;
          })
          else none)
  unfolding reconcile_auto_rollback
  agent_rollback_by_timer n up ungated known =
      ground (arith, eq_iff cr.status.last_healthy_agent_image "")

  -- A record that is there stays as it is.
  pub agent_rollback_stays :
      (rb : ImageRollback)
      → cr.status.agent_rollback ≡ some rb
      → result.cr.status.agent_rollback ≡ some rb
  unfolding reconcile_auto_rollback
  agent_rollback_stays rb e = ground arith
