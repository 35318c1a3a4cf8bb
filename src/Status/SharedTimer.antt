-- ===== src/Status/SharedTimer.antt =====
-- The agent and the UI share one upgrade timer.
use pulse_operator.Prelude.{
  ℕ, ◌+◌, ◌≤◌, String, Bool, true, false, none, some, ◌≡◌, ◌≢◌, arith, ◌∙◌, eq_iff, List, sym,
}
use pulse_operator.Api.{upgrading, OpenShiftPulse}
use pulse_operator.Host.{Host, Event}
use pulse_operator.Image.Choice.{requested_ui_image, resolved_ui_image}
use pulse_operator.Status.Sync.{sync_phase_and_conditions, current_rollback}
use pulse_operator.Status.Rollback.{upgrade_health_timeout, reconcile_auto_rollback, timed_out}
use pulse_operator.Status.Pass.{Observed, observe, status_pass, set_observed_generation}
use pulse_operator.Status.PassLaws.{synced, reported, outcome, report_pod_problems-SameButReports}

-- The rollback step, from a state whose timer has run out.
module _ (host : Host) (now : ℕ) (cr : OpenShiftPulse) (agent_upgrading ui_upgrading : Bool)
    (events : List Event) where
  ui_rollback_due :
      ui_upgrading ≡ true
      → timed_out cr.status.phase cr.status.upgrade_started_at now ≡ true
      → cr.status.ui_rollback ≡ none
      → cr.status.last_healthy_ui_image ≢ ""
      → (reconcile_auto_rollback host now cr agent_upgrading ui_upgrading
          events).cr.status.ui_rollback
        ≡ some (record {
          from = requested_ui_image host.getenv cr;
          to = cr.status.last_healthy_ui_image;
          at = now;
        })
  unfolding reconcile_auto_rollback requested_ui_image
  ui_rollback_due up due n known = ground (arith, eq_iff cr.status.last_healthy_ui_image "")

module _ (host : Host) (seen : Observed) (cr : OpenShiftPulse) where
  abbrev pub asked : String
  asked = requested_ui_image host.getenv cr

  sync_new_ui_image :
      (start : ℕ)
      → cr.status.upgrade_started_at ≡ some start
      → cr.status.last_healthy_ui_image ≢ ""
      → asked ≢ cr.status.last_healthy_ui_image
      → current_rollback asked cr.status.ui_rollback ≡ none
      → seen.health.ui_rolled_out ≡ false
      → ((synced host seen cr).ui_upgrading ≡ true)
        × ((synced host seen cr).cr.status.phase ≡ upgrading)
        × ((synced host seen cr).cr.status.upgrade_started_at ≡ some start)
        × ((synced host seen cr).cr.status.ui_rollback ≡ none)
        × ((synced host seen cr).cr.status.last_healthy_ui_image ≡ cr.status.last_healthy_ui_image)
        × ((synced host seen cr).cr.spec ≡ cr.spec)
  unfolding sync_phase_and_conditions observe resolved_ui_image
  sync_new_ui_image start e known ne n h = ground (
    arith,
    eq_iff cr.status.last_healthy_ui_image "",
    eq_iff asked cr.status.last_healthy_ui_image,
  )

  requested_ui_image-spec :
      (cr' : OpenShiftPulse) → cr'.spec ≡ cr.spec → requested_ui_image host.getenv cr' ≡ asked
  unfolding requested_ui_image
  requested_ui_image-spec cr' e = cc

  timed_out_due :
      (start : ℕ)
      → start + upgrade_health_timeout ≤ seen.now
      → timed_out upgrading (some start) seen.now ≡ true
  unfolding timed_out
  timed_out_due start late = ground arith

  -- If the timer was started five minutes ago or earlier, say for the agent, the last healthy UI image
  -- is known, the spec asks for another one, no rollback of that one is on record and the UI is not
  -- rolled out, then the next pass rolls the UI back, however recently the spec began to ask.
  pub new_ui_image_rolled_back :
      (start : ℕ)
      → cr.status.upgrade_started_at ≡ some start
      → start + upgrade_health_timeout ≤ seen.now
      → cr.status.last_healthy_ui_image ≢ ""
      → asked ≢ cr.status.last_healthy_ui_image
      → current_rollback asked cr.status.ui_rollback ≡ none
      → seen.health.ui_rolled_out ≡ false
      → (outcome host seen cr).cr.status.ui_rollback
        ≡ some (record { from = asked; to = cr.status.last_healthy_ui_image; at = seen.now })
  unfolding status_pass set_observed_generation
  new_ui_image_rolled_back start e late known ne n h =
      let (s1, s2, s3, s4, s5, s6) = sync_new_ui_image start e known ne n h in
      let same =
        report_pod_problems-SameButReports host seen (synced host seen cr).cr
          (synced host seen cr).events in
      let due : timed_out (reported host seen cr).0.status.phase
            (reported host seen cr).0.status.upgrade_started_at seen.now
          ≡ true =
        cc (same.same_phase, s2, same.same_start, s3, timed_out_due start late) in
      ui_rollback_due host seen.now (reported host seen cr).0 (synced host seen cr).agent_upgrading
        (synced host seen cr).ui_upgrading (reported host seen cr).1 s1 due
        (same.same_ui_rollback ∙ s4) (λ e'. known (sym s5 ∙ sym same.same_ui_image ∙ e'))
      ∙ cc (
        requested_ui_image-spec (reported host seen cr).0 (same.same_spec ∙ s6),
        same.same_ui_image,
        s5,
      )
