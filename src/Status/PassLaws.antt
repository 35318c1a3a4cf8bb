-- ===== src/Status/PassLaws.antt =====
-- What one pass keeps of the status, for the proofs about many passes.
use pulse_operator.Prelude.{
  ℕ, String, Bool, true, false, Option, none, some, ◌==◌, ◌≡◌, ◌≢◌, refl, arith, if◌then◌else◌,
  eq_iff, List, ◌∙◌, ap, sym,
}
use pulse_operator.Api.{upgrading, OpenShiftPulse, ImageRollback, Condition}
use pulse_operator.Host.{Host, ConditionStore, Event, is_condition_false}
use pulse_operator.Pods.{PodProblem}
use pulse_operator.Image.Choice.{requested_image, resolved_image}
use pulse_operator.Status.Sync.{
  ComponentHealth, SyncResult, stamp_upgrade, sync_phase_and_conditions,
}
use pulse_operator.Status.Rollback.{timed_out}
use pulse_operator.Status.RollbackLaws.{
  rollback_frame, rollback_early, agent_rollback_by_timer, agent_rollback_stays,
}
use pulse_operator.Status.Pass.{
  Observed, observe, report_problem, report_pod_problems, set_observed_generation, PassResult,
  status_pass,
}
use pulse_operator.Status.ConditionLaws.{find-sync_conditions_other}

abbrev pub gate : String
gate = "AgentVersionCompatible"

-- Two states of the resource that differ at most in conditions other than the version gate.
pub record SameButReports (host : Host) (cr cr' : OpenShiftPulse) : Type 0 where
  pub same_spec : cr'.spec ≡ cr.spec
  pub same_meta : cr'.meta ≡ cr.meta
  pub same_phase : cr'.status.phase ≡ cr.status.phase
  pub same_start : cr'.status.upgrade_started_at ≡ cr.status.upgrade_started_at
  pub same_agent_image : cr'.status.last_healthy_agent_image ≡ cr.status.last_healthy_agent_image
  pub same_agent_rollback : cr'.status.agent_rollback ≡ cr.status.agent_rollback
  pub same_ui_rollback : cr'.status.ui_rollback ≡ cr.status.ui_rollback
  pub same_ui_image : cr'.status.last_healthy_ui_image ≡ cr.status.last_healthy_ui_image
  pub same_gate :
      host.store.find cr'.status.conditions gate ≡ host.store.find cr.status.conditions gate

report_problem-SameButReports :
    (host : Host) (type : String) (ready : Bool) (p : Option PodProblem) (cr : OpenShiftPulse)
    (events : List Event)
    → (type == gate) ≡ false
    → SameButReports host cr (report_problem host type ready p (cr, events)).0
unfolding report_problem
report_problem-SameButReports host type ready none cr events ne = ground arith
report_problem-SameButReports host type true (some problem) cr events ne = ground arith
report_problem-SameButReports host type false (some problem) cr events ne = record {
  same_spec = refl;
  same_meta = refl;
  same_phase = refl;
  same_start = refl;
  same_agent_image = refl;
  same_agent_rollback = refl;
  same_ui_rollback = refl;
  same_ui_image = refl;
  same_gate = simp (host.store.find-set, ne);
}

SameButReports-trans :
    {host : Host} {a b c : OpenShiftPulse}
    → SameButReports host a b
    → SameButReports host b c
    → SameButReports host a c
SameButReports-trans p q = ground arith

pub report_pod_problems-SameButReports :
    (host : Host) (seen : Observed) (cr : OpenShiftPulse) (events : List Event)
    → SameButReports host cr (report_pod_problems host seen cr events).0
unfolding report_pod_problems
report_pod_problems-SameButReports host seen cr events =
    let first =
      report_problem host "AgentReady" seen.health.agent_serving seen.agent_problem (cr, events) in
    SameButReports-trans
      (report_problem-SameButReports host "AgentReady" seen.health.agent_serving seen.agent_problem
        cr events refl)
      (report_problem-SameButReports host "UIReady" cr.status.ui_available seen.ui_problem first.0
        first.1 refl)

-- What the sync leaves of the gate.
pub find-sync_gate :
    (host : Host) (now : ℕ) (cr : OpenShiftPulse) (h : ComponentHealth)
    → host.store.find (sync_phase_and_conditions host now cr h).cr.status.conditions gate
      ≡ host.store.find cr.status.conditions gate
unfolding sync_phase_and_conditions
find-sync_gate host now cr h =
    find-sync_conditions_other host.store _ _ _ _ _ _ _ _ gate refl refl refl refl refl

pub is_condition_false-congr :
    (store : ConditionStore) (a b : List Condition) (type : String)
    → store.find a type ≡ store.find b type
    → is_condition_false store a type ≡ is_condition_false store b type
is_condition_false-congr store a b type e = ground arith

-- The agent waits for its upgrade: nothing is rolled back, the image asked for is not the last
-- healthy one, and the version gate is open.
pub record IsWaiting (host : Host) (cr : OpenShiftPulse) : Type 0 where
  pub not_rolled_back : cr.status.agent_rollback ≡ none
  pub healthy_known : cr.status.last_healthy_agent_image ≢ ""
  pub asks_for_other : requested_image host.getenv cr ≢ cr.status.last_healthy_agent_image
  pub gate_open : is_condition_false host.store cr.status.conditions gate ≡ false

module _ (host : Host) (seen : Observed) (cr : OpenShiftPulse) where
  abbrev pub synced : SyncResult
  synced = sync_phase_and_conditions host seen.now (observe seen cr) seen.health

  abbrev pub reported : OpenShiftPulse × List Event
  reported = report_pod_problems host seen synced.cr synced.events

  abbrev pub outcome : PassResult
  outcome = status_pass host seen cr

  abbrev pub requested : String
  requested = requested_image host.getenv cr

  sync_spec : synced.cr.spec ≡ cr.spec
  unfolding sync_phase_and_conditions observe
  sync_spec = refl

  observed_gate :
      host.store.find (observe seen cr).status.conditions gate
      ≡ host.store.find cr.status.conditions gate
  unfolding observe
  observed_gate = refl

  -- A pass leaves the fields that the sync has set, but a rollback clears the timer, and the gate as it
  -- was before.
  pub pass_frame :
      (outcome.cr.spec ≡ cr.spec)
      × (outcome.cr.status.phase ≡ synced.cr.status.phase)
      × (outcome.cr.status.upgrade_started_at
          ≡ (if outcome.rolled_back then none else synced.cr.status.upgrade_started_at))
      × (outcome.cr.status.last_healthy_agent_image ≡ synced.cr.status.last_healthy_agent_image)
      × (host.store.find outcome.cr.status.conditions gate
          ≡ host.store.find cr.status.conditions gate)
  unfolding status_pass set_observed_generation
  pass_frame =
      let same = report_pod_problems-SameButReports host seen synced.cr synced.events in
      let (f1, f2, f3, f4, f5, f6, f7, f8) =
        rollback_frame host seen.now reported.0 synced.agent_upgrading synced.ui_upgrading
          reported.1 in
      (
        f1 ∙ same.same_spec ∙ sync_spec,
        f3 ∙ same.same_phase,
        f4 ∙ ap (λ t. if outcome.rolled_back then none else t) same.same_start,
        f5 ∙ same.same_agent_image,
        ap (λ cs. host.store.find cs gate) f7
            ∙ same.same_gate
            ∙ find-sync_gate host seen.now (observe seen cr) seen.health
            ∙ observed_gate,
      )

  pub sync_waiting :
      IsWaiting host cr
      → seen.health.agent_rolled_out ≡ false
      → (synced.agent_upgrading ≡ true)
        × (synced.cr.status.phase ≡ upgrading)
        × (synced.cr.status.agent_rollback ≡ none)
        × (synced.cr.status.last_healthy_agent_image ≡ cr.status.last_healthy_agent_image)
        × (synced.cr.spec ≡ cr.spec)
        × (synced.cr.status.upgrade_started_at
            ≡ stamp_upgrade true seen.now cr.status.upgrade_started_at)
  unfolding sync_phase_and_conditions observe resolved_image
  sync_waiting w h = ground (
    arith,
    eq_iff cr.status.last_healthy_agent_image "",
    eq_iff requested cr.status.last_healthy_agent_image,
  )

  -- The spec decides the image asked for.
  pub requested_image-spec :
      (cr' : OpenShiftPulse) → cr'.spec ≡ cr.spec → requested_image host.getenv cr' ≡ requested
  unfolding requested_image
  requested_image-spec cr' e = cc

  -- In a pass over a waiting agent the timer decides on the rollback.
  pub rollback_waiting :
      IsWaiting host cr
      → seen.health.agent_rolled_out ≡ false
      → outcome.cr.status.agent_rollback ≡ (
          if timed_out upgrading (stamp_upgrade true seen.now cr.status.upgrade_started_at) seen.now
          then some
              (record { from = requested; to = cr.status.last_healthy_agent_image; at = seen.now })
          else none)
  unfolding status_pass set_observed_generation
  rollback_waiting w h =
      let (s1, s2, s3, s4, s5, s6) = sync_waiting w h in
      let same = report_pod_problems-SameButReports host seen synced.cr synced.events in
      let ungated =
        same.same_gate
        ∙ find-sync_gate host seen.now (observe seen cr) seen.health
        ∙ observed_gate in
      let e =
        agent_rollback_by_timer host seen.now reported.0 synced.agent_upgrading synced.ui_upgrading
          reported.1 (same.same_agent_rollback ∙ s3) s1
          (is_condition_false-congr host.store _ _ gate ungated ∙ w.gate_open)
          (λ none_known. w.healthy_known (sym s4 ∙ sym same.same_agent_image ∙ none_known)) in
      e
      ∙ cc (
        same.same_phase,
        s2,
        same.same_start,
        s6,
        same.same_agent_image,
        s4,
        requested_image-spec reported.0 (same.same_spec ∙ s5),
      )

  -- A pass before the timeout leaves the timer as the sync has set it.
  pub pass_early :
      timed_out synced.cr.status.phase synced.cr.status.upgrade_started_at seen.now ≡ false
      → outcome.cr.status.upgrade_started_at ≡ synced.cr.status.upgrade_started_at
  unfolding status_pass set_observed_generation
  pass_early early =
      let same = report_pod_problems-SameButReports host seen synced.cr synced.events in
      let quiet : outcome.rolled_back ≡ false =
        rollback_early host seen.now reported.0 synced.agent_upgrading synced.ui_upgrading
          reported.1 (rw (same.same_phase, same.same_start) early) in
      pass_frame.2 ∙ ap (λ b. if b then none else synced.cr.status.upgrade_started_at) quiet

  sync_rolled_back :
      (rb : ImageRollback)
      → cr.status.agent_rollback ≡ some rb
      → rb.from ≡ requested
      → rb.to ≡ cr.status.last_healthy_agent_image
      → rb.to ≢ ""
      → (synced.agent_upgrading ≡ false)
        × (synced.agent_image ≡ rb.to)
        × (synced.cr.status.agent_rollback ≡ some rb)
        × (synced.cr.status.last_healthy_agent_image ≡ cr.status.last_healthy_agent_image)
  unfolding sync_phase_and_conditions observe resolved_image
  sync_rolled_back rb e from to known = ground (
    arith,
    eq_iff rb.from requested,
    eq_iff rb.to "",
    eq_iff rb.to cr.status.last_healthy_agent_image,
  )

  -- While a record for the image asked for is there, the agent runs the last healthy image and is
  -- not upgrading, whatever the health of its pods; the pass keeps the record.
  pub pass_rolled_back :
      (rb : ImageRollback)
      → cr.status.agent_rollback ≡ some rb
      → rb.from ≡ requested
      → rb.to ≡ cr.status.last_healthy_agent_image
      → rb.to ≢ ""
      → (synced.agent_upgrading ≡ false)
        × (synced.agent_image ≡ rb.to)
        × (outcome.cr.status.agent_rollback ≡ some rb)
        × (outcome.cr.status.last_healthy_agent_image ≡ cr.status.last_healthy_agent_image)
  pass_rolled_back rb e from to known =
      let (s1, s2, s3, s4) = sync_rolled_back rb e from to known in
      let same = report_pod_problems-SameButReports host seen synced.cr synced.events in
      (
        s1,
        s2,
        unfold status_pass set_observed_generation in
            agent_rollback_stays host seen.now reported.0 synced.agent_upgrading synced.ui_upgrading
              reported.1 rb (same.same_agent_rollback ∙ s3),
        pass_frame.3 ∙ s4,
      )
