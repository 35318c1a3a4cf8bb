-- ===== src/Entry.antt =====
-- Reconcile (openshiftpulse_controller.go) from its first line to its last: the read of the CR, the
-- deletion branch, admission, the finalizer, the components and the status.
pub mod Laws
use mathlib.Core.List.{◌++◌}
use pulse_operator.Prelude.{
  ℕ, String, Bool, true, false, Option, none, some, List, [], ◌∷◌, is_some, any, ◌==◌, eq_refl, All,
  ◌↔◌, ◌⊎◌, if◌then◌else◌, ◌≡◌, refl, sym, ap, ◌∙◌, arith, Option-cases, Bool-cases, inl, inr,
}
use pulse_operator.Api.{OpenShiftPulse}
use pulse_operator.Host.{Host}
use pulse_operator.Cluster.{
  Error, wrap, is_not_found, Got, found, failed, Ref, openshift_pulse, Log, Cluster, M, ◌>>=◌,
  return, api_update,
}
use pulse_operator.Teardown.{
  scoped_targets, stale_targets, oauth_targets, delete_cluster_scoped_resources,
}
use pulse_operator.Teardown.Settled.{Settled}
use pulse_operator.Teardown.Final.{
  finalizer_name, has_finalizer, Deleted, reconcile_deleted, reconcile_deleted-Settled,
}
use pulse_operator.Admission.{Rejection, Rejected, rejection_reason, reject, reject_unless_oldest}
use pulse_operator.Reconcile.{
  Step, Answer, End, all_done, come_back, give_up, Ran, reconcile_components,
}
use pulse_operator.Status.Pass.{Observed, PassResult, status_pass}

-- What the calls answer beside those on the cluster's objects: the listing of admission, the
-- updates of the status, the sub-reconcilers, and what the status part sees.
pub record Answers : Type 0 where
  pub listed : Got (List OpenShiftPulse)
  pub reject_status : Option Error
  pub step : Step → Answer
  pub seen : Observed
  pub status : Option Error

-- How a pass ends: the CR is gone or cannot be read, is being deleted, cannot be judged or is not
-- the cluster's instance, gets its finalizer, or has its components reconciled, up to a step that
-- stops the pass or with the status written at the end.
pub data Outcome : Type 0 where
  gone : Outcome
  unreadable : Error → Outcome
  torn_down : Deleted → Outcome
  unjudged : Error → Outcome
  ignored : Rejected → Outcome
  marked : OpenShiftPulse → Option Error → Outcome
  stopped : Ran → Outcome
  reported : Ran → PassResult → Option Error → Outcome

-- controllerutil.AddFinalizer, for a CR that lacks it.
unfoldable pub add_finalizer : OpenShiftPulse → OpenShiftPulse
add_finalizer pulse =
    let meta = pulse.meta in
    record pulse { meta = record meta { finalizers = meta.finalizers ++ finalizer_name ∷ [] } }

-- The error that a pass returns.
unfoldable pub end_error : End → Option Error
end_error (give_up e) = some e
end_error _ = none

unfoldable pub error_of : Outcome → Option Error
unfolding end_error
error_of gone = none
error_of (unreadable e) = some e
error_of (torn_down after) = after.error
error_of (unjudged e) = some e
error_of (ignored rejected) = rejected.error
error_of (marked pulse err) = err
error_of (stopped ran) = end_error ran.end
error_of (reported ran pass err) = err

abbrev pub cr_ref : OpenShiftPulse → Ref
cr_ref pulse = record {
  kind = openshift_pulse;
  namespace = pulse.meta.namespace;
  name = pulse.meta.name;
}

-- Whether components were reconciled.
unfoldable pub ran_components : Outcome → Bool
ran_components (stopped ran) = true
ran_components (reported ran pass err) = true
ran_components _ = false

-- The CR once its deletion is asked for.
abbrev pub deleted_at : ℕ → OpenShiftPulse → OpenShiftPulse
deleted_at time pulse =
    let meta = pulse.meta in record pulse { meta = record meta { deleted = some time } }

module _ (host : Host) (cluster : Cluster) (answers : Answers) where
  -- From the components on.
  unfoldable pub reconcile_accepted : OpenShiftPulse → Outcome
  reconcile_accepted pulse =
      let ran = reconcile_components answers.step pulse in
      elim ran.end [
        | all_done ↦
            reported ran (status_pass host answers.seen ran.cr)
              (elim answers.status [ none ↦ none | some e ↦ some (wrap "status update" e) ])
        | come_back seconds ↦ stopped ran
        | give_up e ↦ stopped ran
      ]

  -- From admission on.
  unfoldable pub reconcile_live : OpenShiftPulse → M Outcome
  unfolding reconcile_accepted add_finalizer
  reconcile_live pulse = elim (rejection_reason host.getenv pulse answers.listed) [
    | failed e ↦ return (unjudged e)
    | found (some reason) ↦ (do
      rejected ← reject host cluster pulse reason answers.reject_status
      return (ignored rejected))
    | found none ↦
        if has_finalizer pulse
        then return (reconcile_accepted pulse)
        else do err ← api_update cluster (cr_ref pulse); return (marked (add_finalizer pulse) err)
  ]

  unfoldable pub reconcile : Got OpenShiftPulse → M Outcome
  unfolding reconcile_live
  reconcile (failed e) = return (if is_not_found e then gone else unreadable e)
  reconcile (found pulse) =
      if is_some pulse.meta.deleted
      then (do after ← reconcile_deleted cluster pulse; return (torn_down after))
      else reconcile_live pulse

  accepted_runs : (pulse : OpenShiftPulse) → ran_components (reconcile_accepted pulse) ≡ true
  unfolding reconcile_accepted ran_components
  accepted_runs pulse = ground arith

  -- A pass reconciles components exactly for a CR that is not being deleted, that admission accepts
  -- and that has the finalizer.
  pub components_run_iff :
      (pulse : OpenShiftPulse) (log : Log)
      → (ran_components (reconcile (found pulse) log).0 ≡ true) ↔ (
          (is_some pulse.meta.deleted ≡ false)
          × (rejection_reason host.getenv pulse answers.listed ≡ found none)
          × (has_finalizer pulse ≡ true))
  unfolding reconcile reconcile_live ran_components
  components_run_iff pulse log = ground (arith, accepted_runs pulse)
