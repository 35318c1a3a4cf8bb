-- ===== src/Teardown/Final.antt =====
-- The deletion branch of Reconcile (openshiftpulse_controller.go), with deletePGDataOnRequest
-- (postgresql_reconciler.go).
use mathlib.Core.List.{◌++◌}
use pulse_operator.Prelude.{
  String, Bool, not, Option, none, some, List, [], ◌∷◌, text_at, ◌==◌, if◌then◌else◌, any, keep,
  ◌≡◌, All, arith, true, false, Option-cases, inl, inr,
}
use pulse_operator.Api.{OpenShiftPulse}
use pulse_operator.Host.{normal, warning, Event}
use pulse_operator.Cluster.{
  Error, Ref, secret, persistent_volume_claim, openshift_pulse, delete, Log, Cluster, M, ◌>>=◌,
  return, api_delete, api_update, is_not_found, wrap, join_errors,
}
use pulse_operator.Names.{pg_auth_secret_name, pg_data_pvc_name}
use pulse_operator.Teardown.{
  scoped_targets, stale_targets, oauth_targets, delete_cluster_scoped_resources,
}
use pulse_operator.Teardown.Settled.{Settled, delete_cluster_scoped_resources-Settled}

abbrev pub finalizer_name : String
finalizer_name = "pulse.ai/cleanup"

abbrev pub annotation_delete_data : String
annotation_delete_data = "pulse.ai/delete-data"

unfoldable pub has_finalizer : OpenShiftPulse → Bool
has_finalizer pulse = any (λ f. f == finalizer_name) pulse.meta.finalizers

-- controllerutil.RemoveFinalizer
unfoldable pub remove_finalizer : OpenShiftPulse → OpenShiftPulse
remove_finalizer pulse =
    let meta = pulse.meta in
    record pulse {
      meta = record meta { finalizers = keep (λ f. not (f == finalizer_name)) meta.finalizers };
    }

abbrev pub pg_auth_ref : OpenShiftPulse → Ref
pg_auth_ref pulse = record {
  kind = secret;
  namespace = pulse.meta.namespace;
  name = pg_auth_secret_name pulse.meta.name;
}

abbrev pub pg_data_ref : OpenShiftPulse → Ref
pg_data_ref pulse = record {
  kind = persistent_volume_claim;
  namespace = pulse.meta.namespace;
  name = pg_data_pvc_name pulse.meta.name;
}

-- An error of a delete, unless there was nothing to delete.
unfoldable pub report_delete : String → Option Error → List Error
report_delete text none = []
report_delete text (some e) = if is_not_found e then [] else wrap text e ∷ []

-- The CR after the branch, the error returned, and the events recorded. `forgotten` says that
-- forgetInstanceMetrics was called.
pub record Deleted : Type 0 where
  pub error : Option Error
  pub cr : OpenShiftPulse
  pub events : List Event
  pub forgotten : Bool

module _ (cluster : Cluster) (pulse : OpenShiftPulse) where
  unfoldable pub delete_pg_data_on_request : M (Option Error)
  delete_pg_data_on_request =
      if not (text_at annotation_delete_data pulse.meta.annotations == "true")
      then return none
      else do
        auth ← api_delete cluster (pg_auth_ref pulse)
        data_claim ← api_delete cluster (pg_data_ref pulse)
        return (
            join_errors (
              report_delete "delete pg-auth secret" auth
              ++ report_delete "delete pg-data PVC" data_claim))

  abbrev delete_failed : Error → Deleted
  delete_failed e = record {
    error = some e;
    cr = pulse;
    events = record { type = warning; reason = "DeleteFailed" } ∷ [];
    forgotten = false;
  }

  abbrev cleaned_up : Option Error → Deleted
  cleaned_up err = record {
    error = err;
    cr = remove_finalizer pulse;
    events = record { type = normal; reason = "Deleted" } ∷ [];
    forgotten = true;
  }

  unfoldable pub release : M Deleted
  unfolding delete_pg_data_on_request
  release = do
    err ← delete_cluster_scoped_resources cluster pulse
    elim err [
      | some e ↦ return (delete_failed e)
      | none ↦ (do
        pg_err ← delete_pg_data_on_request
        elim pg_err [
          | some e ↦ return (delete_failed e)
          | none ↦ (do
            update_err ← api_update cluster (record {
              kind = openshift_pulse;
              namespace = pulse.meta.namespace;
              name = pulse.meta.name;
            })
            return (cleaned_up update_err))
        ])
    ]

  unfoldable pub reconcile_deleted : M Deleted
  unfolding has_finalizer
  reconcile_deleted =
      if has_finalizer pulse
      then release
      else return (record { error = none; cr = pulse; events = []; forgotten = false })

  -- Of the database's Secret and volume claim, both are deleted, in this order and whatever the
  -- first delete answers, exactly when the annotation pulse.ai/delete-data is "true"; otherwise the
  -- API is not called.
  pub delete_pg_data_on_request-calls :
      (log : Log)
      → (delete_pg_data_on_request log).1 ≡ (
          if text_at annotation_delete_data pulse.meta.annotations == "true"
          then (log ++ delete (pg_auth_ref pulse) ∷ []) ++ delete (pg_data_ref pulse) ∷ []
          else log)
  unfolding delete_pg_data_on_request
  delete_pg_data_on_request-calls log = ground arith

  -- If a CR with the finalizer is reconciled for deletion without an error, then every object on the
  -- lists of cluster-scoped targets was asked for during its deletion, and was gone, or did not carry
  -- the CR's stamp, or was deleted.
  pub reconcile_deleted-Settled :
      (log : Log)
      → has_finalizer pulse ≡ true
      → (reconcile_deleted log).0.error ≡ none
      → All
          (Settled cluster pulse log (delete_cluster_scoped_resources cluster pulse log).1)
          (scoped_targets pulse ++ (stale_targets pulse ++ oauth_targets pulse))
  unfolding reconcile_deleted release
  reconcile_deleted-Settled log held ok =
      elim (Option-cases (delete_cluster_scoped_resources cluster pulse log).0) [
        | inl e ↦ delete_cluster_scoped_resources-Settled cluster pulse log e
        | inr (e, q) ↦ ground (arith, held, ok, q)
      ]

  -- If the cluster-scoped deletion of a CR with the finalizer reports an error, then the CR keeps its
  -- finalizer, the error is returned and DeleteFailed is recorded.
  pub finalizer_kept :
      (log : Log) (e : Error)
      → has_finalizer pulse ≡ true
      → (delete_cluster_scoped_resources cluster pulse log).0 ≡ some e
      → (reconcile_deleted log).0 ≡ delete_failed e
  unfolding reconcile_deleted release
  finalizer_kept log e held q = ground (arith, held, q)
