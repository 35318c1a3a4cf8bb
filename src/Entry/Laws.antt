-- ===== src/Entry/Laws.antt =====
-- What Reconcile (openshiftpulse_controller.go) promises over two passes.
use mathlib.Core.List.{◌++◌}
use pulse_operator.Prelude.{ℕ, true, none, List, All, ◌≡◌}
use pulse_operator.Api.{OpenShiftPulse}
use pulse_operator.Host.{Host}
use pulse_operator.Cluster.{found, Log, Cluster}
use pulse_operator.Teardown.{
  scoped_targets, stale_targets, oauth_targets, delete_cluster_scoped_resources,
}
use pulse_operator.Teardown.Settled.{Settled}
use pulse_operator.Teardown.Final.{has_finalizer, reconcile_deleted-Settled}
use pulse_operator.Entry.{
  Answers, reconcile, error_of, ran_components, deleted_at, components_run_iff,
}

module _ (host : Host) (cluster : Cluster) where
  abbrev pub IsReached : Answers → OpenShiftPulse → Log → Type 0
  IsReached answers pulse log =
      ran_components (reconcile host cluster answers (found pulse) log).0 ≡ true

  -- Whatever a pass of the operator has begun is cleaned up: if components of a CR were reconciled in
  -- a pass, and a pass after its deletion was asked for ends without an error, then that pass asked
  -- for every object on the lists of cluster-scoped targets, and it was gone, or did not carry the
  -- CR's stamp, or was deleted.
  pub nothing_is_left_behind :
      (first second : Answers) (pulse : OpenShiftPulse) (time : ℕ) (log later : Log)
      → ran_components (reconcile host cluster first (found pulse) log).0 ≡ true
      → error_of (reconcile host cluster second (found (deleted_at time pulse)) later).0 ≡ none
      → All
          (Settled cluster
            (deleted_at time pulse)
            later
            (delete_cluster_scoped_resources cluster (deleted_at time pulse) later).1)
          (scoped_targets pulse ++ (stale_targets pulse ++ oauth_targets pulse))
  unfolding reconcile error_of has_finalizer scoped_targets stale_targets oauth_targets
  nothing_is_left_behind first second pulse time log later ran fine =
      reconcile_deleted-Settled cluster (deleted_at time pulse) later
        ((components_run_iff host cluster first pulse log).0 ran).2 fine
