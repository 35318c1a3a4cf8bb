-- ===== src/Tests/EntryTests.antt =====
-- Witnesses for whole passes of Reconcile.
use mathlib.Core.List.{◌++◌}
use pulse_operator.Prelude.{false, none, [], ◌∷◌, refl, All, text_at, lookup}
use pulse_operator.Api.{OpenShiftPulse}
use pulse_operator.Cluster.{
  Cluster, found, failed, not_found, is_not_found, status_not_found, join_errors,
}
use pulse_operator.Cluster.Removal.{delete_stale, delete_if, ignore_not_found}
use pulse_operator.Teardown.{
  scoped_targets, stale_targets, oauth_targets, delete_cluster_scoped_resources, for_each,
  delete_target, delete_stale_target, report, collect, is_gone,
}
use pulse_operator.Teardown.Settled.{Settled}
use pulse_operator.Teardown.Final.{
  finalizer_name, has_finalizer, reconcile_deleted, release, delete_pg_data_on_request,
}
use pulse_operator.Admission.{rejection_reason, live, pulse_namespace}
use pulse_operator.Features.{has_ai_backend, vertex_configured, api_key_configured}
use pulse_operator.Reconcile.{done, error, reconcile_components, run_steps, steps_of}
use pulse_operator.Status.Pass.{Observed}
use pulse_operator.Entry.{
  Answers, reconcile, reconcile_live, reconcile_accepted, error_of, ran_components, deleted_at,
}
use pulse_operator.Entry.Laws.{nothing_is_left_behind}
use pulse_operator.Tests.Sample.{cr, meta, host}

-- No object exists, and every write succeeds.
abbrev bare : Cluster
bare = record { on_get = λ log ref. failed not_found; on_write = λ log call. none }

-- Nothing is ready.
abbrev nothing_ready : Observed
nothing_ready = record {
  now = 0;
  health = record {
    agent_serving = false;
    agent_rolled_out = false;
    ui_rolled_out = false;
    pg_ready = false;
  };
  ui_available = false;
  agent_images = none;
  agent_problem = none;
  ui_problem = none;
}

-- The only CR, and every step is done.
abbrev fine : Answers
fine = record {
  listed = found (cr ∷ []);
  reject_status = none;
  step = λ step. done;
  seen = nothing_ready;
  status = none;
}

-- As before, but the first step fails.
abbrev failing : Answers
failing = record fine { step = λ step. error not_found }

abbrev held : OpenShiftPulse
held = record cr { meta = record meta { finalizers = finalizer_name ∷ [] } }

nothing_is_left_behind_example :
    All
      (Settled bare
        (deleted_at 5 held)
        []
        (delete_cluster_scoped_resources bare (deleted_at 5 held) []).1)
      (scoped_targets held ++ (stale_targets held ++ oauth_targets held))
unfolding reconcile reconcile_live reconcile_accepted ran_components error_of rejection_reason live
    pulse_namespace has_finalizer reconcile_components run_steps steps_of reconcile_deleted release
    delete_cluster_scoped_resources for_each delete_target delete_stale_target scoped_targets
    stale_targets oauth_targets report collect is_gone is_not_found status_not_found delete_stale
    delete_if ignore_not_found join_errors delete_pg_data_on_request text_at lookup has_ai_backend
    vertex_configured api_key_configured
nothing_is_left_behind_example =
    nothing_is_left_behind host bare failing failing held 5 [] [] refl refl
