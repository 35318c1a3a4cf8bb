-- ===== src/Postgres/Passes.antt =====
-- The promises of reconcilePGStatefulSet over one pass and the next.
use pulse_operator.Prelude.{
  false, Option, none, some, [], ◌≡◌, ◌≢◌, ap, ◌∙◌, arith, Bool-cases, Option-cases, inl, inr,
}
use pulse_operator.Api.{OpenShiftPulse}
use pulse_operator.Host.{Host}
use pulse_operator.Cluster.{Error}
use pulse_operator.Postgres.Version.{pg_major_version}
use pulse_operator.Postgres.Laws.{guard_keeps_major_version}
use pulse_operator.Postgres.Template.{StatefulSet, pg_image, container_image, is_mismatched}
use pulse_operator.Postgres.StatefulSet.{
  ApiServer, Inputs, guarded_image, create_set, update_set, reconcile_existing_set,
  reconcile_pg_stateful_set,
}
use pulse_operator.Postgres.StatefulSetLaws.{
  SameVolume, updated, updated-image, guarded_image_lem, IsKept, kept_result,
}
use pulse_operator.Postgres.StatefulSetPasses.{
  IsAnswered, updated_or_left, idle_after_update, idle_after_create, no_rebuild_after_update,
  no_rebuild_after_create,
}

-- A pass over a StatefulSet that is neither being deleted nor another tool's leaves it there with its
-- volume claim templates, selector, service name and replicas, whatever the spec asks for and
-- whatever fails.
pub volume_template_stays :
    (host : Host) (server : ApiServer) (pulse : OpenShiftPulse) (inputs : Inputs)
    (sts : StatefulSet)
    → IsKept host server pulse sts
    → (after : StatefulSet) × ((reconcile_pg_stateful_set host server pulse inputs
          (some sts)).stored
        ≡ some after)
      × SameVolume sts after
volume_template_stays host server pulse inputs sts kept =
    updated_or_left host server pulse inputs sts kept

-- A pass whose calls all succeed and that asks for no requeue settles the StatefulSet: the next pass
-- with the same inputs leaves the stored object as it is, with all that the API server filled in, and
-- does not write its template anew.
pub second_pass_is_idle :
    (host : Host) (server : ApiServer) (pulse : OpenShiftPulse) (inputs : Inputs)
    (stored : Option StatefulSet)
    → IsAnswered host server pulse inputs
    → (reconcile_pg_stateful_set host server pulse inputs stored).error ≡ none
    → (reconcile_pg_stateful_set host server pulse inputs stored).requeue_after ≡ 0
    → ((reconcile_pg_stateful_set host server pulse inputs
          (reconcile_pg_stateful_set host server pulse inputs stored).stored).stored
        ≡ (reconcile_pg_stateful_set host server pulse inputs stored).stored)
      × ((reconcile_pg_stateful_set host server pulse inputs
            (reconcile_pg_stateful_set host server pulse inputs stored).stored).rebuilt
          ≡ false)
unfolding reconcile_pg_stateful_set create_set reconcile_existing_set
second_pass_is_idle host server pulse inputs none answered fine now =
    elim (Option-cases inputs.storage) [
      | inl bad ↦ absurd (ground (arith, bad, answered, fine))
      | inr (storage, size) ↦ (
        idle_after_create host server pulse inputs storage size answered,
        no_rebuild_after_create host server pulse inputs storage size answered,
      )
    ]
second_pass_is_idle host server pulse inputs (some sts) answered fine now =
    elim (Bool-cases sts.terminating) [
      | inl going ↦ absurd (ground (arith, going, answered, now))
      | inr stays ↦ elim (Bool-cases (is_mismatched pulse sts)) [
        | inl other ↦ absurd (ground (arith, stays, other, answered, fine, now))
        | inr ours ↦ (
          idle_after_update host server pulse inputs sts (stays, ours) answered,
          no_rebuild_after_update host server pulse inputs sts (stays, ours) answered,
        )
      ]
    ]

-- If the StatefulSet is not being deleted and its selector is the operator's, it has an image, the
-- major versions of that image and of the requested one are known, and all calls of a pass succeed,
-- then the pass leaves the running major version. (One with another selector is deleted.)
pub running_major_version_stays :
    (host : Host) (server : ApiServer) (pulse : OpenShiftPulse) (inputs : Inputs)
    (sts : StatefulSet)
    → IsKept host server pulse sts
    → IsAnswered host server pulse inputs
    → container_image sts.template ≢ ""
    → pg_major_version (container_image sts.template) ≢ 0
    → pg_major_version (pg_image host.getenv pulse) ≢ 0
    → (after : StatefulSet) × ((reconcile_pg_stateful_set host server pulse inputs
          (some sts)).stored
        ≡ some after)
      × (pg_major_version (container_image after.template)
          ≡ pg_major_version (container_image sts.template))
running_major_version_stays host server pulse inputs sts kept (r, o, w) runs from to = (
  updated host server pulse (guarded_image host server pulse sts.template).0 inputs.cred_hash sts,
  kept_result host server pulse inputs sts kept r o w,
  ap pg_major_version (
        updated-image host server pulse (guarded_image host server pulse sts.template).0
          inputs.cred_hash sts
        ∙ guarded_image_lem host server pulse sts.template)
      ∙ guard_keeps_major_version host (container_image sts.template) (pg_image host.getenv pulse)
          [] runs from to,
)

-- If the first read of a pass fails and the calls after it succeed, the requested image is applied
-- unguarded, whatever image runs.
pub failed_read_skips_guard :
    (host : Host) (server : ApiServer) (pulse : OpenShiftPulse) (inputs : Inputs)
    (sts : StatefulSet) (e : Error)
    → inputs.read_error ≡ some e
    → inputs.owner_error ≡ none
    → inputs.write_error ≡ none
    → (after : StatefulSet) × ((reconcile_pg_stateful_set host server pulse inputs
          (some sts)).stored
        ≡ some after)
      × (container_image after.template ≡ pg_image host.getenv pulse)
unfolding reconcile_pg_stateful_set update_set
failed_read_skips_guard host server pulse inputs sts e r o w = (
  updated host server pulse (pg_image host.getenv pulse) inputs.cred_hash sts,
  ground (arith, r, o, w),
  updated-image host server pulse (pg_image host.getenv pulse) inputs.cred_hash sts,
)
