-- ===== src/Cluster/Removal.antt =====
-- remove_helpers.go and deleteStaleUnqualifiedClusterScopedResource (agent_reconciler.go): deletions
-- that ask first who owns the object.
use pulse_operator.Prelude.{String, Bool, false, Option, none, some, text_at, ◌==◌, if◌then◌else◌}
use pulse_operator.Api.{OpenShiftPulse}
use pulse_operator.Cluster.{
  Error, wrap, is_not_found, Kind, Ref, Stored, found, failed, Cluster, M, ◌>>=◌, return, api_get,
  api_delete,
}

abbrev pub annotation_owner_uid : String
annotation_owner_uid = "pulse.ai/owner-uid"

-- metav1.IsControlledBy: the object's controller reference carries the CR's UID.
unfoldable pub is_controlled_by : Stored → OpenShiftPulse → Bool
is_controlled_by stored pulse = elim stored.controller [
  | none ↦ false
  | some uid ↦ uid == pulse.meta.uid
]

-- The owner-UID annotation names the CR.
unfoldable pub is_stamped_by : Stored → OpenShiftPulse → Bool
is_stamped_by stored pulse = text_at annotation_owner_uid stored.annotations == pulse.meta.uid

-- An error that is not "not found"; client.IgnoreNotFound.
unfoldable pub ignore_not_found : Option Error → Option Error
ignore_not_found none = none
ignore_not_found (some e) = if is_not_found e then none else some e

unfoldable pub wrap_error : String → Option Error → Option Error
wrap_error text none = none
wrap_error text (some e) = some (wrap text e)

module _ (cluster : Cluster) where
  -- Get, stop on an error (a missing object is none), ask `mine`, and delete.
  unfoldable pub delete_if :
      (Stored → Bool) → (Option Error → Option Error) → Ref → M (Option Error)
  delete_if mine report ref = do
    got ← api_get cluster ref
    elim got [
      | failed e ↦ return (ignore_not_found (some e))
      | found stored ↦
          if mine stored
          then (do err ← api_delete cluster ref; return (report (ignore_not_found err)))
          else return none
    ]

  unfoldable pub delete_owned : Kind → String → OpenShiftPulse → M (Option Error)
  unfolding delete_if
  delete_owned kind name pulse =
      delete_if (λ s. is_controlled_by s pulse) (wrap_error "delete")
        (record { kind = kind; namespace = pulse.meta.namespace; name = name })

  unfoldable pub delete_owned_cluster_scoped : Kind → String → OpenShiftPulse → M (Option Error)
  unfolding delete_if
  delete_owned_cluster_scoped kind name pulse =
      delete_if (λ s. is_stamped_by s pulse) (wrap_error "delete")
        (record { kind = kind; namespace = ""; name = name })

  -- deleteStaleUnqualifiedClusterScopedResource, whose error is not wrapped.
  unfoldable pub delete_stale : Kind → String → OpenShiftPulse → M (Option Error)
  unfolding delete_if
  delete_stale kind old_name pulse =
      delete_if (λ s. is_stamped_by s pulse) (λ e. e)
        (record { kind = kind; namespace = ""; name = old_name })
