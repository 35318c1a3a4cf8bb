-- ===== src/Teardown/Owned.antt =====
-- What turning a feature off can delete: deleteOwned and deleteOwnedClusterScoped
-- (remove_helpers.go).
use pulse_operator.Prelude.{String, Bool, Option, inl, inr, Bool-cases}
use pulse_operator.Api.{OpenShiftPulse}
use pulse_operator.Cluster.{Error, Kind, Ref, Stored, Log, Cluster, Got-cases}
use pulse_operator.Cluster.Removal.{
  delete_if, delete_owned, delete_owned_cluster_scoped, is_controlled_by, is_stamped_by, wrap_error,
}
use pulse_operator.Teardown.Calls.{Careful, done, asked, removed}

pub delete_if-Careful :
    (cluster : Cluster) (mine : Stored → Bool) (report : Option Error → Option Error) (ref : Ref)
    (log : Log)
    → Careful cluster mine log (delete_if cluster mine report ref log).1
unfolding delete_if
delete_if-Careful cluster mine report ref log = elim (Got-cases (cluster.on_get log ref)) [
  | inl (e, q) ↦ rw q (asked log ref done)
  | inr (s, q) ↦ elim (Bool-cases (mine s)) [
    | inl f ↦ rw (q, f) (removed log ref s done q f)
    | inr f ↦ rw (q, f) (asked log ref done)
  ]
]

-- The helpers delete an object only right after a read of it that shows the CR as its owner: the
-- controller reference of a namespaced object, the stamp of a cluster-scoped one.
pub delete_owned-Careful :
    (cluster : Cluster) (kind : Kind) (name : String) (pulse : OpenShiftPulse) (log : Log)
    → Careful cluster
        (λ s. is_controlled_by s pulse)
        log
        (delete_owned cluster kind name pulse log).1
      × Careful cluster
          (λ s. is_stamped_by s pulse)
          log
          (delete_owned_cluster_scoped cluster kind name pulse log).1
unfolding delete_owned delete_owned_cluster_scoped
delete_owned-Careful cluster kind name pulse log = (
  delete_if-Careful cluster _ (wrap_error "delete") _ log,
  delete_if-Careful cluster _ (wrap_error "delete") _ log,
)
