-- ===== src/Postgres/StalePod.antt =====
-- isPGPodStale and deletePendingPGPodIfStale.
use pulse_operator.Prelude.{
  ℕ, ◌-◌, String, Bool, true, false, not, ◌&&◌, leb, Option, none, some, List, [], ◌==◌,
  if◌then◌else◌,
}
use pulse_operator.Host.{Host, Event, normal, record_event}
use pulse_operator.Cluster.{Error, Got, found, failed}
use pulse_operator.Cluster.Removal.{ignore_not_found}

-- Two minutes, in nanoseconds.
abbrev pub pg_pending_pod_stale_threshold : ℕ
pg_pending_pod_stale_threshold = 120000000000

-- Pod 0: whether it is Pending, when it was created, and its controller-revision-hash label, which
-- is empty when it is missing.
pub record PgPod : Type 0 where
  pub is_pending : Bool
  pub created : ℕ
  pub revision : String

unfoldable pub is_pg_pod_stale : PgPod → String → ℕ → Bool
is_pg_pod_stale pod update_revision now =
    pod.is_pending
    && (leb pg_pending_pod_stale_threshold (now - pod.created)
        && (not (update_revision == "") && not (pod.revision == update_revision)))

-- What the pass did: whether it asked for the deletion, the error and the events.
pub record StaleResult : Type 0 where
  pub delete_asked : Bool
  pub error : Option Error
  pub events : List Event

abbrev nothing_deleted : Option Error → StaleResult
nothing_deleted e = record { delete_asked = false; error = e; events = [] }

-- `pod` and `update_revision` are the answers to the two reads, `delete_error` that to the delete.
unfoldable pub delete_pending_pg_pod_if_stale :
    Host → ℕ → Got PgPod → Got String → Option Error → StaleResult
unfolding is_pg_pod_stale
delete_pending_pg_pod_if_stale host now pod_got update_got delete_error = elim pod_got [
  | failed e ↦ nothing_deleted (ignore_not_found (some e))
  | found pod ↦ elim update_got [
    | failed e ↦ nothing_deleted (ignore_not_found (some e))
    | found update_revision ↦
        if is_pg_pod_stale pod update_revision now
        then elim delete_error [
          | some e ↦ record { delete_asked = true; error = some e; events = [] }
          | none ↦ record {
            delete_asked = true;
            error = none;
            events = record_event host normal "SelfHealed" [];
          }
        ]
        else nothing_deleted none
  ]
]
