-- ===== src/Postgres/Volume.antt =====
-- expandPGVolume: the database's volume claim grows with spec.database.storageSize.
use pulse_operator.Prelude.{
  ℕ, ◌≤◌, ◌<◌, leb, Option, none, some, List, [], if◌then◌else◌, ◌≡◌, ◌⊎◌, arith,
}
use pulse_operator.Host.{Host, Event, normal, warning, record_event}
use pulse_operator.Cluster.{Error}
use pulse_operator.Cluster.Removal.{ignore_not_found}

-- The size of the claim afterwards, in bytes, the error and the events.
pub record Expansion : Type 0 where
  pub size : ℕ
  pub error : Option Error
  pub events : List Event

-- `have` is what the claim requests, 0 when it requests nothing; `read_error` and `update_error` are
-- what the API answers.
unfoldable pub expand_pg_volume : Host → ℕ → Option Error → ℕ → Option Error → Expansion
expand_pg_volume host want read_error have update_error = elim read_error [
  | some e ↦ record { size = have; error = ignore_not_found (some e); events = [] }
  | none ↦
      if leb want have
      then record { size = have; error = none; events = [] }
      else elim update_error [
        | some e ↦ record {
          size = have;
          error = none;
          events = record_event host warning "StorageResizeFailed" [];
        }
        | none ↦ record {
          size = want;
          error = none;
          events = record_event host normal "StorageResized" [];
        }
      ]
]

-- The claim never shrinks. It keeps its size, or it gets the requested one, which is then larger and
-- is reported; and where the read and the update succeed it holds what is requested.
pub volume_only_grows :
    (host : Host) (want have : ℕ) (read_error update_error : Option Error)
    → (have ≤ (expand_pg_volume host want read_error have update_error).size)
      × (((expand_pg_volume host want read_error have update_error).size ≡ have)
          ⊎ (((expand_pg_volume host want read_error have update_error).size ≡ want)
              × (have < want)
              × ((expand_pg_volume host want read_error have update_error).events
                  ≡ record_event host normal "StorageResized" [])))
      × (want ≤ (expand_pg_volume host want none have none).size)
unfolding expand_pg_volume
volume_only_grows host want have read_error update_error =
    (ground arith, ground arith, ground arith)
