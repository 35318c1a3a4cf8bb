-- ===== src/Postgres/Service.antt =====
-- reconcilePGService: the mutation of the database's Services, headless or not; and
-- reconcilePGStartScripts.
use pulse_operator.Prelude.{
  String, Bool, ◌&&◌, Option, none, some, List, [], ◌∷◌, Dict, ◌==◌, if◌then◌else◌, ◌≡◌, ◌≢◌, refl,
  arith, eq_iff,
}
use pulse_operator.Cluster.{Error}
use pulse_operator.Network.Policies.{pg_labels}
use Prim.Native.String.{◌++◌}
use pulse_operator.Upsert.{UpsertAnswers, Upserted, create_or_update}
use pulse_operator.Workload.{ServicePort}

-- `cluster_ip` is empty until the API server assigns an address.
pub record Service : Type 0 where
  pub labels : Dict String
  pub selector : Dict String
  pub ports : List ServicePort
  pub cluster_ip : String

abbrev no_service : Service
no_service = record { labels = []; selector = []; ports = []; cluster_ip = "" }

unfoldable pub pg_service : String → Bool → Service → Service
pg_service cr_name headless svc = record {
  labels = pg_labels cr_name;
  selector = pg_labels cr_name;
  ports = record { name = "postgresql"; port = 5432; target_port = 5432 } ∷ [];
  cluster_ip = if svc.cluster_ip == "" && headless then "None" else svc.cluster_ip;
}

-- CreateOrUpdate: the errors of its read and of its controller reference come first, then that of the
-- write.
unfoldable pub reconcile_pg_service :
    Option Error → Option Error → String → Bool → Option Service → Option Error × Option Service
unfolding pg_service
reconcile_pg_service mutate_error write_error cr_name headless stored =
    let before : Service = elim stored [ none ↦ no_service | some svc ↦ svc ] in
    elim mutate_error [
      | some e ↦ (some e, stored)
      | none ↦ elim write_error [
        | some e ↦ (some e, stored)
        | none ↦ (none, some (pg_service cr_name headless before))
      ]
    ]

-- An address that a Service has is never changed.
pub cluster_ip_stays :
    (mutate_error write_error : Option Error) (cr_name : String) (headless : Bool) (svc : Service)
    → svc.cluster_ip ≢ ""
    → (after : Service) × ((reconcile_pg_service mutate_error write_error cr_name headless
          (some svc)).1
        ≡ some after)
      × (after.cluster_ip ≡ svc.cluster_ip)
unfolding reconcile_pg_service pg_service
cluster_ip_stays (some e) write_error cr_name headless svc known = (svc, refl, refl)
cluster_ip_stays none (some e) cr_name headless svc known = (svc, refl, refl)
cluster_ip_stays none none cr_name headless svc known =
    (pg_service cr_name headless svc, refl, ground (arith, known, eq_iff svc.cluster_ip ""))

-- reconcilePGStartScripts: the ConfigMap of the scripts that the database's container runs at each
-- start.
unfoldable pub pg_start_scripts : Dict String
pg_start_scripts =
    (
      "grant-createdb.sh",
      "#!/bin/sh\n"
          ++ ("# Local peer auth as postgres; idempotent on every start.\n"
              ++ "psql -U postgres -c \"ALTER USER \\\"$POSTGRESQL_USER\\\" CREATEDB;\" || true\n"),
    )
    ∷ []

unfoldable pub reconcile_pg_start_scripts :
    UpsertAnswers → Option (Dict String) → Upserted (Dict String)
unfolding pg_start_scripts
reconcile_pg_start_scripts answers stored =
    create_or_update answers [] (λ old. pg_start_scripts) stored
