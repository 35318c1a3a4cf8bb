-- ===== src/Tests/DatabaseTests.antt =====
-- Witnesses for the database's StatefulSet, its volume and its connection Secret.
use pulse_operator.Prelude.{
  ◌≤◌, ◌<◌, String, false, none, some, [], lookup, ◌≡◌, ◌⊎◌, refl, arith, eq_iff,
}
use pulse_operator.Api.{OpenShiftPulse}
use pulse_operator.Host.{normal, record_event}
use pulse_operator.Cluster.{found, other}
use pulse_operator.Network.Policies.{pg_labels}
use pulse_operator.Postgres.Version.{
  pg_major_version, find_version, match_here, version_part, starts_with_digit, digits_value,
  is_digit,
}
use pulse_operator.Postgres.Secret.{Answers}
use pulse_operator.Postgres.Template.{
  StatefulSet, pg_image, container_image, lacks_label, is_mismatched, pg_template,
}
use pulse_operator.Postgres.StatefulSet.{
  ApiServer, Inputs, created_set, create_set, reconcile_pg_stateful_set,
}
use pulse_operator.Postgres.Passes.{
  second_pass_is_idle, running_major_version_stays, failed_read_skips_guard,
}
use pulse_operator.Postgres.Volume.{expand_pg_volume, volume_only_grows}
use pulse_operator.Postgres.Connection.{
  ConnectionAnswers, run, connection_url, database_url, connection_follows_password,
  reconcile_postgres, reconcile_connection, create_connection,
}
use pulse_operator.Postgres.Laws.{Gives}
use pulse_operator.Postgres.Secret.{reconcile_pg_secret, create_password}
use pulse_operator.HelmRunner.{cut_prefix}
use pulse_operator.Tests.Sample.{cr, spec, host}

-- An API server that fills in nothing.
abbrev server : ApiServer
server = record { fill_in = λ t. t; keeps_image = λ t. refl; keeps_annotations = λ t. refl }

-- The sample asks for PostgreSQL 16.
abbrev asking : OpenShiftPulse
asking = record cr {
  spec = record spec {
    database = record { storage_size = "5Gi"; storage_class = ""; image = "postgres:16" };
  };
}

abbrev inputs : Inputs
inputs = record {
  storage = some 5368709120;
  cred_hash = "h";
  read_error = none;
  owner_error = none;
  write_error = none;
  delete_error = none;
}

-- PostgreSQL 15 runs.
abbrev running_15 : StatefulSet
running_15 = created_set cr "postgres:15" "h" 5368709120

second_pass_is_idle_example :
    ((reconcile_pg_stateful_set host server cr inputs
        (reconcile_pg_stateful_set host server cr inputs none).stored).stored
      ≡ (reconcile_pg_stateful_set host server cr inputs none).stored)
    × ((reconcile_pg_stateful_set host server cr inputs
          (reconcile_pg_stateful_set host server cr inputs none).stored).rebuilt
        ≡ false)
unfolding reconcile_pg_stateful_set create_set
second_pass_is_idle_example =
    second_pass_is_idle host server cr inputs none (refl, refl, refl) refl refl

running_major_version_stays_example :
    (after : StatefulSet) × ((reconcile_pg_stateful_set host server asking inputs
        (some running_15)).stored
      ≡ some after)
    × (pg_major_version (container_image after.template)
        ≡ pg_major_version (container_image running_15.template))
unfolding is_mismatched created_set lacks_label pg_labels lookup container_image pg_template
    pg_image pg_major_version find_version match_here version_part starts_with_digit digits_value
    is_digit cut_prefix
running_major_version_stays_example =
    running_major_version_stays host server asking inputs running_15 (refl, refl) (refl, refl, refl)
      (λ e. ground (arith, eq_iff "postgres:15" "", e)) (λ e. omega (arith, e))
      (λ e. omega (arith, e))

failed_read_skips_guard_example :
    (after : StatefulSet) × ((reconcile_pg_stateful_set host server asking
        (record inputs { read_error = some (other "timeout") })
        (some running_15)).stored
      ≡ some after)
    × (container_image after.template ≡ pg_image host.getenv asking)
failed_read_skips_guard_example =
    failed_read_skips_guard host server asking
      (record inputs { read_error = some (other "timeout") }) running_15 (other "timeout") refl refl
      refl

volume_only_grows_example :
    (5 ≤ (expand_pg_volume host 9 none 5 none).size)
    × (((expand_pg_volume host 9 none 5 none).size ≡ 5)
        ⊎ (((expand_pg_volume host 9 none 5 none).size ≡ 9)
            × (5 < 9)
            × ((expand_pg_volume host 9 none 5 none).events
                ≡ record_event host normal "StorageResized" [])))
    × (9 ≤ (expand_pg_volume host 9 none 5 none).size)
volume_only_grows_example = volume_only_grows host 9 5 none none

-- The first pass over a new CR.
abbrev fresh : Answers
fresh = record { read_error = none; write_error = none; generated = found "0aff" }

abbrev reachable : ConnectionAnswers
reachable = record { read_error = none; owner_error = none; write_error = none }

connection_follows_password_example :
    (password : String) × ((run "pulse" none fresh none (0, none) none none reachable none).url
      ≡ database_url "pulse" password)
    × (connection_url (run "pulse" none fresh none (0, none) none none reachable none).connection
        ≡ database_url "pulse" password)
    × Gives (reconcile_pg_secret fresh none) password
unfolding reconcile_postgres reconcile_connection create_connection reconcile_pg_secret
    create_password
connection_follows_password_example =
    connection_follows_password "pulse" none fresh none (0, none) none none reachable none refl refl
