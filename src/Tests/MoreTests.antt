-- ===== src/Tests/MoreTests.antt =====
-- Runs and witnesses for the Helm runner, the database and the throttle of the memory metrics.
use pulse_operator.Prelude.{String, true, false, none, some, [], ◌∷◌, Dict, ◌≡◌, refl, lookup}
use pulse_operator.Cluster.{found}
use pulse_operator.HelmRunner.{is_pinned, is_unsafe, ui_runtime_config_js, not_set, cut_prefix}
use pulse_operator.HelmRunner.Laws.{ui_runtime_config_js-safe}
use pulse_operator.Postgres.Secret.{Answers, reconcile_pg_secret}
use pulse_operator.Postgres.Version.{
  pg_major_version, find_version, match_here, version_part, starts_with_digit, is_digit,
  digits_value,
}
use pulse_operator.Postgres.Laws.{password_never_rotates}

abbrev runner : String
runner =
    "quay.io/helm/runner:v3@sha256:0123456789abcdef0123456789abcdef0123456789abcdef0123456789abcdef"

runner_pinned : is_pinned runner ≡ true
unfolding is_pinned
runner_pinned = refl

tag_not_pinned : is_pinned "quay.io/helm/runner:v3" ≡ false
unfolding is_pinned
tag_not_pinned = refl

ui_runtime_config_js-safe_example :
    is_unsafe (ui_runtime_config_js (λ image. some "{\"a\":\"$\"}") not_set) ≡ false
ui_runtime_config_js-safe_example =
    ui_runtime_config_js-safe (λ image. some "{\"a\":\"$\"}") not_set

major_of_rhel : pg_major_version "registry.redhat.io/rhel9/postgresql-15@sha256:ab" ≡ 15
unfolding pg_major_version find_version match_here cut_prefix version_part starts_with_digit
    is_digit digits_value
major_of_rhel = refl

major_of_hub : pg_major_version "docker.io/postgres:16" ≡ 16
unfolding pg_major_version find_version match_here cut_prefix version_part starts_with_digit
    is_digit digits_value
major_of_hub = refl

abbrev answers : Answers
answers = record { read_error = none; write_error = none; generated = found "s3cret" }

abbrev legacy : Dict String
legacy = ("POSTGRES_USER", "pulse") ∷ ("POSTGRES_PASSWORD", "old") ∷ ("POSTGRES_DB", "pulse") ∷ []

password_never_rotates_example :
    ((reconcile_pg_secret answers (reconcile_pg_secret answers (some legacy)).secret).password
      ≡ found "old")
    × ((reconcile_pg_secret answers (reconcile_pg_secret answers (some legacy)).secret).secret
        ≡ (reconcile_pg_secret answers (some legacy)).secret)
unfolding reconcile_pg_secret lookup
password_never_rotates_example =
    password_never_rotates answers answers (some legacy) "old" refl refl
