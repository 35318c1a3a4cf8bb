-- ===== src/Postgres/Template.antt =====
-- The database's StatefulSet and its pod template, in reconcilePGStatefulSet.
use Prim.Native.String.{◌++◌}
use pulse_operator.Prelude.{
  ℕ, String, Bool, true, false, not, ◌||◌, Option, none, some, List, [], ◌∷◌, Dict, lookup, text_at,
  ◌==◌, if◌then◌else◌,
}
use pulse_operator.Api.{OpenShiftPulse, Resources}
use pulse_operator.Host.{Env}
use pulse_operator.Image.Choice.{image_from_env}
use pulse_operator.Names.{pg_auth_secret_name}
use pulse_operator.Network.Policies.{pg_labels}
use pulse_operator.Workload.{
  VolumeMount, Volume, from_config_map, PodSecurity, ContainerSecurity, default_pod_sec_ctx,
  writable_container_sec_ctx,
}

-- A pg_isready probe; `failure_threshold` 0 is unset.
pub record ExecProbe : Type 0 where
  pub command : List String
  pub initial_delay_seconds : ℕ
  pub period_seconds : ℕ
  pub failure_threshold : ℕ

pub record PgContainer : Type 0 where
  pub name : String
  pub image : String
  pub port : ℕ
  pub resources : Resources
  pub env_from : String
  pub mounts : List VolumeMount
  pub readiness : ExecProbe
  pub liveness : ExecProbe
  pub pre_stop : List String
  pub security : ContainerSecurity

pub record PgTemplate : Type 0 where
  pub labels : Dict String
  pub annotations : Dict String
  pub grace_seconds : ℕ
  pub security : PodSecurity
  pub volumes : List Volume
  pub containers : List PgContainer

-- A volume claim template: its storage in bytes, and its class (empty for the default one).
pub record ClaimTemplate : Type 0 where
  pub name : String
  pub labels : Dict String
  pub storage : ℕ
  pub storage_class : String

pub record StatefulSet : Type 0 where
  pub terminating : Bool
  pub labels : Dict String
  pub replicas : ℕ
  pub service_name : String
  pub selector : Option (Dict String)
  pub claims : List ClaimTemplate
  pub template : PgTemplate

unfoldable pub pg_image : Env → OpenShiftPulse → String
pg_image getenv pulse =
    if pulse.spec.database.image == ""
    then image_from_env getenv "RELATED_IMAGE_POSTGRESQL"
        "registry.redhat.io/rhel9/postgresql-15:latest"
    else pulse.spec.database.image

abbrev pg_is_ready : ℕ → ℕ → ℕ → ExecProbe
pg_is_ready delay period threshold = record {
  command = "pg_isready" ∷ "-U" ∷ "pulse" ∷ [];
  initial_delay_seconds = delay;
  period_seconds = period;
  failure_threshold = threshold;
}

abbrev pub template_version_annotation : String
template_version_annotation = "pulse.ai/pg-template-version"

abbrev pub auth_hash_annotation : String
auth_hash_annotation = "pulse.ai/pg-auth-hash"

unfoldable pub want_annotations : String → Dict String
want_annotations cred_hash =
    (template_version_annotation, "2") ∷ (auth_hash_annotation, cred_hash) ∷ []

abbrev pg_container : OpenShiftPulse → String → PgContainer
pg_container pulse image = record {
  name = "postgresql";
  image = image;
  port = 5432;
  resources = record {
    requests = some (("memory", 268435456) ∷ []);
    limits = some (("memory", 1073741824) ∷ []);
  };
  env_from = pg_auth_secret_name pulse.meta.name;
  mounts =
      record {
        name = "pg-data";
        mount_path = "/var/lib/pgsql/data";
        sub_path = "";
        read_only = false;
      }
      ∷ record {
        name = "pg-start";
        mount_path = "/opt/app-root/src/postgresql-start";
        sub_path = "";
        read_only = false;
      }
      ∷ [];
  readiness = pg_is_ready 5 10 3;
  liveness = pg_is_ready 30 30 0;
  pre_stop =
      "/bin/sh" ∷ "-c"
      ∷ "pg_ctl -D \"${PGDATA:-/var/lib/pgsql/data/userdata}\" stop -m fast -w -t 50" ∷ [];
  security = writable_container_sec_ctx;
}

unfoldable pub pg_template : OpenShiftPulse → String → String → PgTemplate
unfolding want_annotations
pg_template pulse image cred_hash = record {
  labels = pg_labels pulse.meta.name;
  annotations = want_annotations cred_hash;
  grace_seconds = 60;
  security = default_pod_sec_ctx none;
  volumes =
      record { name = "pg-start"; source = from_config_map (pulse.meta.name ++ "-pg-start") } ∷ [];
  containers = pg_container pulse image ∷ [];
}

unfoldable pub container_image : PgTemplate → String
container_image template = elim template.containers [ [] ↦ "" | first ∷ rest ↦ first.image ]

unfoldable pub has_drifted : PgTemplate → String → Bool
has_drifted template cred_hash =
    not (text_at template_version_annotation template.annotations == "2")
    || not (text_at auth_hash_annotation template.annotations == cred_hash)

-- Some label of pgLabels is missing from the selector, or has another value.
unfoldable pub lacks_label : Dict String → Dict String → Bool
lacks_label selector [] = false
lacks_label selector ((key, value) ∷ rest) =
    elim (lookup key selector) [ none ↦ true | some v ↦ not (v == value) ]
    || lacks_label selector rest

-- A nil selector does not count.
unfoldable pub is_mismatched : OpenShiftPulse → StatefulSet → Bool
unfolding lacks_label
is_mismatched pulse sts = elim sts.selector [
  | none ↦ false
  | some selector ↦ lacks_label selector (pg_labels pulse.meta.name)
]
