-- ===== src/Postgres/StatefulSet.antt =====
-- reconcilePGStatefulSet: what a pass does to the database's StatefulSet. What the API answers in one
-- pass, and how the API server fills in a template's defaults, are arguments.
use Prim.Native.String.{◌++◌}
use pulse_operator.Prelude.{
  ℕ, String, Bool, true, false, not, ◌||◌, Option, none, some, List, [], ◌∷◌, ◌==◌, if◌then◌else◌,
  ◌≡◌,
}
use pulse_operator.Api.{OpenShiftPulse}
use pulse_operator.Host.{Host, Event, normal, warning, record_event}
use pulse_operator.Cluster.{Error, wrap}
use pulse_operator.Cluster.Removal.{ignore_not_found}
use pulse_operator.Names.{pg_stateful_set_name}
use pulse_operator.Network.Policies.{pg_labels}
use pulse_operator.Postgres.Version.{guard_pg_major_version}
use pulse_operator.Postgres.Template.{
  PgTemplate, StatefulSet, pg_image, pg_template, container_image, has_drifted, is_mismatched,
}

-- What is known in a pass: the parsed storage size (none when it is not a quantity) and the hash of
-- the credentials; and what the API answers: the errors of the first read, of CreateOrUpdate (its own
-- read, the controller reference and the write) and of the delete.
pub record Inputs : Type 0 where
  pub storage : Option ℕ
  pub cred_hash : String
  pub read_error : Option Error
  pub owner_error : Option Error
  pub write_error : Option Error
  pub delete_error : Option Error

-- The StatefulSet that there is afterwards, whether the pass wrote its template anew, the requeue in
-- seconds, the error and the events.
pub record Result : Type 0 where
  pub stored : Option StatefulSet
  pub rebuilt : Bool
  pub requeue_after : ℕ
  pub error : Option Error
  pub events : List Event

-- The fields that the API server fills in, which are none of those that the operator compares.
pub record ApiServer : Type 0 where
  pub fill_in : PgTemplate → PgTemplate
  pub keeps_image : (t : PgTemplate) → container_image (fill_in t) ≡ container_image t
  pub keeps_annotations : (t : PgTemplate) → (fill_in t).annotations ≡ t.annotations

-- The mutation of a new StatefulSet.
unfoldable pub created_set : OpenShiftPulse → String → String → ℕ → StatefulSet
created_set pulse image cred_hash storage = record {
  terminating = false;
  labels = pg_labels pulse.meta.name;
  replicas = 1;
  service_name = pg_stateful_set_name pulse.meta.name ++ "-headless";
  selector = some (pg_labels pulse.meta.name);
  claims =
      record {
        name = "pg-data";
        labels = pg_labels pulse.meta.name;
        storage = storage;
        storage_class = pulse.spec.database.storage_class;
      }
      ∷ [];
  template = pg_template pulse image cred_hash;
}

module _ (host : Host) (server : ApiServer) (pulse : OpenShiftPulse) where
  open server use {fill_in}

  -- A write: what the API server stores.
  unfoldable pub store : StatefulSet → StatefulSet
  store sts = record sts { template = fill_in sts.template }

  unfoldable pub needs_rebuild : String → String → PgTemplate → Bool
  needs_rebuild image cred_hash template =
      not (container_image template == image) || has_drifted template cred_hash

  -- The mutation of a stored one: the template is rebuilt only when the image or a recorded
  -- annotation differs. An object that does not change is not written.
  unfoldable pub updated_set : String → String → StatefulSet → StatefulSet
  unfolding needs_rebuild
  updated_set image cred_hash sts =
      if needs_rebuild image cred_hash sts.template
      then record sts {
        labels = pg_labels pulse.meta.name;
        template = fill_in (pg_template pulse image cred_hash);
      }
      else record sts { labels = pg_labels pulse.meta.name }

  abbrev stop : Option StatefulSet → Error → List Event → Result
  stop stored e events = record {
    stored = stored;
    rebuilt = false;
    requeue_after = 0;
    error = some e;
    events = events;
  }

  -- CreateOrUpdate where there is none.
  unfoldable pub create_set : Inputs → String → List Event → Result
  unfolding store created_set
  create_set inputs image events = elim inputs.owner_error [
    | some e ↦ stop none e events
    | none ↦ elim inputs.storage [
      | none ↦ stop none (wrap "parse spec.database.storageSize" (Error.other "quantity")) events
      | some storage ↦ elim inputs.write_error [
        | some e ↦ stop none e events
        | none ↦ record {
          stored = some (store (created_set pulse image inputs.cred_hash storage));
          rebuilt = true;
          requeue_after = 0;
          error = none;
          events = events;
        }
      ]
    ]
  ]

  -- CreateOrUpdate of a stored one, and the event of an invalid size.
  unfoldable pub update_set : Inputs → String → List Event → StatefulSet → Result
  unfolding updated_set
  update_set inputs image events sts = elim inputs.owner_error [
    | some e ↦ stop (some sts) e events
    | none ↦ elim inputs.write_error [
      | some e ↦ stop (some sts) e events
      | none ↦ record {
        stored = some (updated_set image inputs.cred_hash sts);
        rebuilt = needs_rebuild image inputs.cred_hash sts.template;
        requeue_after = 0;
        error = none;
        events = elim inputs.storage [
          | none ↦ record_event host warning "InvalidStorageSize" events
          | some storage ↦ events
        ];
      }
    ]
  ]

  -- The image after the guard, which asks for what runs.
  unfoldable pub guarded_image : PgTemplate → String × List Event
  guarded_image template = elim template.containers [
    | [] ↦ (pg_image host.getenv pulse, [])
    | first ∷ rest ↦ guard_pg_major_version host first.image (pg_image host.getenv pulse) []
  ]

  unfoldable pub reconcile_existing_set : Inputs → StatefulSet → Result
  unfolding is_mismatched update_set guarded_image
  reconcile_existing_set inputs sts =
      if sts.terminating
      then record {
        stored = some sts;
        rebuilt = false;
        requeue_after = 5;
        error = none;
        events = [];
      }
      else if is_mismatched pulse sts
      then elim (ignore_not_found inputs.delete_error) [
        | some e ↦ stop (some sts) (wrap "delete mismatched statefulset" e) []
        | none ↦ record {
          stored = none;
          rebuilt = false;
          requeue_after = 5;
          error = none;
          events = record_event host normal "SelfHealed" [];
        }
      ]
      else let (image, events) = guarded_image sts.template in update_set inputs image events sts

  -- The StatefulSet's own part of the pass; expandPGVolume follows it.
  unfoldable pub reconcile_pg_stateful_set : Inputs → Option StatefulSet → Result
  unfolding create_set reconcile_existing_set
  reconcile_pg_stateful_set inputs stored = elim stored [
    | none ↦ create_set inputs (pg_image host.getenv pulse) []
    | some sts ↦ elim inputs.read_error [
      | some e ↦ update_set inputs (pg_image host.getenv pulse) [] sts
      | none ↦ reconcile_existing_set inputs sts
    ]
  ]
