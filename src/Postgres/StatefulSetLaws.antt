-- ===== src/Postgres/StatefulSetLaws.antt =====
-- What passes over the database's StatefulSet keep.
use pulse_operator.Prelude.{
  String, false, none, some, List, [], ◌∷◌, lookup, text_at, ◌≡◌, refl, arith, eq_iff, eq_refl,
  Bool-cases, inl, inr,
}
use pulse_operator.Api.{OpenShiftPulse}
use pulse_operator.Host.{Host}
use pulse_operator.Postgres.Version.{guard_pg_major_version}
use pulse_operator.Postgres.Template.{
  PgContainer, PgTemplate, StatefulSet, pg_image, want_annotations, pg_template, container_image,
  has_drifted, is_mismatched,
}
use pulse_operator.Postgres.StatefulSet.{
  ApiServer, Inputs, needs_rebuild, guarded_image, updated_set, update_set, reconcile_existing_set,
  reconcile_pg_stateful_set,
}

-- A template that the operator built and the API server filled in has not drifted.
built_has_not_drifted :
    (server : ApiServer) (pulse : OpenShiftPulse) (image hash : String)
    → has_drifted (server.fill_in (pg_template pulse image hash)) hash ≡ false
unfolding has_drifted pg_template want_annotations text_at lookup
built_has_not_drifted server pulse image hash =
    rw (server.keeps_annotations (pg_template pulse image hash)) (ground (arith, eq_refl hash))

pub built_image :
    (server : ApiServer) (pulse : OpenShiftPulse) (image hash : String)
    → container_image (server.fill_in (pg_template pulse image hash)) ≡ image
unfolding container_image pg_template
built_image server pulse image hash = server.keeps_image (pg_template pulse image hash)

-- The guard lets an image that runs stay.
pub guard_of_same :
    (host : Host) (image : String) → (guard_pg_major_version host image image []).0 ≡ image
unfolding guard_pg_major_version
guard_of_same host image = ground arith

-- An image that the guard chose is what it chooses again.
pub guard_again :
    (host : Host) (current desired : String)
    → (guard_pg_major_version host (guard_pg_major_version host current desired []).0 desired []).0
      ≡ (guard_pg_major_version host current desired []).0
unfolding guard_pg_major_version
guard_again host current desired = ground (arith, eq_iff current "")

-- What the mutation of a stored StatefulSet leaves: all that cannot be changed after creation.
abbrev pub SameVolume : StatefulSet → StatefulSet → Type 0
SameVolume before after =
    (after.claims ≡ before.claims)
    × (after.selector ≡ before.selector)
    × (after.service_name ≡ before.service_name)
    × (after.replicas ≡ before.replicas)
    × (after.terminating ≡ before.terminating)

module _ (host : Host) (server : ApiServer) (pulse : OpenShiftPulse) where
  abbrev pub updated : String → String → StatefulSet → StatefulSet
  updated = updated_set host server pulse

  pub updated-same :
      (image hash : String) (sts : StatefulSet) → SameVolume sts (updated image hash sts)
  unfolding updated_set
  updated-same image hash sts =
      elim (Bool-cases (needs_rebuild host server pulse image hash sts.template)) [
        | inl y ↦ rw y (refl, refl, refl, refl, refl)
        | inr n ↦ rw n (refl, refl, refl, refl, refl)
      ]

  pub built_needs_nothing :
      (image hash : String)
      → needs_rebuild host server pulse image hash (server.fill_in (pg_template pulse image hash))
        ≡ false
  unfolding needs_rebuild
  built_needs_nothing image hash =
      rw (built_image server pulse image hash, built_has_not_drifted server pulse image hash)
        (ground (arith, eq_refl image))

  pub updated_twice :
      (image hash : String) (sts : StatefulSet)
      → updated image hash (updated image hash sts) ≡ updated image hash sts
  unfolding updated_set
  updated_twice image hash sts =
      elim (Bool-cases (needs_rebuild host server pulse image hash sts.template)) [
        | inl y ↦ rw (y, built_needs_nothing image hash) refl
        | inr n ↦ rw (n, n) refl
      ]

  idle_image :
      (image hash : String) (template : PgTemplate)
      → needs_rebuild host server pulse image hash template ≡ false
      → container_image template ≡ image
  unfolding needs_rebuild
  idle_image image hash template n = ground (arith, eq_iff (container_image template) image)

  pub updated-image :
      (image hash : String) (sts : StatefulSet)
      → container_image (updated image hash sts).template ≡ image
  unfolding updated_set
  updated-image image hash sts =
      elim (Bool-cases (needs_rebuild host server pulse image hash sts.template)) [
        | inl y ↦ rw y (built_image server pulse image hash)
        | inr n ↦ rw n (idle_image image hash sts.template n)
      ]

  pub guarded_image_lem :
      (template : PgTemplate)
      → (guarded_image host server pulse template).0
        ≡ (guard_pg_major_version host (container_image template) (pg_image host.getenv pulse) []).0
  unfolding guarded_image container_image guard_pg_major_version
  guarded_image_lem template = go template.containers refl
    where
      go :
          (cs : List PgContainer)
          → template.containers ≡ cs
          → (guarded_image host server pulse template).0
            ≡ (guard_pg_major_version host
                (container_image template)
                (pg_image host.getenv pulse)
                []).0
      go [] e = rw e refl
      go (c ∷ cs) e = rw e refl

  pub same_selects :
      (before after : StatefulSet)
      → SameVolume before after
      → is_mismatched pulse after ≡ is_mismatched pulse before
  unfolding is_mismatched
  same_selects before after (claims, selector, name, replicas, terminating) = rw selector refl

  -- A stored StatefulSet that is neither going nor another tool's.
  abbrev pub IsKept : StatefulSet → Type 0
  IsKept sts = (sts.terminating ≡ false) × (is_mismatched pulse sts ≡ false)

  pub kept_result :
      (inputs : Inputs) (sts : StatefulSet)
      → IsKept sts
      → inputs.read_error ≡ none
      → inputs.owner_error ≡ none
      → inputs.write_error ≡ none
      → (reconcile_pg_stateful_set host server pulse inputs (some sts)).stored
        ≡ some (updated (guarded_image host server pulse sts.template).0 inputs.cred_hash sts)
  unfolding reconcile_pg_stateful_set reconcile_existing_set update_set
  kept_result inputs sts (stays, ours) r o w = ground (arith, r, stays, ours, o, w)

  pub kept_rebuilt :
      (inputs : Inputs) (sts : StatefulSet)
      → IsKept sts
      → inputs.read_error ≡ none
      → inputs.owner_error ≡ none
      → inputs.write_error ≡ none
      → (reconcile_pg_stateful_set host server pulse inputs (some sts)).rebuilt
        ≡ needs_rebuild host server pulse
            (guarded_image host server pulse sts.template).0
            inputs.cred_hash
            sts.template
  unfolding reconcile_pg_stateful_set reconcile_existing_set update_set
  kept_rebuilt inputs sts (stays, ours) r o w = ground (arith, r, stays, ours, o, w)

  pub updated_needs_nothing :
      (image hash : String) (sts : StatefulSet)
      → needs_rebuild host server pulse image hash (updated image hash sts).template ≡ false
  unfolding updated_set
  updated_needs_nothing image hash sts =
      elim (Bool-cases (needs_rebuild host server pulse image hash sts.template)) [
        | inl y ↦ rw y (built_needs_nothing image hash)
        | inr n ↦ rw (n, n) refl
      ]
