-- ===== src/Postgres/StatefulSetPasses.antt =====
-- One pass over the database's StatefulSet after another.
use pulse_operator.Prelude.{
  ℕ, String, Bool, false, Option, none, some, List, [], lookup, ◌≡◌, refl, sym, ap, ◌∙◌, arith,
  eq_refl, Option-cases, inl, inr,
}
use pulse_operator.Api.{OpenShiftPulse}
use pulse_operator.Host.{Host, Event}
use pulse_operator.Cluster.{Error}
use pulse_operator.Network.Policies.{pg_labels}
use pulse_operator.Postgres.Version.{guard_pg_major_version}
use pulse_operator.Postgres.Template.{
  StatefulSet, pg_image, container_image, lacks_label, is_mismatched,
}
use pulse_operator.Postgres.StatefulSet.{
  ApiServer, Inputs, guarded_image, created_set, store, updated_set, create_set, update_set,
  reconcile_existing_set, reconcile_pg_stateful_set, needs_rebuild,
}
use pulse_operator.Postgres.StatefulSetLaws.{
  SameVolume, updated, updated-same, built_needs_nothing, built_image, updated_twice, updated-image,
  guarded_image_lem, kept_rebuilt, updated_needs_nothing, guard_of_same, guard_again, same_selects,
  IsKept, kept_result,
}

module _ (host : Host) (server : ApiServer) (pulse : OpenShiftPulse) (inputs : Inputs) where
  abbrev pub pass : Option StatefulSet → Option StatefulSet
  pass stored = (reconcile_pg_stateful_set host server pulse inputs stored).stored

  abbrev update : StatefulSet → StatefulSet
  update sts =
      updated host server pulse (guarded_image host server pulse sts.template).0 inputs.cred_hash
        sts

  update_set-stored :
      (image : String) (events : List Event) (sts : StatefulSet)
      → (after : StatefulSet) × ((update_set host server pulse inputs image events sts).stored
          ≡ some after)
        × SameVolume sts after
  unfolding update_set
  update_set-stored image events sts = elim (Option-cases inputs.owner_error) [
    | inr (e, o) ↦ (sts, rw o refl, (refl, refl, refl, refl, refl))
    | inl o ↦ elim (Option-cases inputs.write_error) [
      | inr (e, w) ↦ (sts, rw (o, w) refl, (refl, refl, refl, refl, refl))
      | inl w ↦ (
        updated host server pulse image inputs.cred_hash sts,
        rw (o, w) refl,
        updated-same host server pulse image inputs.cred_hash sts,
      )
    ]
  ]

  blind_pass :
      (e : Error) (sts : StatefulSet)
      → inputs.read_error ≡ some e
      → pass (some sts)
        ≡ (update_set host server pulse inputs (pg_image host.getenv pulse) [] sts).stored
  unfolding reconcile_pg_stateful_set
  blind_pass e sts r = rw r refl

  seeing_pass :
      (sts : StatefulSet)
      → IsKept host server pulse sts
      → inputs.read_error ≡ none
      → pass (some sts)
        ≡ (update_set host server pulse inputs
            (guarded_image host server pulse sts.template).0
            (guarded_image host server pulse sts.template).1
            sts).stored
  unfolding reconcile_pg_stateful_set reconcile_existing_set
  seeing_pass sts (stays, ours) r = ground (arith, stays, ours, r)

  -- A pass over a StatefulSet of the operator's leaves it or updates it.
  pub updated_or_left :
      (sts : StatefulSet)
      → IsKept host server pulse sts
      → (after : StatefulSet) × (pass (some sts) ≡ some after) × SameVolume sts after
  updated_or_left sts kept = elim (Option-cases inputs.read_error) [
    | inr (e, r) ↦
        let (after, stored, same) = update_set-stored (pg_image host.getenv pulse) [] sts in
        (after, blind_pass e sts r ∙ stored, same)
    | inl r ↦
        let (after, stored, same) =
          update_set-stored (guarded_image host server pulse sts.template).0
            (guarded_image host server pulse sts.template).1 sts in
        (after, seeing_pass sts kept r ∙ stored, same)
  ]

  abbrev pub IsAnswered : Type 0
  IsAnswered =
      (inputs.read_error ≡ none) × (inputs.owner_error ≡ none) × (inputs.write_error ≡ none)

  update-IsKept :
      (sts : StatefulSet) → IsKept host server pulse sts → IsKept host server pulse (update sts)
  update-IsKept sts (stays, ours) =
      let same =
        updated-same host server pulse (guarded_image host server pulse sts.template).0
          inputs.cred_hash sts in
      (same.4 ∙ stays, same_selects host server pulse sts (update sts) same ∙ ours)

  guard_settles :
      (sts : StatefulSet)
      → (guarded_image host server pulse (update sts).template).0
        ≡ (guarded_image host server pulse sts.template).0
  guard_settles sts =
      guarded_image_lem host server pulse (update sts).template
      ∙ (ap (λ i. (guard_pg_major_version host i (pg_image host.getenv pulse) []).0)
            (updated-image host server pulse (guarded_image host server pulse sts.template).0
              inputs.cred_hash sts)
          ∙ rw (guarded_image_lem host server pulse sts.template)
              (guard_again host (container_image sts.template) (pg_image host.getenv pulse)))

  pub idle_after_update :
      (sts : StatefulSet)
      → IsKept host server pulse sts
      → IsAnswered
      → pass (pass (some sts)) ≡ pass (some sts)
  idle_after_update sts kept (r, o, w) =
      let first : pass (some sts) ≡ some (update sts) =
        kept_result host server pulse inputs sts kept r o w in
      let second : pass (some (update sts)) ≡ some (update (update sts)) =
        kept_result host server pulse inputs (update sts) (update-IsKept sts kept) r o w in
      let idle : update (update sts) ≡ update sts =
        ap (λ i. updated host server pulse i inputs.cred_hash (update sts)) (guard_settles sts)
        ∙ updated_twice host server pulse (guarded_image host server pulse sts.template).0
            inputs.cred_hash sts in
      ap pass first ∙ (second ∙ (ap some idle ∙ sym first))

  created_pass :
      (storage : ℕ)
      → inputs.storage ≡ some storage
      → inputs.owner_error ≡ none
      → inputs.write_error ≡ none
      → pass none
        ≡ some (
            store host server pulse
              (created_set pulse (pg_image host.getenv pulse) inputs.cred_hash storage))
  unfolding reconcile_pg_stateful_set create_set
  created_pass storage size o w = ground (arith, size, o, w)

  abbrev pub rebuilds : Option StatefulSet → Bool
  rebuilds stored = (reconcile_pg_stateful_set host server pulse inputs stored).rebuilt

  pub no_rebuild_after_update :
      (sts : StatefulSet)
      → IsKept host server pulse sts
      → IsAnswered
      → rebuilds (pass (some sts)) ≡ false
  no_rebuild_after_update sts kept (r, o, w) =
      ap rebuilds (kept_result host server pulse inputs sts kept r o w)
      ∙ (kept_rebuilt host server pulse inputs (update sts) (update-IsKept sts kept) r o w
          ∙ (ap (λ i. needs_rebuild host server pulse i inputs.cred_hash (update sts).template)
                (guard_settles sts)
              ∙ updated_needs_nothing host server pulse
                  (guarded_image host server pulse sts.template).0 inputs.cred_hash sts))

  own_labels : lacks_label (pg_labels pulse.meta.name) (pg_labels pulse.meta.name) ≡ false
  unfolding lacks_label pg_labels lookup
  own_labels = ground (arith, eq_refl pulse.meta.name)

  abbrev created : ℕ → StatefulSet
  created storage =
      store host server pulse
        (created_set pulse (pg_image host.getenv pulse) inputs.cred_hash storage)

  created-IsKept : (storage : ℕ) → IsKept host server pulse (created storage)
  unfolding is_mismatched store created_set
  created-IsKept storage = (refl, own_labels)

  created-image :
      (storage : ℕ)
      → (guarded_image host server pulse (created storage).template).0 ≡ pg_image host.getenv pulse
  unfolding store created_set
  created-image storage =
      guarded_image_lem host server pulse (created storage).template
      ∙ rw (built_image server pulse (pg_image host.getenv pulse) inputs.cred_hash)
          (guard_of_same host (pg_image host.getenv pulse))

  created_needs_nothing :
      (storage : ℕ)
      → updated host server pulse (pg_image host.getenv pulse) inputs.cred_hash (created storage)
        ≡ created storage
  unfolding store created_set updated_set
  created_needs_nothing storage =
      rw (built_needs_nothing host server pulse (pg_image host.getenv pulse) inputs.cred_hash) refl

  pub idle_after_create :
      (storage : ℕ) → inputs.storage ≡ some storage → IsAnswered → pass (pass none) ≡ pass none
  idle_after_create storage size (r, o, w) =
      let second =
        kept_result host server pulse inputs (created storage) (created-IsKept storage) r o w in
      let idle : update (created storage) ≡ created storage =
        ap (λ i. updated host server pulse i inputs.cred_hash (created storage))
          (created-image storage)
        ∙ created_needs_nothing storage in
      let first = created_pass storage size o w in
      ap pass first ∙ (second ∙ (ap some idle ∙ sym first))

  created_template_needs_nothing :
      (storage : ℕ)
      → needs_rebuild host server pulse
          (pg_image host.getenv pulse)
          inputs.cred_hash
          (created storage).template
        ≡ false
  unfolding store created_set
  created_template_needs_nothing storage =
      built_needs_nothing host server pulse (pg_image host.getenv pulse) inputs.cred_hash

  pub no_rebuild_after_create :
      (storage : ℕ) → inputs.storage ≡ some storage → IsAnswered → rebuilds (pass none) ≡ false
  no_rebuild_after_create storage size (r, o, w) =
      ap rebuilds (created_pass storage size o w)
      ∙ (kept_rebuilt host server pulse inputs (created storage) (created-IsKept storage) r o w
          ∙ (ap (λ i. needs_rebuild host server pulse i inputs.cred_hash (created storage).template)
                (created-image storage)
              ∙ created_template_needs_nothing storage))
