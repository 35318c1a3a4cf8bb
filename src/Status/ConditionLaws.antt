-- ===== src/Status/ConditionLaws.antt =====
-- The conditions that the status sync writes agree with the phase and the components.
use Prim.Native.String.{◌++◌}
use pulse_operator.Prelude.{
  ℕ, String, Bool, true, false, some, ◌==◌, ◌≡◌, ◌⊎◌, ◌↔◌, refl, arith, List,
}
use pulse_operator.Api.{Phase, installing, upgrading, running, OpenShiftPulse, Status, Condition}
use pulse_operator.Host.{Host, ConditionStore}
use pulse_operator.Status.Sync.{
  ComponentHealth, ready_condition, progressing_condition, aggregate_condition, sync_conditions,
  sync_phase_and_conditions,
}

ready_condition-type :
    (generation : ℕ) (type : String) (ready : Bool) (yes_text no_text : String)
    → (ready_condition generation type ready yes_text no_text).type ≡ type
unfolding ready_condition
ready_condition-type generation type true yes_text no_text = refl
ready_condition-type generation type false yes_text no_text = refl

ready_condition-status :
    (generation : ℕ) (type : String) (ready : Bool) (yes_text no_text : String)
    → (ready_condition generation type ready yes_text no_text).status ≡ ready
unfolding ready_condition
ready_condition-status generation type true yes_text no_text = refl
ready_condition-status generation type false yes_text no_text = refl

progressing_condition-type :
    (generation : ℕ) (phase : Phase) → (progressing_condition generation phase).type ≡ "Progressing"
unfolding progressing_condition
progressing_condition-type generation installing = refl
progressing_condition-type generation _ = refl

aggregate_condition-type :
    (generation : ℕ) (phase : Phase) (a p u : Bool)
    → (aggregate_condition generation phase a p u).type ≡ "Ready"
unfolding aggregate_condition
aggregate_condition-type generation running a p u = refl
aggregate_condition-type generation _ a p u = refl

progressing_condition-status_iff :
    (generation : ℕ) (phase : Phase)
    → ((progressing_condition generation phase).status ≡ true)
      ↔ ((phase ≡ installing) ⊎ (phase ≡ upgrading))
unfolding progressing_condition
progressing_condition-status_iff generation phase = ground arith

aggregate_condition-status_iff :
    (generation : ℕ) (phase : Phase) (a p u : Bool)
    → ((aggregate_condition generation phase a p u).status ≡ true) ↔ (phase ≡ running)
unfolding aggregate_condition
aggregate_condition-status_iff generation phase a p u = ground arith

ruleset condition_types =
    (ready_condition-type, progressing_condition-type, aggregate_condition-type)

module _ (store : ConditionStore) (generation : ℕ) (phase : Phase) (agent_image ui_image : String)
    (agent_ready pg_ready ui_ready : Bool) (cs : List Condition) where
  abbrev pub written : List Condition
  written =
      sync_conditions store generation phase agent_image ui_image agent_ready pg_ready ui_ready cs

  -- Of the list that the sync writes, every condition it does not own is as it was.
  pub find-sync_conditions_other :
      (type : String)
      → ("AgentReady" == type) ≡ false
      → ("DatabaseReady" == type) ≡ false
      → ("UIReady" == type) ≡ false
      → ("Progressing" == type) ≡ false
      → ("Ready" == type) ≡ false
      → store.find written type ≡ store.find cs type
  unfolding sync_conditions
  find-sync_conditions_other type a d u p r = simp (store.find-set, condition_types, a, d, u, p, r)

  pub find-sync_conditions_ready :
      store.find written "Ready"
      ≡ some (aggregate_condition generation phase agent_ready pg_ready ui_ready)
  unfolding sync_conditions
  find-sync_conditions_ready = simp (store.find-set, condition_types)

  pub find-sync_conditions_progressing :
      store.find written "Progressing" ≡ some (progressing_condition generation phase)
  unfolding sync_conditions
  find-sync_conditions_progressing = simp (store.find-set, condition_types)

  pub find-sync_conditions_agent :
      (c : Condition) × (store.find written "AgentReady" ≡ some c) × (c.status ≡ agent_ready)
  unfolding sync_conditions
  find-sync_conditions_agent = (
    ready_condition generation "AgentReady" agent_ready "agent is healthy"
        ("agent Deployment has 0 ready replicas (image=" ++ (agent_image ++ ")")),
    simp (store.find-set, condition_types),
    ready_condition-status _ _ agent_ready _ _,
  )

  pub find-sync_conditions_database :
      (c : Condition) × (store.find written "DatabaseReady" ≡ some c) × (c.status ≡ pg_ready)
  unfolding sync_conditions
  find-sync_conditions_database = (
    ready_condition generation "DatabaseReady" pg_ready "database is healthy"
        "PostgreSQL StatefulSet has 0 ready replicas",
    simp (store.find-set, condition_types),
    ready_condition-status _ _ pg_ready _ _,
  )

  pub find-sync_conditions_ui :
      (c : Condition) × (store.find written "UIReady" ≡ some c) × (c.status ≡ ui_ready)
  unfolding sync_conditions
  find-sync_conditions_ui = (
    ready_condition generation "UIReady" ui_ready "UI is healthy"
        ("UI Deployment has 0 ready replicas (image=" ++ (ui_image ++ ")")),
    simp (store.find-set, condition_types),
    ready_condition-status _ _ ui_ready _ _,
  )

module _ (host : Host) (now : ℕ) (given : OpenShiftPulse) (h : ComponentHealth) where
  abbrev pub after : Status
  after = (sync_phase_and_conditions host now given h).cr.status

  -- The status of a condition that is present in the list after the sync.
  abbrev pub HasStatus : String → (Bool → Type 0) → Type 0
  HasStatus type P = (c : Condition) × (host.store.find after.conditions type ≡ some c) × P c.status

  -- After every sync the Ready condition is True exactly in phase Running, Progressing is True
  -- exactly in the phases Installing and Upgrading, and the three component conditions say whether
  -- the agent serves, the database is ready and the UI is available.
  pub conditions_match_phase :
      HasStatus "Ready" (λ b. (b ≡ true) ↔ (after.phase ≡ running))
      × HasStatus "Progressing"
          (λ b. (b ≡ true) ↔ ((after.phase ≡ installing) ⊎ (after.phase ≡ upgrading)))
      × HasStatus "AgentReady" (λ b. b ≡ h.agent_serving)
      × HasStatus "DatabaseReady" (λ b. b ≡ h.pg_ready)
      × HasStatus "UIReady" (λ b. b ≡ given.status.ui_available)
  unfolding sync_phase_and_conditions
  conditions_match_phase = (
    (
      _,
      find-sync_conditions_ready host.store _ _ _ _ _ _ _ _,
      aggregate_condition-status_iff _ _ _ _ _,
    ),
    (
      _,
      find-sync_conditions_progressing host.store _ _ _ _ _ _ _ _,
      progressing_condition-status_iff _ _,
    ),
    find-sync_conditions_agent host.store _ _ _ _ _ _ _ _,
    find-sync_conditions_database host.store _ _ _ _ _ _ _ _,
    find-sync_conditions_ui host.store _ _ _ _ _ _ _ _,
  )
