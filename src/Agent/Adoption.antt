-- ===== src/Agent/Adoption.antt =====
-- Passes of reconcileDeployment over a Deployment that was not the operator's.
use pulse_operator.Prelude.{
  ℕ, String, Bool, true, false, Option, none, some, text_at, lookup, ◌≡◌, ◌⊎◌, inl, inr, refl, sym,
  ap, ◌∙◌, arith, eq_refl, Bool-cases, if◌then◌else◌,
}
use pulse_operator.Api.{OpenShiftPulse}
use pulse_operator.Host.{Host}
use pulse_operator.Names.{agent_resource_name}
use pulse_operator.Cluster.Removal.{ignore_not_found}
use pulse_operator.Compat.{Semver, agent_version_compatible}
use pulse_operator.Image.Choice.{resolved_image}
use pulse_operator.Detection.{ClusterInfo}
use pulse_operator.Workload.{DeploymentSpec}
use pulse_operator.Agent.Template.{build_deployment_spec}
use pulse_operator.Agent.Deployment.{
  Answers, is_mismatched, updated_spec, write_error, report_versions, reconcile_existing,
  create_deployment, reconcile_deployment,
}
use pulse_operator.Agent.DeploymentLaws.{first_image, built_image, same_name, same_image}

-- No call of the pass fails.
abbrev pub IsAnswered : Answers → Type 0
IsAnswered answers =
    (answers.read_error ≡ none) × (answers.owner_error ≡ none) × (answers.write_error ≡ none)

-- There is no Deployment, or one that selects the agent's pods.
abbrev IsAdoptable : String → Option DeploymentSpec → Type 0
IsAdoptable name stored =
    (stored ≡ none) ⊎ ((d : DeploymentSpec) × (stored ≡ some d) × (is_mismatched name d ≡ false))

-- The Deployment selects the agent's pods and runs the image.
abbrev pub IsServing : String → String → Option DeploymentSpec → Type 0
IsServing name image stored =
    (d : DeploymentSpec) × (stored ≡ some d)
    × (is_mismatched name d ≡ false)
    × (first_image d.template.containers ≡ some image)

pub built_selects :
    (itoa : ℕ → String) (getenv : String → String) (hash : String) (cr : OpenShiftPulse)
    (info : Option ClusterInfo)
    → is_mismatched
        (agent_resource_name cr.meta.name)
        (build_deployment_spec itoa getenv hash cr info)
      ≡ false
unfolding is_mismatched build_deployment_spec text_at lookup
built_selects itoa getenv hash cr info = ground (arith, eq_refl (agent_resource_name cr.meta.name))

updated_selects :
    (name : String) (compatible : Bool) (existing desired : DeploymentSpec)
    → is_mismatched name (updated_spec compatible existing desired) ≡ is_mismatched name existing
unfolding is_mismatched updated_spec
updated_selects name compatible existing desired = refl

updated_image :
    (existing desired : DeploymentSpec)
    → first_image (updated_spec true existing desired).template.containers
      ≡ first_image desired.template.containers
unfolding updated_spec
updated_image existing desired = refl

module _ (itoa : ℕ → String) (host : Host) (semver : Semver) (hash : String)
    (info : Option ClusterInfo) (answers : Answers) (pulse : OpenShiftPulse)
    (answered : IsAnswered answers) where
  abbrev cr : OpenShiftPulse
  cr = (report_versions itoa host semver hash info pulse).0

  abbrev desired : DeploymentSpec
  desired = build_deployment_spec itoa host.getenv hash cr info

  abbrev name : String
  name = agent_resource_name pulse.meta.name

  abbrev compatible : Bool
  compatible = (agent_version_compatible semver pulse).0

  name_stays : agent_resource_name cr.meta.name ≡ name
  name_stays = ap (λ m. agent_resource_name m.name) (same_name itoa host semver hash info pulse)

  after_none :
      (reconcile_deployment itoa host semver hash info answers pulse none).stored
      ≡ (if compatible then some desired else none)
  unfolding reconcile_deployment create_deployment write_error
  after_none = ground (arith, answered)

  after_mismatched :
      (existing : DeploymentSpec)
      → is_mismatched name existing ≡ true
      → (reconcile_deployment itoa host semver hash info answers pulse (some existing)).stored
        ≡ none
  unfolding reconcile_deployment reconcile_existing ignore_not_found
  after_mismatched existing m = rw (answered.0, name_stays, m, answered.2) refl

  after_matching :
      (existing : DeploymentSpec)
      → is_mismatched name existing ≡ false
      → (reconcile_deployment itoa host semver hash info answers pulse (some existing)).stored
        ≡ some (updated_spec compatible existing desired)
  unfolding reconcile_deployment reconcile_existing write_error
  after_matching existing m = rw (answered.0, name_stays, m, answered.1, answered.2) refl

  desired_selects : is_mismatched name desired ≡ false
  desired_selects = rw (sym name_stays) (built_selects itoa host.getenv hash cr info)

  pass_adopts :
      (stored : Option DeploymentSpec)
      → IsAdoptable name
          (reconcile_deployment itoa host semver hash info answers pulse stored).stored
  pass_adopts none = elim (Bool-cases compatible) [
    | inl y ↦ inr (desired, after_none ∙ ground (arith, y), desired_selects)
    | inr n ↦ inl (after_none ∙ ground (arith, n))
  ]
  pass_adopts (some existing) = elim (Bool-cases (is_mismatched name existing)) [
    | inl y ↦ inl (after_mismatched existing y)
    | inr n ↦ inr (
      updated_spec compatible existing desired,
      after_matching existing n,
      updated_selects name compatible existing desired ∙ n,
    )
  ]

  desired_image : first_image desired.template.containers ≡ some (resolved_image host.getenv pulse)
  desired_image =
      built_image itoa host.getenv hash cr info
      ∙ ap some (same_image itoa host semver hash info pulse)

  pass_serves :
      (stored : Option DeploymentSpec)
      → IsAdoptable name stored
      → compatible ≡ true
      → IsServing name
          (resolved_image host.getenv pulse)
          (reconcile_deployment itoa host semver hash info answers pulse stored).stored
  pass_serves stored (inl e) gate =
      rw e (desired, after_none ∙ ground (arith, gate), desired_selects, desired_image)
  pass_serves stored (inr (existing, e, m)) gate = rw e (
    updated_spec true existing desired,
    after_matching existing m ∙ rw gate refl,
    updated_selects name true existing desired ∙ m,
    updated_image existing desired ∙ desired_image,
  )

  no_requeue :
      (stored : Option DeploymentSpec)
      → IsAdoptable name stored
      → compatible ≡ true
      → ((reconcile_deployment itoa host semver hash info answers pulse stored).requeue_after ≡ 0)
        × ((reconcile_deployment itoa host semver hash info answers pulse stored).error ≡ none)
  unfolding reconcile_deployment reconcile_existing create_deployment write_error
  no_requeue stored (inl e) gate = rw e (ground (arith, answered, gate))
  no_requeue stored (inr (existing, e, m)) gate =
      rw e (rw (answered.0, name_stays, m, answered.1, answered.2) (refl, refl))

-- Requeueing ends: whatever Deployment there was and whatever the first pass asked for, the second
-- pass asks for no requeue and ends without an error, if every call is answered and the gate is open
-- in the second pass.
pub requeues_end :
    (itoa : ℕ → String) (host : Host) (semver : Semver) (hash : String) (info : Option ClusterInfo)
    (first second : Answers) (pulse later : OpenShiftPulse) (stored : Option DeploymentSpec)
    → IsAnswered first
    → IsAnswered second
    → later.meta.name ≡ pulse.meta.name
    → (agent_version_compatible semver later).0 ≡ true
    → ((reconcile_deployment itoa host semver hash info second later
          (reconcile_deployment itoa host semver hash info first pulse stored).stored).requeue_after
        ≡ 0)
      × ((reconcile_deployment itoa host semver hash info second later
            (reconcile_deployment itoa host semver hash info first pulse stored).stored).error
          ≡ none)
requeues_end itoa host semver hash info first second pulse later stored a b same gate =
    no_requeue itoa host semver hash info second later b
      (reconcile_deployment itoa host semver hash info first pulse stored).stored
      (rw same (pass_adopts itoa host semver hash info first pulse a stored)) gate

-- With every call answered and the gate open in the second pass, two passes over a CR of one name
-- leave the agent's Deployment with the wanted selector and the resolved image, whatever Deployment
-- there was and whatever the gate said in the first pass.
pub adopted_in_two_passes :
    (itoa : ℕ → String) (host : Host) (semver : Semver) (hash : String) (info : Option ClusterInfo)
    (first second : Answers) (pulse later : OpenShiftPulse) (stored : Option DeploymentSpec)
    → IsAnswered first
    → IsAnswered second
    → later.meta.name ≡ pulse.meta.name
    → (agent_version_compatible semver later).0 ≡ true
    → IsServing
        (agent_resource_name later.meta.name)
        (resolved_image host.getenv later)
        (reconcile_deployment itoa host semver hash info second later
          (reconcile_deployment itoa host semver hash info first pulse stored).stored).stored
adopted_in_two_passes itoa host semver hash info first second pulse later stored a b same gate =
    pass_serves itoa host semver hash info second later b
      (reconcile_deployment itoa host semver hash info first pulse stored).stored
      (rw same (pass_adopts itoa host semver hash info first pulse a stored)) gate
