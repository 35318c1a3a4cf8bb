-- ===== src/Agent/Refinement.antt =====
-- What the passes of reconcileDeployment promise, as a machine with three kinds of state, and that
-- any run of passes is a run of that machine.
use pulse_operator.Prelude.{
  ℕ, String, Bool, true, false, Option, none, some, List, [], ◌∷◌, ◌≡◌, ◌⊎◌, inl, inr, refl, sym,
  ap, ◌∙◌, arith, Bool-cases, Option-cases, if◌then◌else◌,
}
use pulse_operator.Api.{OpenShiftPulse}
use pulse_operator.Host.{Host, Event}
use pulse_operator.Names.{agent_resource_name}
use pulse_operator.Cluster.{Error, is_not_found}
use pulse_operator.Cluster.Removal.{ignore_not_found}
use pulse_operator.Compat.{Semver, agent_version_compatible}
use pulse_operator.Image.Choice.{resolved_image}
use pulse_operator.Detection.{ClusterInfo}
use pulse_operator.Workload.{Container, DeploymentSpec}
use pulse_operator.Agent.Template.{build_deployment_spec}
use pulse_operator.Agent.Deployment.{
  Answers, is_mismatched, pin_image, updated_spec, report_versions, reconcile_existing,
  create_deployment, reconcile_deployment,
}
use pulse_operator.Agent.DeploymentLaws.{first_image, built_image, same_name, same_image}
use pulse_operator.Agent.Adoption.{built_selects}

-- There is no Deployment, one whose selector is another's, or the agent's with its image.
pub data View : Type 0 where
  absent foreign : View
  serving : Option String → View

unfoldable pub view : String → Option DeploymentSpec → View
view name none = absent
view name (some d) =
    if is_mismatched name d then foreign else serving (first_image d.template.containers)

-- What a pass may do, with the gate open or not and a wanted image: nothing, remove what is not the
-- agent's, create behind an open gate, roll out the wanted image behind an open gate, or give a
-- Deployment without containers its container.
pub data Step (gate : Bool) (wanted : String) : View → View → Type 0 where
  stay : (v : View) → Step gate wanted v v
  clear : Step gate wanted foreign absent
  create : gate ≡ true → Step gate wanted absent (serving (some wanted))
  roll_out :
      (i : Option String) → gate ≡ true → Step gate wanted (serving i) (serving (some wanted))
  fill : Step gate wanted (serving none) (serving (some wanted))

-- A run of the machine on what the CR asked for in each pass.
pub data Behaves : List (Bool × String) → View → View → Type 0 where
  done : (v : View) → Behaves [] v v
  next :
      {gate : Bool} {wanted : String} {rest : List (Bool × String)} {u v w : View}
      → Step gate wanted u v
      → Behaves rest v w
      → Behaves ((gate, wanted) ∷ rest) u w

-- "Not found" is answered only where there is nothing.
unfoldable pub drop_not_found : Option Error → Option Error
unfolding ignore_not_found
drop_not_found e = ignore_not_found e

unfoldable pub honest : Answers → Option DeploymentSpec → Answers
unfolding drop_not_found
honest answers none = answers
honest answers (some d) = record answers { read_error = drop_not_found answers.read_error }

-- A pass: the answers, the hash of the credentials, what is known of the cluster, and the CR.
pub record Round : Type 0 where
  pub answers : Answers
  pub hash : String
  pub info : Option ClusterInfo
  pub cr : OpenShiftPulse

-- The first container's image, after an update behind an open or a closed gate.
pinned_image :
    (gate : Bool) (wanted : String) (existing desired : List Container)
    → first_image desired ≡ some wanted
    → Step gate wanted
        (serving (first_image existing))
        (serving (first_image (if gate then desired else pin_image existing desired)))
unfolding pin_image first_image
pinned_image true wanted existing desired h = rw h (roll_out (first_image existing) refl)
pinned_image false wanted [] desired h = rw h fill
pinned_image false wanted (c ∷ cs) [] h = absurd (ground (arith, h))
pinned_image false wanted (c ∷ cs) (d ∷ ds) h = stay (serving (some c.image))

module _ (itoa : ℕ → String) (host : Host) (semver : Semver) where
  unfoldable pub intent : Round → Bool × String
  intent round = ((agent_version_compatible semver round.cr).0, resolved_image host.getenv round.cr)

  unfoldable pub round_pass : Round → Option DeploymentSpec → Option DeploymentSpec
  unfolding honest
  round_pass round stored =
      (reconcile_deployment itoa host semver round.hash round.info (honest round.answers stored)
        round.cr stored).stored

  unfoldable pub run : List Round → Option DeploymentSpec → Option DeploymentSpec
  unfolding round_pass
  run [] stored = stored
  run (round ∷ rest) stored = run rest (round_pass round stored)

  abbrev pub intents : List Round → List (Bool × String)
  intents [] = []
  intents (round ∷ rest) = intent round ∷ intents rest

  module _ (round : Round) where
    abbrev cr : OpenShiftPulse
    cr = (report_versions itoa host semver round.hash round.info round.cr).0

    abbrev events : List Event
    events = (report_versions itoa host semver round.hash round.info round.cr).1

    abbrev desired : DeploymentSpec
    desired = build_deployment_spec itoa host.getenv round.hash cr round.info

    abbrev pub name : String
    name = agent_resource_name round.cr.meta.name

    abbrev pub gate : Bool
    gate = (agent_version_compatible semver round.cr).0

    abbrev pub wanted : String
    wanted = resolved_image host.getenv round.cr

    name_stays : agent_resource_name cr.meta.name ≡ name
    name_stays =
        ap (λ m. agent_resource_name m.name)
          (same_name itoa host semver round.hash round.info round.cr)

    desired_selects : is_mismatched name desired ≡ false
    desired_selects = rw (sym name_stays) (built_selects itoa host.getenv round.hash cr round.info)

    wanted_image : first_image desired.template.containers ≡ some wanted
    wanted_image =
        built_image itoa host.getenv round.hash cr round.info
        ∙ ap some (same_image itoa host semver round.hash round.info round.cr)

    desired_serves : view name (some desired) ≡ serving (some wanted)
    unfolding view
    desired_serves = rw desired_selects (ap serving wanted_image)

    created :
        (answers : Answers)
        → ((create_deployment itoa host semver round.hash round.info answers gate cr events
              none).stored
            ≡ none)
          ⊎ ((gate ≡ true)
              × ((create_deployment itoa host semver round.hash round.info answers gate cr events
                    none).stored
                  ≡ some desired))
    unfolding create_deployment
    created answers = ground arith

    changed :
        (answers : Answers) (existing : DeploymentSpec)
        → ((reconcile_existing itoa host semver round.hash round.info answers gate cr events
              existing).stored
            ≡ some existing)
          ⊎ (((is_mismatched name existing ≡ true)
                × ((reconcile_existing itoa host semver round.hash round.info answers gate cr events
                      existing).stored
                    ≡ none))
              ⊎ ((is_mismatched name existing ≡ false)
                  × ((reconcile_existing itoa host semver round.hash round.info answers gate cr
                        events existing).stored
                      ≡ some (updated_spec gate existing desired))))
    unfolding reconcile_existing
    changed answers existing = ground (arith, name_stays)

    abbrev pub Steps : Option DeploymentSpec → Option DeploymentSpec → Type 0
    Steps old new = Step gate wanted (view name old) (view name new)

    pass_absent :
        (round_pass round none ≡ none) ⊎ ((gate ≡ true) × (round_pass round none ≡ some desired))
    unfolding round_pass honest reconcile_deployment
    pass_absent = ground (arith, created round.answers)

    pass_there :
        (existing : DeploymentSpec)
        → (round_pass round (some existing) ≡ some existing)
          ⊎ (round_pass round (some existing)
              ≡ (reconcile_existing itoa host semver round.hash round.info
                  (honest round.answers (some existing))
                  gate
                  cr
                  events
                  existing).stored)
    unfolding round_pass honest drop_not_found ignore_not_found reconcile_deployment
    pass_there existing = elim (Option-cases round.answers.read_error) [
      | inl fine ↦ inr (rw fine refl)
      | inr (e, bad) ↦ elim (Bool-cases (is_not_found e)) [
        | inl gone ↦ inr (ground (arith, bad, gone))
        | inr other ↦ inl (ground (arith, bad, other))
      ]
    ]

    step_updated :
        (existing : DeploymentSpec)
        → is_mismatched name existing ≡ false
        → Steps (some existing) (some (updated_spec gate existing desired))
    unfolding view updated_spec is_mismatched
    step_updated existing m = rw m (
        pinned_image gate wanted existing.template.containers desired.template.containers
          wanted_image)

    step_there :
        (existing : DeploymentSpec) (result : Option DeploymentSpec)
        → ((result ≡ some existing)
            ⊎ (((is_mismatched name existing ≡ true) × (result ≡ none))
                ⊎ ((is_mismatched name existing ≡ false)
                    × (result ≡ some (updated_spec gate existing desired)))))
        → Steps (some existing) result
    unfolding view
    step_there existing result (inl same) = rw same (stay (view name (some existing)))
    step_there existing result (inr (inl (m, gone))) = rw (gone, m) clear
    step_there existing result (inr (inr (m, new))) = rw new (step_updated existing m)

    -- One pass is a step of the machine.
    pub pass-Steps : (stored : Option DeploymentSpec) → Steps stored (round_pass round stored)
    unfolding view
    pass-Steps none = elim pass_absent [
      | inl same ↦ rw same (stay absent)
      | inr (gated, new) ↦ rw new (rw desired_serves (create gated))
    ]
    pass-Steps (some existing) = elim (pass_there existing) [
      | inl same ↦ step_there existing _ (inl same)
      | inr e ↦
          rw e (step_there existing _ (changed (honest round.answers (some existing)) existing))
    ]
