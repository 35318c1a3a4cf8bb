-- ===== src/Tests/RunTests.antt =====
-- Witnesses for runs of the agent's Deployment.
use pulse_operator.Prelude.{ℕ, String, none, some, List, [], ◌∷◌, ◌==◌, ◌≡◌, refl, text_at, lookup}
use pulse_operator.Api.{OpenShiftPulse}
use pulse_operator.Names.{agent_resource_name}
use pulse_operator.Compat.{Semver, agent_version_compatible}
use pulse_operator.Workload.{DeploymentSpec}
use pulse_operator.Agent.Template.{build_deployment_spec, agent_container}
use pulse_operator.Agent.Deployment.{Answers, is_mismatched, reconcile_deployment}
use pulse_operator.Agent.DeploymentLaws.{first_image}
use pulse_operator.Agent.Adoption.{requeues_end}
use pulse_operator.Agent.Refinement.{serving, view, Behaves, Round, intent, intents, run}
use pulse_operator.Agent.Runs.{run-Behaves, closed_runs_keep_image}
use pulse_operator.Image.Choice.{resolved_image, requested_image, apply_rollback}
use pulse_operator.Tests.Sample.{cr, spec, agent, host}

abbrev itoa : ℕ → String
itoa n = "2"

-- "9" is above this operator's version, and nothing else is.
abbrev semver : Semver
semver = record { Version = String; new_version = λ text. some text; less_than = λ a b. b == "9" }

-- The sample behind a closed gate.
abbrev gated : OpenShiftPulse
gated = record cr { spec = record spec { agent = record agent { min_operator_version = "9" } } }

abbrev answered : Answers
answered = record { read_error = none; owner_error = none; write_error = none }

abbrev deployed : DeploymentSpec
deployed = build_deployment_spec itoa host.getenv "h" cr none

-- The Deployment of another tool.
abbrev of_other_tool : DeploymentSpec
of_other_tool = record deployed { selector = none }

abbrev round_of : OpenShiftPulse → Round
round_of pulse = record { answers = answered; hash = "h"; info = none; cr = pulse }

-- Two passes behind a closed gate, then one behind an open gate.
abbrev rounds : List Round
rounds = round_of gated ∷ round_of gated ∷ round_of cr ∷ []

run-Behaves_example :
    Behaves
      (intents itoa host semver rounds)
      (view (agent_resource_name "pulse") (some of_other_tool))
      (view (agent_resource_name "pulse") (run itoa host semver rounds (some of_other_tool)))
run-Behaves_example =
    run-Behaves itoa host semver "pulse" rounds (some of_other_tool) (refl, (refl, (refl, tt)))

closed_runs_keep_image_example :
    view
      (agent_resource_name "pulse")
      (run itoa host semver (round_of gated ∷ round_of gated ∷ []) (some deployed))
    ≡ serving (some "quay.io/pulse/agent:v2")
unfolding intent agent_version_compatible view is_mismatched text_at lookup agent_resource_name
    first_image build_deployment_spec agent_container resolved_image requested_image apply_rollback
closed_runs_keep_image_example =
    closed_runs_keep_image itoa host semver "pulse" "quay.io/pulse/agent:v2"
      (round_of gated ∷ round_of gated ∷ []) (some deployed) (refl, (refl, tt)) (refl, (refl, tt))
      refl

requeues_end_example :
    ((reconcile_deployment itoa host semver "h" none answered cr
        (reconcile_deployment itoa host semver "h" none answered gated
          (some of_other_tool)).stored).requeue_after
      ≡ 0)
    × ((reconcile_deployment itoa host semver "h" none answered cr
          (reconcile_deployment itoa host semver "h" none answered gated
            (some of_other_tool)).stored).error
        ≡ none)
unfolding agent_version_compatible
requeues_end_example =
    requeues_end itoa host semver "h" none answered answered gated cr (some of_other_tool)
      (refl, refl, refl) (refl, refl, refl) refl refl
