-- ===== src/Tests/AgentTests.antt =====
-- Witnesses for the agent's Deployment, its environment, and the detection of the cluster.
use pulse_operator.Prelude.{ℕ, String, true, false, none, some, [], ◌∷◌, ◌==◌, ◌≡◌, refl}
use pulse_operator.Api.{OpenShiftPulse}
use pulse_operator.Cluster.{found, failed, other, not_found}
use pulse_operator.Names.{agent_resource_name}
use pulse_operator.Compat.{Semver, agent_version_compatible}
use pulse_operator.Image.Choice.{resolved_image}
use pulse_operator.Detection.{Reads, is_fully_detected, detect_cluster_info, cache_after}
use pulse_operator.Detection.Laws.{acm_miss_is_cached}
use pulse_operator.Workload.{DeploymentSpec}
use pulse_operator.Agent.Environment.{agent_env}
use pulse_operator.Agent.Template.{build_deployment_spec}
use pulse_operator.Agent.Deployment.{Answers, reconcile_deployment}
use pulse_operator.Agent.EnvironmentLaws.{distinct, distinct-agent_env}
use pulse_operator.Agent.Adoption.{IsServing, adopted_in_two_passes}
use pulse_operator.Tests.Sample.{cr, spec, agent, host}

-- Versions of the sample are numbers of characters.
abbrev itoa : ℕ → String
itoa n = "2"

-- "9" is above this operator's version, and nothing else is.
abbrev semver : Semver
semver = record { Version = String; new_version = λ text. some text; less_than = λ a b. b == "9" }

-- The sample behind a closed gate.
abbrev gated : OpenShiftPulse
gated = record cr { spec = record spec { agent = record agent { min_operator_version = "9" } } }

abbrev answered : Answers
answered = record { read_error = none; owner_error = none; write_error = none }

abbrev deployed : DeploymentSpec
deployed = build_deployment_spec itoa host.getenv "h" cr none

-- The Deployment of another tool.
abbrev foreign : DeploymentSpec
foreign = record deployed { selector = none }

adopted_in_two_passes_example :
    IsServing
      (agent_resource_name cr.meta.name)
      (resolved_image host.getenv cr)
      (reconcile_deployment itoa host semver "h" none answered cr
        (reconcile_deployment itoa host semver "h" none answered gated
          (some foreign)).stored).stored
unfolding agent_version_compatible
adopted_in_two_passes_example =
    adopted_in_two_passes itoa host semver "h" none answered answered gated cr (some foreign)
      (refl, refl, refl) (refl, refl, refl) refl refl

distinct-agent_env_example : distinct (agent_env itoa cr none) ≡ true
distinct-agent_env_example = distinct-agent_env itoa cr none

-- The API server does not answer for the ACM namespace, and then it does.
abbrev before_acm : Reads
before_acm = record {
  ingress = found "apps.example.com";
  image_stream = failed not_found;
  acm_namespace = some (other "timeout");
  thanos = none;
}

abbrev with_acm : Reads
with_acm = record before_acm { acm_namespace = none }

acm_miss_is_cached_example :
    (detect_cluster_info host.getenv
      (cache_after host.getenv none (before_acm ∷ with_acm ∷ []))
      with_acm).0.acm_available
    ≡ false
unfolding is_fully_detected
acm_miss_is_cached_example =
    acm_miss_is_cached host.getenv before_acm with_acm (with_acm ∷ []) (other "timeout") refl refl
