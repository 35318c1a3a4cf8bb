-- ===== src/Agent/Template.antt =====
-- buildDeploymentSpec: the pod template and the Deployment of the agent.
use pulse_operator.Prelude.{
  ℕ, String, true, false, Option, none, some, List, [], ◌∷◌, ◌==◌, if◌then◌else◌,
}
use pulse_operator.Api.{OpenShiftPulse}
use pulse_operator.Host.{Env}
use pulse_operator.Features.{agent_resources}
use pulse_operator.Names.{agent_resource_name, memory_pvc_name}
use pulse_operator.Image.Choice.{resolved_image}
use pulse_operator.Detection.{ClusterInfo}
use pulse_operator.Workload.{
  VolumeMount, Volume, claim, from_secret, Probe, http_get, Container, recreate, DeploymentSpec,
  default_pod_sec_ctx, default_container_sec_ctx,
}
use pulse_operator.Agent.Environment.{agent_env}

-- Whether the key of a service account is mounted, and the Secret that holds it.
unfoldable pub credential_secret : OpenShiftPulse → Option String
credential_secret cr = elim cr.spec.vertex_ai [
  | none ↦ none
  | some vertex ↦ if vertex.credential_secret == "" then none else some vertex.credential_secret
]

unfoldable pub agent_mounts : OpenShiftPulse → List VolumeMount
unfolding credential_secret
agent_mounts cr =
    record { name = "memory"; mount_path = "/memory"; sub_path = ""; read_only = false }
    ∷ elim (credential_secret cr) [
      | none ↦ []
      | some secret ↦
          record {
            name = "gcp-sa-key";
            mount_path = "/var/secrets/google";
            sub_path = "";
            read_only = true;
          }
          ∷ []
    ]

unfoldable pub agent_volumes : OpenShiftPulse → List Volume
unfolding credential_secret
agent_volumes cr =
    record { name = "memory"; source = claim (memory_pvc_name cr.meta.name) }
    ∷ elim (credential_secret cr) [
      | none ↦ []
      | some secret ↦ record { name = "gcp-sa-key"; source = from_secret secret } ∷ []
    ]

-- The probe of /healthz on the agent's port.
abbrev healthz : ℕ → ℕ → Probe
healthz delay period = record {
  handler = http_get "/healthz" 8080 false;
  initial_delay_seconds = delay;
  period_seconds = period;
  timeout_seconds = 5;
  failure_threshold = 0;
}

abbrev pub pg_auth_hash_annotation : String
pg_auth_hash_annotation = "pulse.ai/pg-auth-hash"

module _ (itoa : ℕ → String) (getenv : Env) (credential_hash : String) where
  unfoldable pub agent_container : OpenShiftPulse → Option ClusterInfo → Container
  unfolding agent_mounts
  agent_container cr info = record {
    name = "agent";
    image = resolved_image getenv cr;
    command = [];
    args = [];
    resources = agent_resources cr;
    security = default_container_sec_ctx;
    ports = 8080 ∷ [];
    env = agent_env itoa cr info;
    mounts = agent_mounts cr;
    liveness = some (healthz 15 20);
    readiness = some (healthz 5 10);
  }

  unfoldable pub build_deployment_spec : OpenShiftPulse → Option ClusterInfo → DeploymentSpec
  unfolding agent_container agent_volumes
  build_deployment_spec cr info =
      let name = agent_resource_name cr.meta.name in
      record {
        strategy = recreate;
        selector = some (("app", name) ∷ []);
        template = record {
          labels = ("app", name) ∷ [];
          annotations = (pg_auth_hash_annotation, credential_hash) ∷ [];
          service_account = name;
          automount_token = none;
          security = default_pod_sec_ctx none;
          init_containers = [];
          containers = agent_container cr info ∷ [];
          volumes = agent_volumes cr;
        };
      }
