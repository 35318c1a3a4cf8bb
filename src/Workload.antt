-- ===== src/Workload.antt =====
-- The parts of Deployments, StatefulSets and pod templates that the operator writes (k8s.io/api),
-- and secctx.go.
use pulse_operator.Prelude.{ℕ, String, Bool, true, false, Option, none, some, List, [], ◌∷◌, Dict}
use pulse_operator.Api.{Resources}

-- The value of an environment variable: a text, a key of a Secret, or a field of the pod.
pub data EnvValue : Type 0 where
  literal : String → EnvValue
  secret_key : String → String → EnvValue
  field_path : String → EnvValue

pub record EnvVar : Type 0 where
  pub name : String
  pub value : EnvValue

abbrev pub set_to : String → String → EnvVar
set_to name text = record { name = name; value = literal text }

pub record VolumeMount : Type 0 where
  pub name : String
  pub mount_path : String
  pub sub_path : String
  pub read_only : Bool

pub data VolumeSource : Type 0 where
  claim from_secret from_config_map : String → VolumeSource
  empty_dir memory_dir : VolumeSource

pub record Volume : Type 0 where
  pub name : String
  pub source : VolumeSource

-- A GET of a path, over TLS or not, or a connection to a port.
pub data ProbeHandler : Type 0 where
  http_get : String → ℕ → Bool → ProbeHandler
  tcp_socket : ℕ → ProbeHandler

-- An unset timeout or threshold is 0.
pub record Probe : Type 0 where
  pub handler : ProbeHandler
  pub initial_delay_seconds : ℕ
  pub period_seconds : ℕ
  pub timeout_seconds : ℕ
  pub failure_threshold : ℕ

pub record PodSecurity : Type 0 where
  pub run_as_non_root : Bool
  pub seccomp_profile : String
  pub run_as_user : Option ℕ

pub record ContainerSecurity : Type 0 where
  pub allow_privilege_escalation : Bool
  pub drop : List String
  pub read_only_root_filesystem : Option Bool

unfoldable pub default_pod_sec_ctx : Option ℕ → PodSecurity
default_pod_sec_ctx uid = record {
  run_as_non_root = true;
  seccomp_profile = "RuntimeDefault";
  run_as_user = uid;
}

unfoldable pub default_container_sec_ctx : ContainerSecurity
default_container_sec_ctx = record {
  allow_privilege_escalation = false;
  drop = "ALL" ∷ [];
  read_only_root_filesystem = none;
}

unfoldable pub writable_container_sec_ctx : ContainerSecurity
unfolding default_container_sec_ctx
writable_container_sec_ctx = record default_container_sec_ctx {
  read_only_root_filesystem = some false;
}

pub record Container : Type 0 where
  pub name : String
  pub image : String
  pub command : List String
  pub args : List String
  pub resources : Resources
  pub security : ContainerSecurity
  pub ports : List ℕ
  pub env : List EnvVar
  pub mounts : List VolumeMount
  pub liveness : Option Probe
  pub readiness : Option Probe

pub record PodTemplate : Type 0 where
  pub labels : Dict String
  pub annotations : Dict String
  pub service_account : String
  pub automount_token : Option Bool
  pub security : PodSecurity
  pub init_containers : List Container
  pub containers : List Container
  pub volumes : List Volume

pub data Strategy : Type 0 where
  recreate rolling_update : Strategy

-- `selector` is none when it is nil, else its matchLabels.
pub record DeploymentSpec : Type 0 where
  pub strategy : Strategy
  pub selector : Option (Dict String)
  pub template : PodTemplate

-- A Deployment that the operator changes field by field; the others keep their values.
pub record Deployment : Type 0 where
  pub replicas : Option ℕ
  pub spec : DeploymentSpec

-- A port and the port of the pods that it leads to, by default the same.
pub record ServicePort : Type 0 where
  pub name : String
  pub port : ℕ
  pub target_port : ℕ

-- A ClusterIP Service.
pub record AppService : Type 0 where
  pub labels : Dict String
  pub annotations : Dict String
  pub selector : Dict String
  pub ports : List ServicePort

-- What CreateOrUpdate starts from where there is nothing.
abbrev pub no_container_resources : Resources
no_container_resources = record { requests = none; limits = none }

abbrev pub blank_template : PodTemplate
blank_template = record {
  labels = [];
  annotations = [];
  service_account = "";
  automount_token = none;
  security = record { run_as_non_root = false; seccomp_profile = ""; run_as_user = none };
  init_containers = [];
  containers = [];
  volumes = [];
}

abbrev pub blank_deployment : Deployment
blank_deployment = record {
  replicas = none;
  spec = record { strategy = rolling_update; selector = none; template = blank_template };
}

abbrev pub blank_service : AppService
blank_service = record { labels = []; annotations = []; selector = []; ports = [] }

-- A Service in front of the pods that the label "app" marks, on one port or two.
abbrev pub http_port : String → ℕ → ServicePort
http_port name port = record { name = name; port = port; target_port = port }

-- The changes of a mutate function that touch the selector, the template and nothing else.
abbrev pub with_template : Deployment → Dict String → PodTemplate → Deployment
with_template old selector template =
    let spec = old.spec in
    record old { spec = record spec { selector = some selector; template = template } }
