-- ===== src/Tests/Sample.antt =====
-- A resource, a host and a condition list to run the model on.
use pulse_operator.Prelude.{
  String, true, false, Option, none, some, List, [], ◌∷◌, ◌==◌, ◌≡◌, refl, arith, eq_iff,
  if◌then◌else◌,
}
use pulse_operator.Api.{
  running, Meta, Status, Resources, AgentConfig, UiConfig, Spec, OpenShiftPulse, Condition,
}
use pulse_operator.Host.{Host, ConditionStore}

unfoldable pub set_condition : List Condition → Condition → List Condition
set_condition [] c = c ∷ []
set_condition (d ∷ cs) c = if d.type == c.type then c ∷ cs else d ∷ set_condition cs c

unfoldable pub find_condition : List Condition → String → Option Condition
find_condition [] type = none
find_condition (c ∷ cs) type = if c.type == type then some c else find_condition cs type

pub find-set :
    (cs : List Condition) (c : Condition) (type : String)
    → find_condition (set_condition cs c) type
      ≡ (if c.type == type then some c else find_condition cs type)
unfolding set_condition find_condition
find-set [] c type = refl
find-set (d ∷ cs) c type =
    ground (arith, eq_iff d.type c.type, eq_iff d.type type, eq_iff c.type type, find-set cs c type)

abbrev pub store : ConditionStore
store = record { set = set_condition; find = find_condition; find-set = find-set }

-- No variable is set, and there is a recorder.
abbrev pub host : Host
host = record { getenv = λ name. ""; has_recorder = true; store = store }

abbrev no_resources : Resources
no_resources = record { requests = none; limits = none }

abbrev pub agent : AgentConfig
agent = record {
  image = "quay.io/pulse/agent:v2";
  trust_level = 2;
  durable_auto_fix = none;
  admin_users = "";
  allow_write_operations = false;
  allow_secret_access = none;
  resources = no_resources;
  mcp = record { enabled = false; image = ""; toolsets = "" };
  min_operator_version = "";
}

abbrev ui : UiConfig
ui = record {
  image = "registry.local:5000/ui:v1";
  replicas = 0;
  oauth_proxy_image = "";
  helm_runner_image = "";
  resources = no_resources;
}

abbrev pub spec : Spec
spec = record {
  vertex_ai = none;
  anthropic_api_key = none;
  agent = agent;
  ui = ui;
  database = record { storage_size = "5Gi"; storage_class = ""; image = "" };
  monitoring = record { enabled = none };
  temporal = record { enabled = none; image = ""; ui = none; ui_image = "" };
  render = record { enabled = none; image = ""; resources = no_resources };
}

abbrev pub meta : Meta
meta = record {
  name = "pulse";
  namespace = "openshiftpulse";
  uid = "u1";
  generation = 7;
  created = 0;
  deleted = none;
  finalizers = [];
  annotations = [];
}

-- Agent v1 is healthy; the spec asks for v2.
abbrev pub status : Status
status = record {
  phase = running;
  agent_version = "v1";
  agent_healthy = true;
  database_ready = true;
  ui_available = true;
  route_host = "";
  conditions = [];
  observed_generation = 6;
  last_healthy_agent_image = "quay.io/pulse/agent:v1";
  last_healthy_ui_image = "registry.local:5000/ui:v1";
  agent_rollback = none;
  ui_rollback = none;
  upgrade_started_at = none;
  last_upgrade_duration_seconds = 0;
}

abbrev pub cr : OpenShiftPulse
cr = record { meta = meta; spec = spec; status = status }
