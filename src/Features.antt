-- ===== src/Features.antt =====
-- The feature tests on a spec (agent_reconciler.go).
use pulse_operator.Prelude.{Bool, true, false, not, ◌||◌, Option, none, some, ◌==◌, ◌∷◌, []}
use pulse_operator.Api.{OpenShiftPulse, Resources}

unfoldable pub database_enabled : OpenShiftPulse → Bool
database_enabled cr =
    not (cr.spec.database.storage_size == "") || not (cr.spec.database.image == "")

-- A `*bool` that the CRD defaults to true: nil is true.
unfoldable pub default_true : Option Bool → Bool
default_true none = true
default_true (some b) = b

unfoldable pub monitoring_enabled : OpenShiftPulse → Bool
monitoring_enabled cr = default_true cr.spec.monitoring.enabled

unfoldable pub secret_access_enabled : OpenShiftPulse → Bool
secret_access_enabled cr = default_true cr.spec.agent.allow_secret_access

unfoldable pub vertex_configured : OpenShiftPulse → Bool
vertex_configured cr = elim cr.spec.vertex_ai [ none ↦ false | some v ↦ not (v.project_id == "") ]

unfoldable pub api_key_configured : OpenShiftPulse → Bool
api_key_configured cr = elim cr.spec.anthropic_api_key [
  | none ↦ false
  | some k ↦ not (k.existing_secret == "")
]

unfoldable pub has_ai_backend : OpenShiftPulse → Bool
has_ai_backend cr = vertex_configured cr || api_key_configured cr

-- agentResources: quantities in bytes.
unfoldable pub agent_resources : OpenShiftPulse → Resources
agent_resources cr = elim cr.spec.agent.resources.requests [
  | some requests ↦ cr.spec.agent.resources
  | none ↦ elim cr.spec.agent.resources.limits [
    | some limits ↦ cr.spec.agent.resources
    | none ↦ record {
      requests = some (("memory", 268435456) ∷ []);
      limits = some (("memory", 2147483648) ∷ []);
    }
  ]
]

-- A `*bool` that is off by default: nil is false.
unfoldable pub default_false : Option Bool → Bool
default_false none = false
default_false (some b) = b

unfoldable pub render_enabled : OpenShiftPulse → Bool
render_enabled cr = default_false cr.spec.render.enabled

unfoldable pub temporal_enabled : OpenShiftPulse → Bool
temporal_enabled cr = default_false cr.spec.temporal.enabled

unfoldable pub temporal_ui_enabled : OpenShiftPulse → Bool
temporal_ui_enabled cr = default_false cr.spec.temporal.ui
