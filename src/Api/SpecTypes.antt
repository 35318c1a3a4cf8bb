-- ===== src/Api/SpecTypes.antt =====
-- The spec types of api/v1alpha1/types.go. A `*bool` is an `Option Bool`, a `string` with
-- `omitempty` is empty when it is unset.
use pulse_operator.Prelude.{ℕ, String, Bool, Option, Dict}

-- corev1.ResourceRequirements: quantities by resource name, in base units, the CPU in thousandths; `none` is a nil map.
pub record Resources : Type 0 where
  pub requests : Option (Dict ℕ)
  pub limits : Option (Dict ℕ)

pub record RenderConfig : Type 0 where
  pub enabled : Option Bool
  pub image : String
  pub resources : Resources

pub record TemporalConfig : Type 0 where
  pub enabled : Option Bool
  pub image : String
  pub ui : Option Bool
  pub ui_image : String

pub record VertexAiConfig : Type 0 where
  pub project_id : String
  pub region : String
  pub credential_secret : String

pub record ApiKeyConfig : Type 0 where
  pub existing_secret : String

pub record McpConfig : Type 0 where
  pub enabled : Bool
  pub image : String
  pub toolsets : String

pub record AgentConfig : Type 0 where
  pub image : String
  pub trust_level : ℕ
  pub durable_auto_fix : Option Bool
  pub admin_users : String
  pub allow_write_operations : Bool
  pub allow_secret_access : Option Bool
  pub resources : Resources
  pub mcp : McpConfig
  pub min_operator_version : String

pub record DatabaseConfig : Type 0 where
  pub storage_size : String
  pub storage_class : String
  pub image : String

pub record MonitoringConfig : Type 0 where
  pub enabled : Option Bool

pub record UiConfig : Type 0 where
  pub image : String
  pub replicas : ℕ
  pub oauth_proxy_image : String
  pub helm_runner_image : String
  pub resources : Resources

pub record Spec : Type 0 where
  pub vertex_ai : Option VertexAiConfig
  pub anthropic_api_key : Option ApiKeyConfig
  pub agent : AgentConfig
  pub ui : UiConfig
  pub database : DatabaseConfig
  pub monitoring : MonitoringConfig
  pub temporal : TemporalConfig
  pub render : RenderConfig
