-- ===== src/Api/StatusTypes.antt =====
-- The status types of api/v1alpha1/types.go, and the condition type of the API machinery.
use pulse_operator.Prelude.{ℕ, String, Bool, Option, List}

-- The values that the controller writes to status.phase; `unset` is the empty text.
pub data Phase : Type 0 where
  unset installing upgrading running degraded rejected : Phase

abbrev pub phase_text : Phase → String
phase_text unset = ""
phase_text installing = "Installing"
phase_text upgrading = "Upgrading"
phase_text running = "Running"
phase_text degraded = "Degraded"
phase_text rejected = "Rejected"

-- metav1.Condition, less LastTransitionTime, which the API machinery fills in.
pub record Condition : Type 0 where
  pub type : String
  pub status : Bool
  pub reason : String
  pub message : String
  pub observed_generation : ℕ

pub record ImageRollback : Type 0 where
  pub from : String
  pub to : String
  pub at : ℕ

pub record Status : Type 0 where
  pub phase : Phase
  pub agent_version : String
  pub agent_healthy : Bool
  pub database_ready : Bool
  pub ui_available : Bool
  pub route_host : String
  pub conditions : List Condition
  pub observed_generation : ℕ
  pub last_healthy_agent_image : String
  pub last_healthy_ui_image : String
  pub agent_rollback : Option ImageRollback
  pub ui_rollback : Option ImageRollback
  pub upgrade_started_at : Option ℕ
  pub last_upgrade_duration_seconds : ℕ
