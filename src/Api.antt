-- ===== src/Api.antt =====
-- api/v1alpha1/types.go: the OpenShiftPulse resource, its spec and its status.
mod SpecTypes
mod StatusTypes
use pulse_operator.Prelude.{ℕ, String, List, Option, Dict}
pub use SpecTypes.*
pub use StatusTypes.*

-- The metadata that the controller reads. `deleted` is DeletionTimestamp, `created` is
-- CreationTimestamp; times are counted in nanoseconds.
pub record Meta : Type 0 where
  pub name : String
  pub namespace : String
  pub uid : String
  pub generation : ℕ
  pub created : ℕ
  pub deleted : Option ℕ
  pub finalizers : List String
  pub annotations : Dict String

pub record OpenShiftPulse : Type 0 where
  pub meta : Meta
  pub spec : Spec
  pub status : Status
