-- ===== src/Host.antt =====
-- What the controller takes from outside: the process environment, the API machinery's
-- condition list (k8s.io/apimachinery/pkg/api/meta), and the event recorder (events.go).
use pulse_operator.Prelude.{
  String, Bool, false, List, [], ◌∷◌, Option, none, some, ◌==◌, ◌≡◌, if◌then◌else◌, not,
}
use mathlib.Core.List.{◌++◌}
use pulse_operator.Api.{Condition}

-- `os.Getenv`: the empty text when the variable is unset.
abbrev pub Env : Type 0
Env = String → String

-- SetStatusCondition and FindStatusCondition of the API machinery, with their documented
-- behaviour: setting a condition replaces the one of its type and leaves the others.
pub record ConditionStore : Type 0 where
  pub set : List Condition → Condition → List Condition
  pub find : List Condition → String → Option Condition
  pub find-set :
      (cs : List Condition) (c : Condition) (type : String)
      → find (set cs c) type ≡ (if c.type == type then some c else find cs type)

-- IsStatusConditionFalse: present, and False.
abbrev pub is_condition_false : ConditionStore → List Condition → String → Bool
is_condition_false store cs type = elim (store.find cs type) [
  | none ↦ false
  | some c ↦ not c.status
]

pub data EventType : Type 0 where
  normal warning : EventType

-- An event's type and reason. Its message is for the reader and is not modelled.
pub record Event : Type 0 where
  pub type : EventType
  pub reason : String

-- The reconciler's surroundings; `has_recorder` says that its Recorder is not nil.
pub record Host : Type 0 where
  pub getenv : Env
  pub has_recorder : Bool
  pub store : ConditionStore

-- recordEvent: nothing is recorded without a recorder.
unfoldable pub record_event : Host → EventType → String → List Event → List Event
record_event host type reason events =
    if host.has_recorder then events ++ record { type = type; reason = reason } ∷ [] else events
