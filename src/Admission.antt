-- ===== src/Admission.antt =====
-- admission.go: one OpenShiftPulse per cluster, in one namespace.
pub mod Laws
use Prim.Native.String.{◌++◌}
use pulse_operator.Prelude.{
  text_le, ℕ, String, Bool, true, false, not, ◌&&◌, Option, none, some, List, [], ◌∷◌, length, keep,
  ltb, eqb, ◌==◌, if◌then◌else◌, is_some,
}
use pulse_operator.Api.{OpenShiftPulse, Phase, rejected, Condition}
use pulse_operator.Host.{Env, Host, ConditionStore, Event, warning, record_event}
use pulse_operator.Cluster.{Error, wrap, Got, found, failed, Cluster, M, ◌>>=◌, return}
use pulse_operator.Teardown.{delete_cluster_scoped_resources}

abbrev pub env_pulse_namespace : String
env_pulse_namespace = "PULSE_NAMESPACE"

abbrev pub default_pulse_namespace : String
default_pulse_namespace = "openshiftpulse"

unfoldable pub pulse_namespace : Env → String
pulse_namespace getenv =
    if getenv env_pulse_namespace == "" then default_pulse_namespace else getenv env_pulse_namespace

-- The order of the sort: by creation, then by name.
unfoldable pub is_older : OpenShiftPulse → OpenShiftPulse → Bool
is_older a b =
    if eqb a.meta.created b.meta.created
    then not (text_le b.meta.name a.meta.name)
    else ltb a.meta.created b.meta.created

-- sort.Slice, as an insertion sort.
unfoldable pub insert_by_age : OpenShiftPulse → List OpenShiftPulse → List OpenShiftPulse
insert_by_age a [] = a ∷ []
insert_by_age a (b ∷ bs) = if is_older b a then b ∷ insert_by_age a bs else a ∷ (b ∷ bs)

unfoldable pub sort_by_age : List OpenShiftPulse → List OpenShiftPulse
sort_by_age [] = []
sort_by_age (a ∷ rest) = insert_by_age a (sort_by_age rest)

unfoldable pub live : List OpenShiftPulse → List OpenShiftPulse
live items = keep (λ cr. not (is_some cr.meta.deleted)) items

-- Why a CR is not the cluster's instance.
pub data Rejection : Type 0 where
  wrong_namespace : String → String → Rejection
  already_exists : String → String → Rejection

unfoldable pub rejection_text : Rejection → String
rejection_text (wrong_namespace expected actual) =
    "OpenShiftPulse is only supported in namespace \""
    ++ (expected
        ++ ("\", one per cluster; this one is in \""
            ++ (actual
                ++ ("\" and is ignored. A cluster admin can change the namespace with the operator's "
                    ++ (env_pulse_namespace ++ " environment variable.")))))
rejection_text (already_exists namespace name) =
    "Only one OpenShiftPulse is supported per cluster, and "
    ++ (namespace ++ ("/" ++ (name ++ " already exists; this one is ignored.")))

-- The oldest CR against the one at hand; `live[0]` of an empty list is not read.
unfoldable pub reject_unless_oldest :
    String → OpenShiftPulse → List OpenShiftPulse → Option Rejection
reject_unless_oldest namespace pulse [] = none
reject_unless_oldest namespace pulse (oldest ∷ rest) =
    if oldest.meta.uid == pulse.meta.uid
    then none
    else some (already_exists namespace oldest.meta.name)

-- rejectionReason with the gate on; `listed` is what listing the namespace answers. The empty
-- reason is `none`.
unfoldable pub rejection_reason :
    Env → OpenShiftPulse → Got (List OpenShiftPulse) → Got (Option Rejection)
unfolding live
rejection_reason getenv pulse listed =
    if not (pulse.meta.namespace == pulse_namespace getenv)
    then found (some (wrong_namespace (pulse_namespace getenv) pulse.meta.namespace))
    else elim listed [
      | failed e ↦ failed e
      | found items ↦
          if ltb (length (live items)) 2
          then found none
          else found
              (reject_unless_oldest (pulse_namespace getenv) pulse (sort_by_age (live items)))
    ]

abbrev pub condition_accept : String
condition_accept = "Accepted"

pub record Rejected : Type 0 where
  pub error : Option Error
  pub cr : OpenShiftPulse
  pub events : List Event

unfoldable is_rejected : Phase → Bool
is_rejected rejected = true
is_rejected _ = false

-- The status that reject writes.
unfoldable pub rejected_status : Host → OpenShiftPulse → Rejection → OpenShiftPulse
rejected_status host pulse reason =
    let status = pulse.status in
    record pulse {
      status = record status {
        phase = rejected;
        conditions = (host.store).set status.conditions (record {
          type = condition_accept;
          status = false;
          reason = "NotTheClusterInstance";
          message = rejection_text reason;
          observed_generation = pulse.meta.generation;
        });
      };
    }

-- `update_status` is the answer to the status update at the end.
unfoldable pub reject : Host → Cluster → OpenShiftPulse → Rejection → Option Error → M Rejected
unfolding is_rejected
reject host cluster pulse reason update_status = do
  err ← delete_cluster_scoped_resources cluster pulse
  elim err [
    | some e ↦ return (record {
      error = some (wrap "remove cluster-scoped resources of rejected OpenShiftPulse" e);
      cr = pulse;
      events = [];
    })
    | none ↦ return (record {
      error = update_status;
      cr = rejected_status host pulse reason;
      events =
          if is_rejected pulse.status.phase
          then []
          else record_event host warning "NotTheClusterInstance" [];
    })
  ]
