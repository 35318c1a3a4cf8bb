-- ===== src/Monitoring.antt =====
-- monitoring_reconciler.go: the ServiceMonitor of the agent and the alert rules. The objects are
-- unstructured; of each the parts that the operator writes are modelled.
use Prim.Native.String.{◌++◌}
use pulse_operator.Prelude.{String, Option, none, some, List, [], ◌∷◌, Dict, if◌then◌else◌}
use pulse_operator.Api.{OpenShiftPulse}
use pulse_operator.Names.{agent_resource_name}
use pulse_operator.Features.{monitoring_enabled}
use pulse_operator.Cluster.{Error, wrap}
use pulse_operator.Rbac.Bindings.{cluster_scoped_annotations}
use pulse_operator.Upsert.{UpsertAnswers, Upserted, write_unless, after_read, stop_or}

pub record Endpoint : Type 0 where
  pub port : String
  pub scheme : String
  pub path : String
  pub interval : String

pub record ServiceMonitor : Type 0 where
  pub selector : Dict String
  pub endpoints : List Endpoint

pub record AlertRule : Type 0 where
  pub alert : String
  pub expr : String
  pub for_time : String
  pub severity : String
  pub summary : String

-- The annotations, and the groups: a name with its rules.
pub record PrometheusRule : Type 0 where
  pub annotations : Dict String
  pub groups : List (String × List AlertRule)

unfoldable pub prometheus_rule_name : String → String
prometheus_rule_name cr_name = cr_name ++ "-openshiftpulse"

unfoldable pub wanted_monitor : OpenShiftPulse → ServiceMonitor
wanted_monitor pulse = record {
  selector = ("app", agent_resource_name pulse.meta.name) ∷ [];
  endpoints = record { port = "http"; scheme = "http"; path = "/metrics/"; interval = "30s" } ∷ [];
}

unfoldable pub alert_rules : OpenShiftPulse → List AlertRule
alert_rules pulse =
    let agent = agent_resource_name pulse.meta.name in
    record {
      alert = "PulseAgentDown";
      expr = "up{job=\"" ++ (agent ++ "\"} == 0");
      for_time = "5m";
      severity = "critical";
      summary = "Pulse Agent is down";
    }
    ∷ record {
      alert = "PulseAgentHighRestarts";
      expr =
          "increase(kube_pod_container_status_restarts_total{namespace=\""
          ++ (pulse.meta.namespace ++ "\", container=\"agent\"}[1h]) > 3");
      for_time = "0m";
      severity = "warning";
      summary = "Pulse Agent restarting frequently";
    }
    ∷ record {
      alert = "PulsePostgreSQLDown";
      expr =
          "kube_statefulset_status_ready_replicas{namespace=\""
          ++ (pulse.meta.namespace ++ ("\", statefulset=\"" ++ (agent ++ "-postgresql\"} == 0")));
      for_time = "3m";
      severity = "critical";
      summary = "Pulse PostgreSQL is down";
    }
    ∷ []

unfoldable pub rule_groups : OpenShiftPulse → List (String × List AlertRule)
unfolding alert_rules
rule_groups pulse = ("pulse.rules", alert_rules pulse) ∷ []

-- Read, create what is missing with a controller reference, and update the written parts of what is
-- there; setting a nested field of an object that the operator made does not fail.
unfoldable pub create_or_patch : {A : Type 0} → UpsertAnswers → A → (A → A) → Option A → Upserted A
create_or_patch answers desired change stored =
    after_read answers.read_error
      (write_unless
        (elim answers.owner_error [ none ↦ none | some e ↦ some (wrap "SetControllerReference" e) ])
        answers.write_error desired stored)
      (λ old. write_unless none answers.write_error (change old) stored) stored

unfoldable pub reconcile_service_monitor :
    UpsertAnswers → OpenShiftPulse → Option ServiceMonitor → Upserted ServiceMonitor
unfolding create_or_patch wanted_monitor
reconcile_service_monitor answers pulse stored =
    create_or_patch answers (wanted_monitor pulse) (λ old. wanted_monitor pulse) stored

unfoldable pub reconcile_prometheus_rule :
    UpsertAnswers → OpenShiftPulse → Option PrometheusRule → Upserted PrometheusRule
unfolding create_or_patch rule_groups
reconcile_prometheus_rule answers pulse stored =
    create_or_patch answers
      (record { annotations = cluster_scoped_annotations pulse; groups = rule_groups pulse })
      (λ old. record old { groups = rule_groups pulse }) stored

-- The pass: its error and the two objects.
unfoldable pub reconcile_monitoring :
    UpsertAnswers
    → UpsertAnswers
    → OpenShiftPulse
    → Option ServiceMonitor
    → Option PrometheusRule
    → Option Error × Option ServiceMonitor × Option PrometheusRule
unfolding reconcile_service_monitor reconcile_prometheus_rule
reconcile_monitoring monitor_answers rule_answers pulse monitor rule =
    let first = reconcile_service_monitor monitor_answers pulse monitor in
    let second = reconcile_prometheus_rule rule_answers pulse rule in
    let after_first : Option Error × Option ServiceMonitor × Option PrometheusRule = elim first.0 [
      | some e ↦ (some (wrap "ServiceMonitor" e), first.1, rule)
      | none ↦ (stop_or "PrometheusRule" second.0 none, first.1, second.1)
    ] in
    if monitoring_enabled pulse then after_first else (none, monitor, rule)
