-- ===== src/Rbac/Roles.antt =====
-- The rules of the three ClusterRoles: reconcileClusterRole (agent_reconciler.go),
-- reconcileUIClusterRole (ui_reconciler.go) and reconcileMCPClusterRole (mcp_reconciler.go).
use mathlib.Core.List.{◌++◌}
use pulse_operator.Prelude.{List, [], ◌∷◌, if◌then◌else◌}
use pulse_operator.Api.{OpenShiftPulse}
use pulse_operator.Features.{secret_access_enabled}
use pulse_operator.Rbac.Rules.{PolicyRule, allow}

-- The rules that every CR's agent gets: reading, and resolving who a token belongs to.
unfoldable pub base_agent_rules : List PolicyRule
base_agent_rules =
    allow ("authentication.k8s.io" ∷ []) ("tokenreviews" ∷ []) ("create" ∷ [])
    ∷ allow ("" ∷ [])
        ("pods" ∷ "pods/log" ∷ "nodes" ∷ "events" ∷ "services" ∷ "namespaces" ∷ "configmaps"
          ∷ "persistentvolumeclaims" ∷ "resourcequotas" ∷ "serviceaccounts" ∷ "endpoints"
          ∷ "limitranges" ∷ [])
        ("get" ∷ "list" ∷ "watch" ∷ [])
    ∷ allow ("apps" ∷ []) ("deployments" ∷ "replicasets" ∷ "statefulsets" ∷ "daemonsets" ∷ [])
        ("get" ∷ "list" ∷ "watch" ∷ [])
    ∷ allow ("autoscaling" ∷ []) ("horizontalpodautoscalers" ∷ []) ("get" ∷ "list" ∷ "watch" ∷ [])
    ∷ allow ("batch" ∷ []) ("jobs" ∷ "cronjobs" ∷ []) ("get" ∷ "list" ∷ "watch" ∷ [])
    ∷ allow ("discovery.k8s.io" ∷ []) ("endpointslices" ∷ []) ("get" ∷ "list" ∷ [])
    ∷ allow ("policy" ∷ []) ("poddisruptionbudgets" ∷ []) ("get" ∷ "list" ∷ [])
    ∷ allow ("storage.k8s.io" ∷ []) ("storageclasses" ∷ []) ("get" ∷ "list" ∷ [])
    ∷ allow ("networking.k8s.io" ∷ []) ("ingresses" ∷ "networkpolicies" ∷ [])
        ("get" ∷ "list" ∷ "watch" ∷ [])
    ∷ allow ("rbac.authorization.k8s.io" ∷ [])
        ("clusterroles" ∷ "clusterrolebindings" ∷ "roles" ∷ "rolebindings" ∷ [])
        ("get" ∷ "list" ∷ [])
    ∷ allow ("metrics.k8s.io" ∷ []) ("nodes" ∷ "pods" ∷ []) ("get" ∷ "list" ∷ [])
    ∷ allow ("config.openshift.io" ∷ []) ("clusteroperators" ∷ "clusterversions" ∷ [])
        ("get" ∷ "list" ∷ [])
    ∷ allow ("apiextensions.k8s.io" ∷ []) ("customresourcedefinitions" ∷ []) ("get" ∷ "list" ∷ [])
    ∷ allow ("route.openshift.io" ∷ []) ("routes" ∷ []) ("get" ∷ "list" ∷ [])
    ∷ allow ("apps" ∷ []) ("controllerrevisions" ∷ []) ("get" ∷ "list" ∷ [])
    ∷ allow ("argoproj.io" ∷ []) ("applications" ∷ []) ("get" ∷ "list" ∷ [])
    ∷ allow ("machineconfiguration.openshift.io" ∷ []) ("machineconfigpools" ∷ [])
        ("get" ∷ "list" ∷ [])
    ∷ allow ("apiserver.openshift.io" ∷ []) ("apirequestcounts" ∷ []) ("get" ∷ "list" ∷ [])
    ∷ allow ("pulse.ai" ∷ []) ("openshiftpulses" ∷ []) ("get" ∷ "list" ∷ "watch" ∷ [])
    ∷ []

unfoldable pub secret_rules : List PolicyRule
secret_rules = allow ("" ∷ []) ("secrets" ∷ []) ("get" ∷ "list" ∷ "watch" ∷ []) ∷ []

unfoldable pub write_rules : List PolicyRule
write_rules =
    allow ("" ∷ []) ("pods" ∷ []) ("delete" ∷ [])
    ∷ allow ("apps" ∷ []) ("deployments" ∷ "statefulsets" ∷ []) ("patch" ∷ "update" ∷ [])
    ∷ []

unfoldable pub agent_rules : OpenShiftPulse → List PolicyRule
agent_rules cr =
    let with_secrets =
      if secret_access_enabled cr then base_agent_rules ++ secret_rules else base_agent_rules in
    if cr.spec.agent.allow_write_operations then with_secrets ++ write_rules else with_secrets

unfoldable pub ui_rules : List PolicyRule
ui_rules =
    allow ("" ∷ [])
      ("namespaces" ∷ "pods" ∷ "services" ∷ "nodes" ∷ "events" ∷ "persistentvolumeclaims"
        ∷ "configmaps" ∷ "endpoints" ∷ "serviceaccounts" ∷ [])
      ("get" ∷ "list" ∷ "watch" ∷ [])
    ∷ allow ("apps" ∷ []) ("deployments" ∷ "daemonsets" ∷ "statefulsets" ∷ "replicasets" ∷ [])
        ("get" ∷ "list" ∷ "watch" ∷ [])
    ∷ allow ("route.openshift.io" ∷ []) ("routes" ∷ []) ("get" ∷ "list" ∷ "watch" ∷ [])
    ∷ allow ("config.openshift.io" ∷ []) ("clusterversions" ∷ "clusteroperators" ∷ [])
        ("get" ∷ "list" ∷ "watch" ∷ [])
    ∷ []

unfoldable pub mcp_rules : List PolicyRule
mcp_rules =
    allow ("" ∷ [])
      ("pods" ∷ "pods/log" ∷ "nodes" ∷ "events" ∷ "services" ∷ "namespaces" ∷ "configmaps"
        ∷ "persistentvolumeclaims" ∷ "resourcequotas" ∷ "serviceaccounts" ∷ "endpoints"
        ∷ "limitranges" ∷ [])
      ("get" ∷ "list" ∷ "watch" ∷ [])
    ∷ allow ("apps" ∷ []) ("deployments" ∷ "replicasets" ∷ "statefulsets" ∷ "daemonsets" ∷ [])
        ("get" ∷ "list" ∷ "watch" ∷ [])
    ∷ allow ("batch" ∷ []) ("jobs" ∷ "cronjobs" ∷ []) ("get" ∷ "list" ∷ "watch" ∷ [])
    ∷ allow ("metrics.k8s.io" ∷ []) ("nodes" ∷ "pods" ∷ []) ("get" ∷ "list" ∷ [])
    ∷ allow ("route.openshift.io" ∷ []) ("routes" ∷ []) ("get" ∷ "list" ∷ "watch" ∷ [])
    ∷ allow ("config.openshift.io" ∷ []) ("clusterversions" ∷ "clusteroperators" ∷ [])
        ("get" ∷ "list" ∷ "watch" ∷ [])
    ∷ []
