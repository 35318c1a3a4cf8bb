-- ===== src/Tests/NetworkTests.antt =====
-- Witnesses for who may connect to whom.
use pulse_operator.Prelude.{ℕ, true, false, none, eqb, some, [], ◌∷◌, ◌&&◌, ◌||◌, ◌≡◌, refl, lookup}
use pulse_operator.Api.{OpenShiftPulse}
use pulse_operator.Names.{
  agent_resource_name, ui_resource_name, render_resource_name, temporal_resource_name,
}
use pulse_operator.Features.{render_enabled, temporal_enabled, default_false}
use pulse_operator.Network.{
  tcp, Port, Endpoint, has_label, has_labels, selects, is_peer, is_port, lets_through, applies_to,
  let_in, egress_rules, limits_egress, may_connect, may_reach, pod,
}
use pulse_operator.Network.Policies.{
  pg_labels, metadata_name_label, user_workload_monitoring, router_label, ui_policy, pg_policy,
  agent_policy, render_policy, policies,
}
use pulse_operator.Network.Reach.{app_pod, is_app, is_router, tcp_number}
use pulse_operator.Network.Laws.{agent_callers, ui_callers, pg_pod, database_callers}
use pulse_operator.Network.Egress.{is_meant, render_reaches}
use pulse_operator.Ui.Template.{ui_deployment_spec}
use pulse_operator.Ui.TemplateLaws.{MountsHaveVolumes, declares, ui_template_is_consistent}
use pulse_operator.Tests.Sample.{cr, spec, host}

-- The sample with the render service on.
abbrev rendering : OpenShiftPulse
rendering = record cr {
  spec = record spec { render = let render = spec.render in record render { enabled = some true } };
}

abbrev ui_pod : Endpoint
ui_pod = app_pod cr [] "pulse-openshiftpulse"

abbrev agent_pod : Endpoint
agent_pod = app_pod cr [] "pulse-openshift-sre-agent"

abbrev router_pod : Endpoint
router_pod = record {
  namespace = "openshift-ingress";
  namespace_labels = (router_label, "ingress") ∷ [];
  labels = [];
}

abbrev at : ℕ → Port
at number = record { protocol = tcp; number = number }

agent_callers_example :
    ((is_app cr (ui_resource_name cr.meta.name) ui_pod
        || has_label ui_pod.namespace_labels metadata_name_label user_workload_monitoring)
      && tcp_number 8080 (at 8080))
    ≡ true
unfolding may_connect let_in policies applies_to selects has_labels has_label lookup lets_through
    is_peer is_port ui_policy pg_policy agent_policy pg_labels limits_egress egress_rules
    agent_resource_name ui_resource_name default_false render_enabled temporal_enabled
agent_callers_example = agent_callers cr [] ui_pod (at 8080) refl

ui_callers_example :
    ((is_router router_pod && tcp_number 8443 (at 8443))
      || (render_enabled cr
          && (is_app cr (render_resource_name cr.meta.name) router_pod
              && tcp_number 8081 (at 8443))))
    ≡ true
unfolding may_connect let_in policies applies_to selects has_labels has_label lookup lets_through
    is_peer is_port ui_policy pg_policy agent_policy pg_labels limits_egress egress_rules
    agent_resource_name ui_resource_name default_false render_enabled temporal_enabled
ui_callers_example = ui_callers cr [] router_pod (at 8443) refl

database_callers_example :
    ((is_app cr (agent_resource_name cr.meta.name) agent_pod
        || (temporal_enabled cr && is_app cr (temporal_resource_name cr.meta.name) agent_pod))
      && tcp_number 5432 (at 5432))
    ≡ true
unfolding may_connect let_in policies applies_to selects has_labels has_label lookup lets_through
    is_peer is_port ui_policy pg_policy agent_policy pg_labels limits_egress egress_rules
    agent_resource_name ui_resource_name default_false render_enabled temporal_enabled pg_pod
database_callers_example = database_callers cr [] agent_pod (at 5432) refl

render_reaches_example : is_meant rendering (pod ui_pod) (at 8081) ≡ true
unfolding may_connect let_in policies applies_to selects has_labels has_label lookup lets_through
    is_peer is_port ui_policy pg_policy agent_policy pg_labels limits_egress egress_rules
    agent_resource_name ui_resource_name default_false render_enabled temporal_enabled render_policy
    render_resource_name may_reach
render_reaches_example = render_reaches rendering [] (pod ui_pod) (at 8081) refl refl

ui_template_is_consistent_example :
    MountsHaveVolumes (ui_deployment_spec (λ s. s) host.getenv cr none "h" []).1.template
    × (declares (ui_deployment_spec (λ s. s) host.getenv cr none "h" []).1.template 8443 ≡ true)
    × (eqb 8443 8080 ≡ false)
unfolding may_connect let_in policies applies_to selects has_labels has_label lookup lets_through
    is_peer is_port ui_policy pg_policy agent_policy pg_labels limits_egress egress_rules
    agent_resource_name ui_resource_name default_false render_enabled temporal_enabled
ui_template_is_consistent_example =
    ui_template_is_consistent (λ s. s) host.getenv cr none "h" [] [] router_pod (at 8443) refl
