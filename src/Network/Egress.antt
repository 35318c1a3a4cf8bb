-- ===== src/Network/Egress.antt =====
-- What the render pod, which runs a browser, may connect to.
use pulse_operator.Prelude.{
  String, Bool, true, false, ◌&&◌, ◌||◌, List, Dict, any, ◌==◌, ◌≡◌, refl, sym, ◌∙◌, arith, eq_refl,
}
use pulse_operator.Api.{OpenShiftPulse}
use pulse_operator.Names.{ui_resource_name, render_resource_name}
use pulse_operator.Features.{render_enabled}
use pulse_operator.Network.{
  udp, Port, Endpoint, NetworkPolicy, has_labels, selects, is_peer, is_port, lets_through,
  applies_to, egress_rules, limits_egress, may_connect, Target, pod, outside, lets_outside,
  may_reach,
}
use pulse_operator.Network.Policies.{
  pg_policy, agent_policy, mcp_policy, temporal_policy, render_policy, policies,
}
use pulse_operator.Network.Reach.{differ, app_pod, is_app, tcp_number, ui-applies, render-applies}
use pulse_operator.Network.Sums.{any-policies}

-- The policy restricts what the source connects to.
unfoldable holds_back : Endpoint → NetworkPolicy → Bool
holds_back source policy = limits_egress policy && applies_to policy source

unfoldable lets_out : Endpoint → Endpoint → Port → NetworkPolicy → Bool
lets_out source target port policy =
    holds_back source policy && lets_through policy.namespace (egress_rules policy) target port

may_connect-lets_out :
    (ps : List NetworkPolicy) (source target : Endpoint) (port : Port)
    → any (holds_back source) ps ≡ true
    → may_connect ps source target port ≡ true
    → any (lets_out source target port) ps ≡ true
unfolding may_connect holds_back lets_out
may_connect-lets_out ps source target port a h = ground arith

-- A port of the name service: 53, or 5353 where its pods listen.
unfoldable pub is_dns : Port → Bool
is_dns port =
    (is_port (record { protocol = udp; number = 53 }) port || tcp_number 53 port)
    || (is_port (record { protocol = udp; number = 5353 }) port || tcp_number 5353 port)

module _ (cr : OpenShiftPulse) where
  unlimited :
      (limits_egress (pg_policy cr) ≡ false)
      × (limits_egress (agent_policy cr) ≡ false)
      × (limits_egress (mcp_policy cr) ≡ false)
      × (limits_egress (temporal_policy cr) ≡ false)
      × (limits_egress (render_policy cr) ≡ true)
  unfolding limits_egress pg_policy agent_policy mcp_policy temporal_policy render_policy
  unlimited = (refl, refl, refl, refl, refl)

  render-egress :
      (target : Endpoint) (port : Port)
      → lets_through (render_policy cr).namespace (egress_rules (render_policy cr)) target port ≡ (
          (is_app cr (ui_resource_name cr.meta.name) target && tcp_number 8081 port) || is_dns port)
  unfolding lets_through egress_rules is_app is_dns is_peer selects has_labels render_policy
  render-egress target port = ground arith

render_is_not_ui : (name : String) → (render_resource_name name == ui_resource_name name) ≡ false
unfolding render_resource_name ui_resource_name
render_is_not_ui name = differ name "-render" "-openshiftpulse" refl

render_is_held_back :
    (cr : OpenShiftPulse) (labels : Dict String)
    → render_enabled cr ≡ true
    → any (holds_back (app_pod cr labels (render_resource_name cr.meta.name))) (policies cr) ≡ true
unfolding holds_back
render_is_held_back cr labels on =
    let source = app_pod cr labels (render_resource_name cr.meta.name) in
    any-policies (holds_back source) cr
    ∙ ground (
      arith,
      on,
      unlimited cr,
      render-applies cr labels (render_resource_name cr.meta.name),
      eq_refl (render_resource_name cr.meta.name),
    )

reaches_pod :
    (cr : OpenShiftPulse) (labels : Dict String) (target : Endpoint) (port : Port)
    → render_enabled cr ≡ true
    → may_connect (policies cr) (app_pod cr labels (render_resource_name cr.meta.name)) target port
      ≡ true
    → ((is_app cr (ui_resource_name cr.meta.name) target && tcp_number 8081 port) || is_dns port)
      ≡ true
unfolding lets_out holds_back
reaches_pod cr labels target port on h =
    let source = app_pod cr labels (render_resource_name cr.meta.name) in
    let out : any (lets_out source target port) (policies cr) ≡ true =
      may_connect-lets_out (policies cr) source target port (render_is_held_back cr labels on) h in
    let split : _ ≡ true = sym (any-policies (lets_out source target port) cr) ∙ out in
    ground (
      arith,
      split,
      unlimited cr,
      ui-applies cr labels (render_resource_name cr.meta.name),
      render_is_not_ui cr.meta.name,
      render-egress cr target port,
    )

-- The policy lets the source out of the cluster.
unfoldable lets_leave : Endpoint → Port → NetworkPolicy → Bool
lets_leave source port policy = holds_back source policy && lets_outside (egress_rules policy) port

may_reach-lets_leave :
    (ps : List NetworkPolicy) (source : Endpoint) (port : Port)
    → any (holds_back source) ps ≡ true
    → may_reach ps source outside port ≡ true
    → any (lets_leave source port) ps ≡ true
unfolding may_reach holds_back lets_leave
may_reach-lets_leave ps source port a h = ground arith

render_stays_inside :
    (cr : OpenShiftPulse) (port : Port)
    → lets_outside (egress_rules (render_policy cr)) port ≡ false
unfolding lets_outside egress_rules render_policy
render_stays_inside cr port = refl

-- What a render pod is meant to reach: the UI's render listener on 8081, and the ports of the name
-- service on the pods of the cluster.
unfoldable pub is_meant : OpenShiftPulse → Target → Port → Bool
unfolding is_app is_dns
is_meant cr (pod target) port =
    (is_app cr (ui_resource_name cr.meta.name) target && tcp_number 8081 port) || is_dns port
is_meant cr outside port = false

-- With render on, a render pod of the CR may connect to no host outside the cluster, and in the
-- cluster to nothing but the UI's render listener on 8081 and, on any pod, ports 53 and 5353, those
-- of the name service.
pub render_reaches :
    (cr : OpenShiftPulse) (labels : Dict String) (target : Target) (port : Port)
    → render_enabled cr ≡ true
    → may_reach (policies cr) (app_pod cr labels (render_resource_name cr.meta.name)) target port
      ≡ true
    → is_meant cr target port ≡ true
unfolding is_meant may_reach lets_leave holds_back
render_reaches cr labels (pod target) port on h = reaches_pod cr labels target port on h
render_reaches cr labels outside port on h =
    let source = app_pod cr labels (render_resource_name cr.meta.name) in
    let out = may_reach-lets_leave (policies cr) source port (render_is_held_back cr labels on) h in
    let split : _ ≡ true = sym (any-policies (lets_leave source port) cr) ∙ out in
    absurd (
      ground (
        arith,
        split,
        unlimited cr,
        ui-applies cr labels (render_resource_name cr.meta.name),
        render_is_not_ui cr.meta.name,
        render_stays_inside cr port,
      ))
