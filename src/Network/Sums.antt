-- ===== src/Network/Sums.antt =====
-- What a CR's policies let in, policy by policy.
use Prim.Native.String.{◌++◌ as add}
use mathlib.Core.List.{◌++◌}
use mathlib.Core.Path.{ap₂}
use pulse_operator.Prelude.{
  String, Bool, true, false, ◌&&◌, ◌||◌, List, [], ◌∷◌, Dict, any, ◌==◌, ◌≡◌, refl, ap, ◌∙◌, arith,
  if◌then◌else◌,
}
use pulse_operator.Api.{OpenShiftPulse}
use pulse_operator.Names.{
  agent_resource_name, ui_resource_name, mcp_resource_name, render_resource_name,
  temporal_resource_name,
}
use pulse_operator.Features.{render_enabled, temporal_enabled}
use pulse_operator.Network.{Port, Endpoint, NetworkPolicy, applies_to, let_in, may_connect}
use pulse_operator.Network.Policies.{
  ui_policy, pg_policy, agent_policy, mcp_policy, temporal_policy, render_policy, policies,
}
use pulse_operator.Network.Reach.{
  app_pod, lets, ui-applies, pg-applies, agent-applies, mcp-applies, temporal-applies,
  render-applies,
}

abbrev when : Bool → NetworkPolicy → List NetworkPolicy
when wanted policy = if wanted then policy ∷ [] else []

module _ (test : NetworkPolicy → Bool) where
  any-append : (xs ys : List NetworkPolicy) → any test (xs ++ ys) ≡ (any test xs || any test ys)
  any-append [] ys = refl
  any-append (x ∷ xs) ys = ground (arith, any-append xs ys)

  any-when :
      (wanted : Bool) (policy : NetworkPolicy)
      → any test (when wanted policy) ≡ (wanted && test policy)
  any-when true policy = ground arith
  any-when false policy = refl

  any-whens :
      (a b c : Bool) (p q r : NetworkPolicy)
      → any test (when a p ++ (when b q ++ when c r))
        ≡ ((a && test p) || ((b && test q) || (c && test r)))
  any-whens a b c p q r =
      any-append (when a p) (when b q ++ when c r)
      ∙ ap₂ (λ x y. x || y) (any-when a p)
          (any-append (when b q) (when c r) ∙ ap₂ (λ x y. x || y) (any-when b q) (any-when c r))

  pub any-policies :
      (cr : OpenShiftPulse)
      → any test (policies cr) ≡ (
          test (ui_policy cr)
          || (test (pg_policy cr)
              || (test (agent_policy cr)
                  || ((cr.spec.agent.mcp.enabled && test (mcp_policy cr))
                      || ((temporal_enabled cr && test (temporal_policy cr))
                          || (render_enabled cr && test (render_policy cr)))))))
  unfolding policies
  any-policies cr =
      ap (λ rest. test (ui_policy cr) || (test (pg_policy cr) || (test (agent_policy cr) || rest)))
        (any-whens cr.spec.agent.mcp.enabled (temporal_enabled cr) (render_enabled cr)
          (mcp_policy cr) (temporal_policy cr) (render_policy cr))

module _ (source target : Endpoint) (port : Port) where
  -- The policy applies to the target, and lets the source in.
  unfoldable pub lets_in : NetworkPolicy → Bool
  lets_in policy = applies_to policy target && lets policy source port

  pub let_in-policies :
      (cr : OpenShiftPulse)
      → let_in (policies cr) source target port ≡ (
          lets_in (ui_policy cr)
          || (lets_in (pg_policy cr)
              || (lets_in (agent_policy cr)
                  || ((cr.spec.agent.mcp.enabled && lets_in (mcp_policy cr))
                      || ((temporal_enabled cr && lets_in (temporal_policy cr))
                          || (render_enabled cr && lets_in (render_policy cr)))))))
  unfolding let_in lets_in lets
  let_in-policies cr = any-policies lets_in cr

  pub connects-let_in :
      (ps : List NetworkPolicy)
      → any (λ policy. applies_to policy target) ps ≡ true
      → may_connect ps source target port ≡ true
      → let_in ps source target port ≡ true
  unfolding may_connect
  connects-let_in ps a h = ground arith

-- What is let in to a pod with an app label, policy by policy.
pub let_in-app :
    (cr : OpenShiftPulse) (labels : Dict String) (app : String) (source : Endpoint) (port : Port)
    → let_in (policies cr) source (app_pod cr labels app) port ≡ (
        (app == ui_resource_name cr.meta.name && lets (ui_policy cr) source port)
        || ((app == agent_resource_name cr.meta.name && lets (agent_policy cr) source port)
            || ((cr.spec.agent.mcp.enabled
                  && (app == mcp_resource_name cr.meta.name && lets (mcp_policy cr) source port))
                || ((temporal_enabled cr
                      && ((app == temporal_resource_name cr.meta.name
                            || app == add (temporal_resource_name cr.meta.name) "-ui")
                          && lets (temporal_policy cr) source port))
                    || (render_enabled cr
                        && (app == render_resource_name cr.meta.name
                            && lets (render_policy cr) source port))))))
unfolding lets_in
let_in-app cr labels app source port =
    let_in-policies source (app_pod cr labels app) port cr
    ∙ rw
        (
          ui-applies cr labels app,
          pg-applies cr labels app,
          agent-applies cr labels app,
          mcp-applies cr labels app,
          temporal-applies cr labels app,
          render-applies cr labels app,
        )
        refl
