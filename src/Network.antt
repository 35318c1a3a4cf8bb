-- ===== src/Network.antt =====
-- The network policies that the operator writes (network_policy_reconciler.go, and the ones of
-- mcp_reconciler.go, temporal_reconciler.go and render_reconciler.go), as data, and what a set of
-- network policies lets through by the documentation of the NetworkPolicy API.
pub mod Policies
pub mod Reach
pub mod Sums
pub mod Laws
pub mod Egress
use pulse_operator.Prelude.{
  ℕ, String, Bool, true, false, not, ◌&&◌, ◌||◌, Option, none, some, List, [], ◌∷◌, Dict, lookup,
  text_at, any, eqb, ◌==◌,
}

-- metav1.LabelSelector: labels that must be there, or the one expression `key In values`.
pub data Selector : Type 0 where
  match_labels : Dict String → Selector
  label_in : String → List String → Selector

pub data Protocol : Type 0 where
  tcp udp : Protocol

pub record Port : Type 0 where
  pub protocol : Protocol
  pub number : ℕ

-- NetworkPolicyPeer: pods of the policy's own namespace, or every pod of the namespaces selected.
pub data Peer : Type 0 where
  pods : Selector → Peer
  namespaces : Selector → Peer

-- An ingress or egress rule. Without peers, or without ports, it is for all of them.
pub record Rule : Type 0 where
  pub peers : List Peer
  pub ports : List Port

-- `egress` is none when the policy types have no Egress; all policies here have Ingress.
pub record NetworkPolicy : Type 0 where
  pub name : String
  pub namespace : String
  pub pod_selector : Selector
  pub ingress : List Rule
  pub egress : Option (List Rule)

-- One end of a connection: a pod with its labels, in a namespace with its labels.
pub record Endpoint : Type 0 where
  pub namespace : String
  pub namespace_labels : Dict String
  pub labels : Dict String

-- The label is there with this value.
unfoldable pub has_label : Dict String → String → String → Bool
has_label labels key value = elim (lookup key labels) [ none ↦ false | some v ↦ v == value ]

unfoldable pub has_labels : Dict String → Dict String → Bool
has_labels labels [] = true
has_labels labels ((key, value) ∷ rest) = has_label labels key value && has_labels labels rest

unfoldable pub selects : Selector → Dict String → Bool
unfolding has_labels has_label
selects (match_labels wanted) labels = has_labels labels wanted
selects (label_in key values) labels = any (λ value. has_label labels key value) values

unfoldable pub is_peer : String → Peer → Endpoint → Bool
unfolding selects
is_peer namespace (pods selector) end = end.namespace == namespace && selects selector end.labels
is_peer namespace (namespaces selector) end = selects selector end.namespace_labels

abbrev same_protocol : Protocol → Protocol → Bool
same_protocol tcp tcp = true
same_protocol udp udp = true
same_protocol _ _ = false

unfoldable pub is_port : Port → Port → Bool
is_port wanted port = same_protocol wanted.protocol port.protocol && eqb wanted.number port.number

-- `true` for an empty list.
abbrev any_or_all : {A : Type 0} → (A → Bool) → List A → Bool
any_or_all test [] = true
any_or_all test (x ∷ xs) = any test (x ∷ xs)

-- Some rule lets the other end through on the port.
unfoldable pub lets_through : String → List Rule → Endpoint → Port → Bool
unfolding is_peer is_port
lets_through namespace rules end port =
    any
      (λ rule.
        any_or_all (λ peer. is_peer namespace peer end) rule.peers
        && any_or_all (λ wanted. is_port wanted port) rule.ports)
      rules

unfoldable pub applies_to : NetworkPolicy → Endpoint → Bool
unfolding selects
applies_to policy end = end.namespace == policy.namespace && selects policy.pod_selector end.labels

-- A policy that applies to the target lets the source in. The policies of a set add up.
unfoldable pub let_in : List NetworkPolicy → Endpoint → Endpoint → Port → Bool
unfolding applies_to lets_through
let_in policies source target port =
    any
      (λ policy.
        applies_to policy target && lets_through policy.namespace policy.ingress source port)
      policies

unfoldable pub egress_rules : NetworkPolicy → List Rule
egress_rules policy = elim policy.egress [ none ↦ [] | some rules ↦ rules ]

unfoldable pub limits_egress : NetworkPolicy → Bool
limits_egress policy = elim policy.egress [ none ↦ false | some rules ↦ true ]

-- Whether the policies allow the source to connect to the target. A pod that no policy applies to
-- is not restricted.
unfoldable pub may_connect : List NetworkPolicy → Endpoint → Endpoint → Port → Bool
unfolding applies_to lets_through let_in egress_rules limits_egress
may_connect policies source target port =
    (not (any (λ policy. applies_to policy target) policies) || let_in policies source target port)
    && (not (any (λ policy. limits_egress policy && applies_to policy source) policies)
        || any
            (λ policy.
              (limits_egress policy && applies_to policy source)
              && lets_through policy.namespace (egress_rules policy) target port)
            policies)

-- What a pod connects to: a pod, or a host outside the cluster. Peers select pods, so only a rule
-- without peers lets out of the cluster.
pub data Target : Type 0 where
  pod : Endpoint → Target
  outside : Target

unfoldable pub lets_outside : List Rule → Port → Bool
unfolding is_port
lets_outside rules port =
    any
      (λ rule.
        any_or_all (λ peer. false) rule.peers
        && any_or_all (λ wanted. is_port wanted port) rule.ports)
      rules

-- Whether the policies allow the source to connect to the target, in the cluster or outside.
unfoldable pub may_reach : List NetworkPolicy → Endpoint → Target → Port → Bool
unfolding may_connect lets_outside
may_reach policies source (pod target) port = may_connect policies source target port
may_reach policies source outside port =
    not (any (λ policy. limits_egress policy && applies_to policy source) policies)
    || any
        (λ policy.
          (limits_egress policy && applies_to policy source)
          && lets_outside (egress_rules policy) port)
        policies
