-- ===== src/Rbac/Laws.antt =====
-- What the three roles allow, and what no setting of a CR makes them allow.
use mathlib.Core.List.{◌++◌}
use pulse_operator.Prelude.{
  String, Bool, true, false, ◌&&◌, ◌||◌, List, [], ◌∷◌, ◌==◌, ◌≡◌, refl, arith, eq_iff, ◌≢◌,
}
use pulse_operator.Api.{OpenShiftPulse}
use pulse_operator.Features.{secret_access_enabled}
use pulse_operator.Rbac.Rules.{PolicyRule, names, grants, is_read}
use pulse_operator.Rbac.Roles.{
  base_agent_rules, secret_rules, write_rules, agent_rules, ui_rules, mcp_rules,
}

grants-append :
    (xs ys : List PolicyRule) (g r v : String)
    → grants (xs ++ ys) g r v ≡ (grants xs g r v || grants ys g r v)
unfolding grants
grants-append [] ys g r v = refl
grants-append (x ∷ xs) ys g r v = ground (arith, grants-append xs ys g r v)

agent_grants :
    (cr : OpenShiftPulse) (g r v : String)
    → grants (agent_rules cr) g r v ≡ (
        grants base_agent_rules g r v
        || ((secret_access_enabled cr && grants secret_rules g r v)
            || (cr.spec.agent.allow_write_operations && grants write_rules g r v)))
unfolding agent_rules
agent_grants cr g r v = ground (
  arith,
  grants-append base_agent_rules secret_rules g r v,
  grants-append base_agent_rules write_rules g r v,
  grants-append (base_agent_rules ++ secret_rules) write_rules g r v,
)

base_no_secrets : (v : String) → grants base_agent_rules "" "secrets" v ≡ false
unfolding grants names base_agent_rules
base_no_secrets v = refl

secret_rules_at : (v : String) → grants secret_rules "" "secrets" v ≡ is_read v
unfolding grants names secret_rules is_read
secret_rules_at v = ground (
  arith,
  eq_iff v "get",
  eq_iff "get" v,
  eq_iff v "list",
  eq_iff "list" v,
  eq_iff "watch" v,
  eq_iff v "watch",
)

write_no_secrets : (v : String) → grants write_rules "" "secrets" v ≡ false
unfolding grants names write_rules
write_no_secrets v = refl

-- Secrets can be read exactly when the CR allows it, and are never written.
pub secrets_readable_iff :
    (cr : OpenShiftPulse) (verb : String)
    → grants (agent_rules cr) "" "secrets" verb ≡ (secret_access_enabled cr && is_read verb)
secrets_readable_iff cr verb = ground (
  arith,
  agent_grants cr "" "secrets" verb,
  base_no_secrets verb,
  secret_rules_at verb,
  write_no_secrets verb,
)

eq_swap : (a b : String) → (a == b) ≡ (b == a)
eq_swap a b = ground (arith, eq_iff a b, eq_iff b a)

base_at_pulse :
    (r v : String) → grants base_agent_rules "pulse.ai" r v ≡ (r == "openshiftpulses" && is_read v)
unfolding grants names base_agent_rules is_read
base_at_pulse r v =
    ground
      (arith, eq_swap "openshiftpulses" r, eq_swap "get" v, eq_swap "list" v, eq_swap "watch" v)

secret_rules_at_pulse : (r v : String) → grants secret_rules "pulse.ai" r v ≡ false
unfolding grants names secret_rules
secret_rules_at_pulse r v = refl

write_rules_at_pulse : (r v : String) → grants write_rules "pulse.ai" r v ≡ false
unfolding grants names write_rules
write_rules_at_pulse r v = refl

-- The agent can read the CRs, and nothing that a CR says lets it write one: it cannot raise its own
-- privileges.
pub cannot_write_own_cr :
    (cr : OpenShiftPulse) (resource verb : String)
    → grants (agent_rules cr) "pulse.ai" resource verb
      ≡ (resource == "openshiftpulses" && is_read verb)
cannot_write_own_cr cr resource verb = ground (
  arith,
  agent_grants cr "pulse.ai" resource verb,
  base_at_pulse resource verb,
  secret_rules_at_pulse resource verb,
  write_rules_at_pulse resource verb,
)

-- Every rule of the list names only verbs that read.
unfoldable pub only_reads : List String → Bool
only_reads [] = true
only_reads (v ∷ vs) = is_read v && only_reads vs

unfoldable pub read_only : List PolicyRule → Bool
read_only [] = true
read_only (rule ∷ rules) = only_reads rule.verbs && read_only rules

star_not_read : (w : String) → w ≡ "*" → is_read w ≡ false
unfolding is_read
star_not_read w e = rw e refl

only_reads-names :
    (vs : List String) (v : String) → only_reads vs ≡ true → names v vs ≡ true → is_read v ≡ true
unfolding only_reads names
only_reads-names [] v h k = ground arith
only_reads-names (w ∷ vs) v h k =
    ground (arith, eq_iff w v, eq_iff w "*", star_not_read w, only_reads-names vs v)

read_only-grants :
    (rules : List PolicyRule) (g r v : String)
    → read_only rules ≡ true
    → grants rules g r v ≡ true
    → is_read v ≡ true
unfolding read_only grants
read_only-grants [] g r v h k = ground arith
read_only-grants (rule ∷ rules) g r v h k =
    ground (arith, only_reads-names rule.verbs v, read_only-grants rules g r v)

-- What the UI and the MCP server are granted is reading.
pub ui_and_mcp_only_read :
    (group resource verb : String)
    → (grants ui_rules group resource verb || grants mcp_rules group resource verb) ≡ true
    → is_read verb ≡ true
unfolding read_only only_reads is_read ui_rules mcp_rules
ui_and_mcp_only_read g r v h =
    ground (arith, read_only-grants ui_rules g r v refl, read_only-grants mcp_rules g r v refl)

rest_of : List PolicyRule → List PolicyRule
rest_of [] = []
rest_of (rule ∷ rules) = rules

base_split :
    (g r v : String)
    → grants base_agent_rules g r v ≡ (
        (names g ("authentication.k8s.io" ∷ [])
          && (names r ("tokenreviews" ∷ []) && names v ("create" ∷ [])))
        || grants (rest_of base_agent_rules) g r v)
unfolding grants base_agent_rules rest_of
base_split g r v = refl

names_one : (x y : String) → y ≢ "*" → names x (y ∷ []) ≡ true → x ≡ y
unfolding names
names_one x y ne h = ground (arith, eq_iff y x, eq_iff y "*")

base_rest_reads : read_only (rest_of base_agent_rules) ≡ true
unfolding read_only only_reads is_read base_agent_rules rest_of
base_rest_reads = refl

secrets_read : read_only secret_rules ≡ true
unfolding read_only only_reads is_read secret_rules
secrets_read = refl

-- Without allowWriteOperations the agent is granted one verb that does not read: it may create
-- token reviews.
pub writes_need_opt_in :
    (cr : OpenShiftPulse) (group resource verb : String)
    → cr.spec.agent.allow_write_operations ≡ false
    → is_read verb ≡ false
    → grants (agent_rules cr) group resource verb ≡ true
    → (group ≡ "authentication.k8s.io") × (resource ≡ "tokenreviews") × (verb ≡ "create")
writes_need_opt_in cr g r v off write granted = ground (
  arith,
  off,
  write,
  granted,
  agent_grants cr g r v,
  base_split g r v,
  read_only-grants (rest_of base_agent_rules) g r v base_rest_reads,
  read_only-grants secret_rules g r v secrets_read,
  names_one g "authentication.k8s.io" (λ e. ground (arith, eq_iff "authentication.k8s.io" "*")),
  names_one r "tokenreviews" (λ e. ground (arith, eq_iff "tokenreviews" "*")),
  names_one v "create" (λ e. ground (arith, eq_iff "create" "*")),
)
