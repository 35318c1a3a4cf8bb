-- ===== src/Rbac/Rules.antt =====
-- rbacv1.PolicyRule, and what a list of rules grants.
use pulse_operator.Prelude.{String, Bool, ◌&&◌, ◌||◌, List, any, ◌==◌}

pub record PolicyRule : Type 0 where
  pub api_groups : List String
  pub resources : List String
  pub verbs : List String

abbrev pub allow : List String → List String → List String → PolicyRule
allow groups resources verbs = record { api_groups = groups; resources = resources; verbs = verbs }

-- A list of a rule names a value by itself or by "*".
unfoldable pub names : String → List String → Bool
names x xs = any (λ y. y == x || y == "*") xs

-- A rule of the list covers the verb on the resource of the group.
unfoldable pub grants : List PolicyRule → String → String → String → Bool
unfolding names
grants rules group resource verb =
    any
      (λ rule.
        names group rule.api_groups && (names resource rule.resources && names verb rule.verbs))
      rules

-- The verbs that change nothing.
unfoldable pub is_read : String → Bool
is_read verb = verb == "get" || (verb == "list" || verb == "watch")
