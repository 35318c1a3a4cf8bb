-- ===== src/Tests/PodTests.antt =====
-- The witness for the agent's role.
use pulse_operator.Prelude.{String, ◌≡◌, refl}
use pulse_operator.Features.{secret_access_enabled, default_true}
use pulse_operator.Rbac.Rules.{grants, is_read}
use pulse_operator.Rbac.Roles.{base_agent_rules, agent_rules}
use pulse_operator.Rbac.Laws.{writes_need_opt_in}
use pulse_operator.Tests.Sample.{cr}

writes_need_opt_in_example :
    ◌≡◌ {A = String} "authentication.k8s.io" "authentication.k8s.io"
    × ◌≡◌ {A = String} "tokenreviews" "tokenreviews"
    × ◌≡◌ {A = String} "create" "create"
unfolding is_read grants agent_rules base_agent_rules secret_access_enabled default_true
writes_need_opt_in_example =
    writes_need_opt_in cr "authentication.k8s.io" "tokenreviews" "create" refl refl refl
