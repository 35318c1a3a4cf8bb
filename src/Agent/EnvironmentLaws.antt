-- ===== src/Agent/EnvironmentLaws.antt =====
-- The names in the agent's environment, part by part.
use mathlib.Core.List.{◌++◌, append-nil}
use pulse_operator.Prelude.{
  ℕ, String, Bool, true, false, not, ◌&&◌, ◌||◌, Option, none, some, List, [], ◌∷◌, any, ◌==◌, ◌≡◌,
  refl, sym, arith, if◌then◌else◌, Option-cases, Bool-cases, inl, inr,
}
use pulse_operator.Api.{OpenShiftPulse, VertexAiConfig}
use pulse_operator.Features.{database_enabled, temporal_enabled, render_enabled, default_false}
use pulse_operator.Detection.{ClusterInfo}
use pulse_operator.Workload.{EnvVar}
use pulse_operator.Agent.Environment.{
  base_env, admin_env, vertex_env, api_key_env, backend_env, database_env, mcp_env, temporal_env,
  render_env, autofix_env, acm_env, agent_env,
}

unfoldable pub has_variable : String → List EnvVar → Bool
has_variable name env = any (λ v. v.name == name) env

-- No name stands twice.
unfoldable pub distinct : List EnvVar → Bool
unfolding has_variable
distinct [] = true
distinct (v ∷ rest) = not (has_variable v.name rest) && distinct rest

pub has_variable-append :
    (name : String) (xs ys : List EnvVar)
    → has_variable name (xs ++ ys) ≡ (has_variable name xs || has_variable name ys)
unfolding has_variable
has_variable-append name [] ys = refl
has_variable-append name (x ∷ xs) ys = ground (arith, has_variable-append name xs ys)

-- `env` has names of `names` alone, in their order, each once at most.
pub data Within : List String → List EnvVar → Type 0 where
  ended : Within [] []
  skipped :
      (name : String) (names : List String) (env : List EnvVar)
      → Within names env
      → Within (name ∷ names) env
  used :
      (v : EnvVar) (names : List String) (env : List EnvVar)
      → Within names env
      → Within (v.name ∷ names) (v ∷ env)

Within-append :
    (ns ms : List String) (xs ys : List EnvVar)
    → Within ns xs
    → Within ms ys
    → Within (ns ++ ms) (xs ++ ys)
Within-append _ ms _ ys ended k = k
Within-append _ ms _ ys (skipped n ns xs h) k =
    skipped n (ns ++ ms) (xs ++ ys) (Within-append ns ms xs ys h k)
Within-append _ ms _ ys (used v ns xs h) k =
    used v (ns ++ ms) (xs ++ ys) (Within-append ns ms xs ys h k)

unfoldable pub listed : String → List String → Bool
listed name names = any (λ n. n == name) names

unfoldable all_distinct : List String → Bool
unfolding listed
all_distinct [] = true
all_distinct (n ∷ ns) = not (listed n ns) && all_distinct ns

pub Within-listed :
    (name : String) (ns : List String) (xs : List EnvVar)
    → Within ns xs
    → has_variable name xs ≡ true
    → listed name ns ≡ true
unfolding has_variable listed
Within-listed name _ _ ended h = h
Within-listed name _ _ (skipped n ns xs k) h = ground (arith, Within-listed name ns xs k)
Within-listed name _ _ (used v ns xs k) h = ground (arith, Within-listed name ns xs k)

Within-distinct :
    (ns : List String) (xs : List EnvVar)
    → Within ns xs
    → all_distinct ns ≡ true
    → distinct xs ≡ true
unfolding distinct all_distinct
Within-distinct _ _ ended h = refl
Within-distinct _ _ (skipped n ns xs k) h = ground (arith, Within-distinct ns xs k)
Within-distinct _ _ (used v ns xs k) h =
    ground (arith, Within-distinct ns xs k, Within-listed v.name ns xs k)

one :
    (name : String) (b : Bool) (v : EnvVar)
    → v.name ≡ name
    → Within (name ∷ []) (if b then v ∷ [] else [])
one name true v e = rw (sym e) (used v [] [] ended)
one name false v e = skipped name [] [] ended

unused : (names : List String) → Within names []
unused [] = ended
unused (n ∷ ns) = skipped n ns [] (unused ns)

abbrev pub base_names : List String
base_names = "PULSE_AGENT_WS_TOKEN" ∷ "PULSE_AGENT_TRUST_LEVEL" ∷ "PULSE_AGENT_MAX_TRUST_LEVEL" ∷ []

abbrev pub vertex_names : List String
vertex_names =
    "ANTHROPIC_VERTEX_PROJECT_ID" ∷ "CLOUD_ML_REGION" ∷ "GOOGLE_APPLICATION_CREDENTIALS" ∷ []

abbrev render_names : List String
render_names = "PULSE_AGENT_RENDER_URL" ∷ "PULSE_AGENT_RENDER_TOKEN" ∷ []

abbrev acm_names : List String
acm_names = "PULSE_AGENT_ACM_THANOS_ENABLED" ∷ "PULSE_AGENT_ACM_THANOS_URL" ∷ []

abbrev pub rest_names : List String
rest_names =
    ("PULSE_AGENT_DATABASE_URL" ∷ [])
    ++ (("PULSE_MCP_URL" ∷ [])
        ++ (("PULSE_AGENT_TEMPORAL_HOST" ∷ [])
            ++ (render_names ++ (("PULSE_AGENT_DURABLE_AUTOFIX" ∷ []) ++ acm_names))))

abbrev agent_names : List String
agent_names =
    base_names
    ++ (("PULSE_AGENT_ADMIN_USERS" ∷ [])
        ++ ((vertex_names ++ "ANTHROPIC_API_KEY" ∷ []) ++ rest_names))

module _ (itoa : ℕ → String) (cr : OpenShiftPulse) where
  pub base-Within : Within base_names (base_env itoa cr)
  unfolding base_env
  base-Within = used _ _ _ (used _ _ _ (used _ _ _ ended))

  pub admin-Within : Within ("PULSE_AGENT_ADMIN_USERS" ∷ []) (admin_env itoa cr)
  unfolding admin_env
  admin-Within = elim (Bool-cases (cr.spec.agent.admin_users == "")) [
    | inl y ↦ rw y (unused _)
    | inr n ↦ rw n (used _ _ _ ended)
  ]

  pub vertex-Within : (vertex : VertexAiConfig) → Within vertex_names (vertex_env itoa cr vertex)
  unfolding vertex_env
  vertex-Within vertex = elim (Bool-cases (vertex.credential_secret == "")) [
    | inl y ↦ rw y (used _ _ _ (used _ _ _ (unused _)))
    | inr n ↦ rw n (used _ _ _ (used _ _ _ (used _ _ _ ended)))
  ]

  pub api_key-Within : Within ("ANTHROPIC_API_KEY" ∷ []) (api_key_env itoa cr)
  unfolding api_key_env
  api_key-Within = elim (Option-cases cr.spec.anthropic_api_key) [
    | inl n ↦ rw n (unused _)
    | inr (key, k) ↦ elim (Bool-cases (key.existing_secret == "")) [
      | inl y ↦ rw (k, y) (unused _)
      | inr n ↦ rw (k, n) (used _ _ _ ended)
    ]
  ]

  backend-Within : Within (vertex_names ++ "ANTHROPIC_API_KEY" ∷ []) (backend_env itoa cr)
  unfolding backend_env
  backend-Within =
      let key_only =
        Within-append vertex_names ("ANTHROPIC_API_KEY" ∷ []) [] _ (unused _) api_key-Within in
      elim (Option-cases cr.spec.vertex_ai) [
        | inl n ↦ rw n key_only
        | inr (vertex, v) ↦ elim (Bool-cases (vertex.project_id == "")) [
          | inl y ↦ rw (v, y) key_only
          | inr n ↦
              rw (v, n)
                (rw (sym (append-nil (vertex_env itoa cr vertex)))
                  (Within-append vertex_names _ _ [] (vertex-Within vertex) (unused _)))
        ]
      ]

  render-Within : Within render_names (render_env itoa cr)
  unfolding render_env
  render-Within = elim (Bool-cases (render_enabled cr)) [
    | inl y ↦ rw y (used _ _ _ (used _ _ _ ended))
    | inr n ↦ rw n (unused _)
  ]

  acm-Within : (info : Option ClusterInfo) → Within acm_names (acm_env itoa cr info)
  unfolding acm_env
  acm-Within none = unused _
  acm-Within (some info) = elim (Bool-cases info.acm_available) [
    | inr n ↦ rw n (unused _)
    | inl y ↦ elim (Bool-cases (info.acm_thanos_url == "")) [
      | inl z ↦ rw (y, z) (used _ _ _ (unused _))
      | inr n ↦ rw (y, n) (used _ _ _ (used _ _ _ ended))
    ]
  ]

  -- What follows the AI backend.
  unfoldable pub rest_env : Option ClusterInfo → List EnvVar
  rest_env info =
      database_env itoa cr
      ++ (mcp_env itoa cr
          ++ (temporal_env itoa cr
              ++ (render_env itoa cr ++ (autofix_env itoa cr ++ acm_env itoa cr info))))

  pub rest-Within : (info : Option ClusterInfo) → Within rest_names (rest_env info)
  unfolding rest_env database_env mcp_env temporal_env autofix_env
  rest-Within info =
      Within-append _ _ _ _ (one "PULSE_AGENT_DATABASE_URL" (database_enabled cr) _ refl) (
        Within-append _ _ _ _ (one "PULSE_MCP_URL" cr.spec.agent.mcp.enabled _ refl) (
          Within-append _ _ _ _ (one "PULSE_AGENT_TEMPORAL_HOST" (temporal_enabled cr) _ refl) (
            Within-append _ _ _ _ render-Within (
              Within-append _ _ _ _
                (one "PULSE_AGENT_DURABLE_AUTOFIX" (default_false cr.spec.agent.durable_auto_fix) _
                  refl)
                (acm-Within info)))))

  pub agent_env-parts :
      (info : Option ClusterInfo)
      → agent_env itoa cr info
        ≡ base_env itoa cr ++ (admin_env itoa cr ++ (backend_env itoa cr ++ rest_env info))
  unfolding agent_env rest_env
  agent_env-parts info = refl

  env-Within : (info : Option ClusterInfo) → Within agent_names (agent_env itoa cr info)
  env-Within info = rw (agent_env-parts info) (
      Within-append _ _ _ _ base-Within (
        Within-append _ _ _ _ admin-Within
          (Within-append _ _ _ _ backend-Within (rest-Within info))))

-- No variable stands twice in the agent's environment, whatever the CR and the cluster are.
pub distinct-agent_env :
    (itoa : ℕ → String) (cr : OpenShiftPulse) (info : Option ClusterInfo)
    → distinct (agent_env itoa cr info) ≡ true
unfolding all_distinct listed
distinct-agent_env itoa cr info = Within-distinct agent_names _ (env-Within itoa cr info) refl
