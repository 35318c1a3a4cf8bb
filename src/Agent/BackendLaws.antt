-- ===== src/Agent/BackendLaws.antt =====
-- The AI backend of the agent, and its key file.
use mathlib.Core.List.{◌++◌}
use pulse_operator.Prelude.{
  ℕ, String, Bool, true, false, not, ◌&&◌, ◌||◌, Option, List, [], ◌∷◌, any, All, ◌==◌, ◌≡◌, refl,
  ◌∙◌, arith, Option-cases, inl, inr,
}
use pulse_operator.Api.{OpenShiftPulse}
use pulse_operator.Features.{vertex_configured, api_key_configured}
use pulse_operator.Detection.{ClusterInfo}
use pulse_operator.Workload.{EnvVar, VolumeMount}
use pulse_operator.Agent.Environment.{
  base_env, admin_env, vertex_env, api_key_env, backend_env, agent_env,
}
use pulse_operator.Agent.EnvironmentLaws.{
  has_variable, has_variable-append, Within, Within-listed, listed, base_names, rest_names,
  base-Within, admin-Within, rest-Within, rest_env, agent_env-parts,
}
use pulse_operator.Agent.Template.{credential_secret, agent_mounts, agent_volumes}

not_listed :
    (name : String) (names : List String) (env : List EnvVar)
    → Within names env
    → listed name names ≡ false
    → has_variable name env ≡ false
not_listed name names env h k = ground (arith, Within-listed name names env h)

module _ (itoa : ℕ → String) (cr : OpenShiftPulse) (info : Option ClusterInfo) where
  -- A name of no other part is in the environment if it is in the backend's part.
  in_backend :
      (name : String)
      → listed name base_names ≡ false
      → listed name ("PULSE_AGENT_ADMIN_USERS" ∷ []) ≡ false
      → listed name rest_names ≡ false
      → has_variable name (agent_env itoa cr info) ≡ has_variable name (backend_env itoa cr)
  in_backend name b a r = rw (agent_env-parts itoa cr info) (
      ground (
        arith,
        has_variable-append name (base_env itoa cr)
            (admin_env itoa cr ++ (backend_env itoa cr ++ rest_env itoa cr info)),
        has_variable-append name (admin_env itoa cr) (backend_env itoa cr ++ rest_env itoa cr info),
        has_variable-append name (backend_env itoa cr) (rest_env itoa cr info),
        not_listed name base_names _ (base-Within itoa cr) b,
        not_listed name _ _ (admin-Within itoa cr) a,
        not_listed name rest_names _ (rest-Within itoa cr info) r,
      ))

  vertex_variable :
      has_variable "ANTHROPIC_VERTEX_PROJECT_ID" (backend_env itoa cr) ≡ vertex_configured cr
  unfolding has_variable backend_env vertex_env api_key_env vertex_configured
  vertex_variable = ground arith

  key_variable :
      has_variable "ANTHROPIC_API_KEY" (backend_env itoa cr)
      ≡ (not (vertex_configured cr) && api_key_configured cr)
  unfolding has_variable backend_env vertex_env api_key_env vertex_configured api_key_configured
  key_variable = ground arith

  file_variable :
      has_variable "GOOGLE_APPLICATION_CREDENTIALS" (backend_env itoa cr) ≡ true
      → any (λ m. m.mount_path == "/var/secrets/google") (agent_mounts cr) ≡ true
  unfolding has_variable backend_env vertex_env api_key_env agent_mounts credential_secret
  file_variable h = ground arith

-- The agent is given Vertex AI exactly when it is configured, and the API key exactly when that is
-- and Vertex AI is not: never both.
pub one_backend :
    (itoa : ℕ → String) (cr : OpenShiftPulse) (info : Option ClusterInfo)
    → (has_variable "ANTHROPIC_VERTEX_PROJECT_ID" (agent_env itoa cr info) ≡ vertex_configured cr)
      × (has_variable "ANTHROPIC_API_KEY" (agent_env itoa cr info)
          ≡ (not (vertex_configured cr) && api_key_configured cr))
unfolding listed
one_backend itoa cr info = (
  in_backend itoa cr info "ANTHROPIC_VERTEX_PROJECT_ID" refl refl refl
      ∙ vertex_variable itoa cr info,
  in_backend itoa cr info "ANTHROPIC_API_KEY" refl refl refl ∙ key_variable itoa cr info,
)

unfoldable pub has_volume : OpenShiftPulse → VolumeMount → Bool
has_volume cr mount = any (λ v. v.name == mount.name) (agent_volumes cr)

mounts_have_volumes :
    (cr : OpenShiftPulse) → All (λ mount. has_volume cr mount ≡ true) (agent_mounts cr)
unfolding has_volume agent_mounts agent_volumes
mounts_have_volumes cr = elim (Option-cases (credential_secret cr)) [
  | inl n ↦ rw n (refl, tt)
  | inr (secret, s) ↦ rw s (refl, (ground (arith, s), tt))
]

-- Every mount of the agent's container has its volume, and where the environment names the key file,
-- the directory of the file is mounted.
pub key_file_is_mounted :
    (itoa : ℕ → String) (cr : OpenShiftPulse) (info : Option ClusterInfo)
    → All (λ mount. has_volume cr mount ≡ true) (agent_mounts cr)
      × ((not (has_variable "GOOGLE_APPLICATION_CREDENTIALS" (agent_env itoa cr info))
            || any (λ m. m.mount_path == "/var/secrets/google") (agent_mounts cr))
          ≡ true)
unfolding listed
key_file_is_mounted itoa cr info = (
  mounts_have_volumes cr,
  ground (
    arith,
    in_backend itoa cr info "GOOGLE_APPLICATION_CREDENTIALS" refl refl refl,
    file_variable itoa cr info,
  ),
)
