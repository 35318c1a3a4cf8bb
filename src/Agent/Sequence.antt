-- ===== src/Agent/Sequence.antt =====
-- reconcileAgent (openshiftpulse_controller.go): the order of the agent's steps; and the two objects
-- of agent_reconciler.go that are created once and never changed, the token Secret
-- (reconcileWSTokenSecret) and the volume claim (reconcileMemoryPVC).
use pulse_operator.Prelude.{
  ℕ, String, Bool, true, false, ltb, ◌==◌, Option, none, some, List, [], ◌∷◌, All, if◌then◌else◌,
  ◌≡◌, ◌⊎◌, refl, arith, Option-cases, inl, inr,
}
use pulse_operator.Api.{OpenShiftPulse}
use pulse_operator.Postgres.Hash.{hash_secret_data}
use pulse_operator.Cluster.{Error, wrap, is_not_found, Got, found, failed}

-- What the API answers: the errors of the read (without one it finds the object that there is), of
-- setting the controller reference and of the create.
pub record OnceAnswers : Type 0 where
  pub read_error : Option Error
  pub owner_error : Option Error
  pub create_error : Option Error

-- `wanted` is the object to create, or the error of making it; the result is the error and the object
-- afterwards.
unfoldable pub create_once : {A : Type 0} → OnceAnswers → Got A → Option A → Option Error × Option A
create_once answers wanted stored =
    let created : Option Error × Option _ = elim wanted [
      | failed e ↦ (some e, stored)
      | found object ↦ elim answers.owner_error [
        | some e ↦ (some e, stored)
        | none ↦ elim answers.create_error [
          | some e ↦ (some e, stored)
          | none ↦ (none, some object)
        ]
      ]
    ] in
    elim answers.read_error [
      | some e ↦ if is_not_found e then created else (some e, stored)
      | none ↦ elim stored [ none ↦ created | some object ↦ (none, some object) ]
    ]

-- The shared token of the agent and the UI, under "token".
unfoldable pub reconcile_ws_token_secret :
    OnceAnswers → Got String → Option String → Option Error × Option String
unfolding create_once
reconcile_ws_token_secret answers token stored = create_once answers token stored

-- The size of the memory claim, 1 Gi, in bytes.
unfoldable pub reconcile_memory_pvc : OnceAnswers → Option ℕ → Option Error × Option ℕ
unfolding create_once
reconcile_memory_pvc answers stored = create_once answers (found 1073741824) stored

-- The steps of the loop, in order.
abbrev pub agent_steps : List String
agent_steps =
    "ServiceAccount" ∷ "ClusterRole" ∷ "ClusterRoleBinding" ∷ "MonitoringViewBinding"
    ∷ "WSTokenSecret" ∷ "MemoryPVC" ∷ []

unfoldable pub first_failure : (String → Option Error) → List String → Option Error
first_failure answer [] = none
first_failure answer (step ∷ rest) =
    let later = first_failure answer rest in
    elim (answer step) [ none ↦ later | some e ↦ some (wrap step e) ]

-- Which of the two last steps ran, the requeue and the error.
pub record AgentPass : Type 0 where
  pub deployment_ran : Bool
  pub service_ran : Bool
  pub requeue_after : ℕ
  pub error : Option Error

-- `deployment` is the requeue and the error of reconcileDeployment.
unfoldable pub reconcile_agent :
    (String → Option Error) → ℕ × Option Error → Option Error → AgentPass
unfolding first_failure
reconcile_agent answer deployment service_error = elim (first_failure answer agent_steps) [
  | some e ↦ record {
    deployment_ran = false;
    service_ran = false;
    requeue_after = 0;
    error = some e;
  }
  | none ↦ elim deployment.1 [
    | some e ↦ record {
      deployment_ran = true;
      service_ran = false;
      requeue_after = 0;
      error = some (wrap "deployment" e);
    }
    | none ↦
        if ltb 0 deployment.0
        then record {
          deployment_ran = true;
          service_ran = false;
          requeue_after = deployment.0;
          error = none;
        }
        else record {
          deployment_ran = true;
          service_ran = true;
          requeue_after = 0;
          error = elim service_error [ none ↦ none | some e ↦ some (wrap "service" e) ];
        }
  ]
]

-- AgentReconciler.Reconcile: the read of the CR, and the same steps; the requeue and the error.
unfoldable pub agent_request : Got OpenShiftPulse → AgentPass → ℕ × Option Error
agent_request (failed e) pass = if is_not_found e then (0, none) else (0, some e)
agent_request (found cr) pass = (pass.requeue_after, pass.error)

-- The hash of the database's URL, which restarts the agent when the credentials change.
unfoldable pub db_credential_hash : (String → String) → String → String
db_credential_hash sha256 url =
    if url == "" then "" else hash_secret_data sha256 (("database-url", url) ∷ [])

first_failure-All :
    (answer : String → Option Error) (steps : List String)
    → first_failure answer steps ≡ none
    → All (λ s. answer s ≡ none) steps
unfolding first_failure
first_failure-All answer [] h = tt
first_failure-All answer (step ∷ rest) h = elim (Option-cases (answer step)) [
  | inl n ↦ (n, first_failure-All answer rest (ground (arith, n, h)))
  | inr (e, s) ↦ absurd (ground (arith, s, h))
]

steps_before_deployment :
    (answer : String → Option Error) (deployment : ℕ × Option Error) (service_error : Option Error)
    → (reconcile_agent answer deployment service_error).deployment_ran ≡ true
    → first_failure answer agent_steps ≡ none
unfolding reconcile_agent
steps_before_deployment answer deployment service_error ran = ground (arith, ran)

-- The agent's Deployment is reconciled only after its account, its roles, its token and its volume
-- claim were, each without an error; and its Service only after the Deployment, without an error and
-- a requeue.
pub agent_steps_come_first :
    (answer : String → Option Error) (deployment : ℕ × Option Error) (service_error : Option Error)
    → (reconcile_agent answer deployment service_error).deployment_ran ≡ true
    → All (λ s. answer s ≡ none) agent_steps
      × (((reconcile_agent answer deployment service_error).service_ran ≡ false)
          ⊎ (deployment ≡ (0, none)))
unfolding reconcile_agent
agent_steps_come_first answer deployment service_error ran = (
  first_failure-All answer agent_steps
      (steps_before_deployment answer deployment service_error ran),
  ground (arith, ran),
)

-- A token that there is, and can be read, stays, and so does the volume claim, whatever is generated
-- and whatever the other calls answer.
pub token_never_rotates :
    (answers : OnceAnswers) (generated : Got String) (token : String) (size : ℕ)
    → answers.read_error ≡ none
    → (reconcile_ws_token_secret answers generated (some token) ≡ (none, some token))
      × (reconcile_memory_pvc answers (some size) ≡ (none, some size))
unfolding reconcile_ws_token_secret reconcile_memory_pvc create_once
token_never_rotates answers generated token size readable = (rw readable refl, rw readable refl)
