-- ===== src/Ui/Sequence.antt =====
-- reconcileUI: the order of the UI's steps. What the steps before the Route answer is an argument.
use Prim.Native.String.{◌++◌}
use pulse_operator.Prelude.{
  ℕ, String, Bool, ltb, Option, none, some, List, [], ◌∷◌, if◌then◌else◌, Dict, text_at,
}
use pulse_operator.Api.{OpenShiftPulse}
use pulse_operator.Cluster.{Error, wrap, is_not_found, Got, found, failed}
use pulse_operator.Ui.Route.{OauthClient, Outcome, reconcile_oauth_client}

-- The steps before the Route, in order.
abbrev pub ui_steps : List String
ui_steps =
    "ServiceAccount" ∷ "ClusterRole" ∷ "ClusterRoleBinding" ∷ "AuthDelegatorBinding"
    ∷ "OAuthSecrets" ∷ "ServiceCABundle" ∷ "Service" ∷ "NginxConfigMap" ∷ "Deployment" ∷ []

-- The first error of the steps, under the step's name.
unfoldable pub first_error : (String → Option Error) → List String → Option Error
first_error answer [] = none
first_error answer (step ∷ rest) =
    let later = first_error answer rest in
    elim (answer step) [ none ↦ later | some e ↦ some (wrap ("UI/" ++ step) e) ]

-- What the pass answers: the requeue and the error; the two status fields (none where they are left
-- as they were), and the OAuthClient afterwards.
pub record UiPass : Type 0 where
  pub requeue_after : ℕ
  pub error : Option Error
  pub status : Option (String × Bool)
  pub client : Option OauthClient

-- `client_secret` is what the Secret holds; `read_error` and `write_error` are on the OAuthClient;
-- `is_ready` says that a replica of the UI is ready.
unfoldable pub finish_ui :
    String → Got String → Option Error → Option Error → Bool → Option OauthClient → UiPass
finish_ui route_host client_secret read_error write_error is_ready client = elim client_secret [
  | failed e ↦ record {
    requeue_after = 0;
    error = some (wrap "UI/getOAuthClientSecret" e);
    status = none;
    client = client;
  }
  | found secret ↦
      let written = reconcile_oauth_client read_error write_error route_host secret client in
      elim written.0 [
        | some e ↦ record {
          requeue_after = 0;
          error = some (wrap "UI/OAuthClient" e);
          status = none;
          client = written.1;
        }
        | none ↦ record {
          requeue_after = 0;
          error = none;
          status = some (route_host, is_ready);
          client = written.1;
        }
      ]
]

unfoldable pub reconcile_ui :
    (String → Option Error)
    → Outcome
    → Got String
    → Option Error
    → Option Error
    → Bool
    → Option OauthClient
    → UiPass
unfolding first_error finish_ui
reconcile_ui answer route client_secret read_error write_error is_ready client =
    elim (first_error answer ui_steps) [
      | some e ↦ record { requeue_after = 0; error = some e; status = none; client = client }
      | none ↦ elim route.error [
        | some e ↦ record {
          requeue_after = 0;
          error = some (wrap "UI/Route" e);
          status = none;
          client = client;
        }
        | none ↦
            if ltb 0 route.requeue_after
            then record {
              requeue_after = route.requeue_after;
              error = none;
              status = none;
              client = client;
            }
            else finish_ui route.host client_secret read_error write_error is_ready client
      ]
    ]

-- getOAuthClientSecret, from the read of the Secret.
unfoldable pub get_oauth_client_secret : Got (Dict String) → Got String
get_oauth_client_secret (failed e) = failed e
get_oauth_client_secret (found keys) = found (text_at "client-secret" keys)

-- UIReconciler.Reconcile: the read of the CR, the pass, and the write of the status; the requeue and
-- the error.
unfoldable pub ui_request : Got OpenShiftPulse → UiPass → Option Error → ℕ × Option Error
ui_request (failed e) pass status_error = if is_not_found e then (0, none) else (0, some e)
ui_request (found cr) pass status_error = elim pass.error [
  | some e ↦ (0, some e)
  | none ↦ elim status_error [ some e ↦ (0, some e) | none ↦ (pass.requeue_after, none) ]
]
