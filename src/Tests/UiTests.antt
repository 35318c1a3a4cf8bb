-- ===== src/Tests/UiTests.antt =====
-- Witnesses for the UI's OAuthClient.
use pulse_operator.Prelude.{String, true, Option, none, some, [], ◌∷◌, ◌≢◌, ◌≡◌, refl}
use pulse_operator.Cluster.{Error, found, not_found, is_not_found, status_not_found}
use pulse_operator.Ui.Route.{
  Route, Answers, reconcile_ui_route, correct_route, await_host, has_drifted, is_target,
  reconcile_oauth_client,
}
use pulse_operator.Ui.Sequence.{reconcile_ui, first_error, finish_ui}
use pulse_operator.Ui.SequenceLaws.{Finished, oauth_client_follows_route}
use pulse_operator.Tests.Sample.{host}

-- A Route whose target was changed, with a certificate of an administrator.
abbrev changed : Route
changed = record {
  target = none;
  target_port = some 8443;
  tls = ("termination", "edge") ∷ ("certificate", "PEM") ∷ [];
  host = "pulse.apps.example.com";
}

abbrev writable : Answers
writable = record { read_error = none; owner_error = none; write_error = none }

abbrev all_fine : String → Option Error
all_fine step = none

oauth_client_follows_route_example :
    (route : Route) × (◌≡◌ {A = Option Route} (some changed) (some route))
    × (route.host ≢ "")
    × Finished route.host
        (found "s3cret")
        true
        (reconcile_ui all_fine
          (reconcile_ui_route host "pulse-openshiftpulse" writable (some changed))
          (found "s3cret")
          (some not_found)
          none
          true
          none).status
        (reconcile_ui all_fine
          (reconcile_ui_route host "pulse-openshiftpulse" writable (some changed))
          (found "s3cret")
          (some not_found)
          none
          true
          none).client
unfolding reconcile_ui first_error finish_ui reconcile_ui_route correct_route await_host has_drifted
    is_target reconcile_oauth_client is_not_found status_not_found
oauth_client_follows_route_example =
    oauth_client_follows_route host "pulse-openshiftpulse" writable (some changed) all_fine
      (found "s3cret") (some not_found) none true none refl refl
