-- ===== src/Ui/SequenceLaws.antt =====
-- What a finished UI pass has made of the OAuthClient.
use Prim.Native.String.{◌++◌}
use pulse_operator.Prelude.{
  String, Bool, Option, none, some, List, [], ◌∷◌, ◌≡◌, ◌≢◌, refl, sym, ap, ◌∙◌, arith, eq_iff, inl,
  inr,
}
use mathlib.Core.Path.{subst}
use pulse_operator.Host.{Host, Event, normal, record_event}
use pulse_operator.Cluster.{Error, Got, found, Got-cases}
use pulse_operator.Ui.Route.{
  Route, Answers, OauthClient, Outcome, corrected, await_host, create_route, correct_route,
  reconcile_ui_route, reconcile_oauth_client,
}
use pulse_operator.Ui.Sequence.{finish_ui, reconcile_ui}

-- The host is the Route's where no requeue is asked for.
await_host-known :
    (route : Route) (events : List Event)
    → (await_host route events).requeue_after ≡ 0
    → ((await_host route events).host ≡ route.host) × (route.host ≢ "")
unfolding await_host
await_host-known route events now =
    (ground (arith, now), λ empty. ground (arith, eq_iff route.host "", now, empty))

correct_route-known :
    (host : Host) (name : String) (answers : Answers) (route : Route)
    → (correct_route host name answers route).error ≡ none
    → (correct_route host name answers route).requeue_after ≡ 0
    → ((correct_route host name answers route).host ≡ route.host) × (route.host ≢ "")
unfolding correct_route corrected
correct_route-known host name answers route fine now = ground (
  arith,
  fine,
  now,
  await_host-known route [],
  await_host-known (corrected name route) (record_event host normal "SelfHealed" []),
)

create_route-waits :
    (name : String) (answers : Answers) (stored : Option Route)
    → (create_route name answers stored).error ≡ none
    → (create_route name answers stored).requeue_after ≡ 5
unfolding create_route
create_route-waits name answers stored fine = ground (arith, fine)

-- A Route pass that neither fails nor waits found a Route, and answers its host, which is known.
host_is_known :
    (host : Host) (name : String) (answers : Answers) (stored : Option Route)
    → (reconcile_ui_route host name answers stored).error ≡ none
    → (reconcile_ui_route host name answers stored).requeue_after ≡ 0
    → (route : Route) × (stored ≡ some route)
      × ((reconcile_ui_route host name answers stored).host ≡ route.host)
      × (route.host ≢ "")
unfolding reconcile_ui_route
host_is_known host name answers none fine now =
    absurd (ground (arith, fine, now, create_route-waits name answers none))
host_is_known host name answers (some route) fine now =
    let known : ((reconcile_ui_route host name answers (some route)).host ≡ route.host)
        × (route.host ≢ "") =
      ground (
        arith,
        fine,
        now,
        create_route-waits name answers (some route),
        correct_route-known host name answers route,
      ) in
    (route, refl, known.0, known.1)

-- What a finished pass has done.
abbrev pub Finished :
    String → Got String → Bool → Option (String × Bool) → Option OauthClient → Type 0
Finished route_host client_secret is_ready status client =
    (secret : String) × (client_secret ≡ found secret)
    × (status ≡ some (route_host, is_ready))
    × (client
        ≡ some (record {
          secret = secret;
          redirect_uris = ("https://" ++ route_host) ∷ [];
          grant_method = "prompt";
        }))

finish_ui-Finished :
    (route_host : String) (client_secret : Got String) (read_error write_error : Option Error)
    (is_ready : Bool) (client : Option OauthClient)
    → (finish_ui route_host client_secret read_error write_error is_ready client).error ≡ none
    → Finished route_host client_secret is_ready
        (finish_ui route_host client_secret read_error write_error is_ready client).status
        (finish_ui route_host client_secret read_error write_error is_ready client).client
unfolding finish_ui reconcile_oauth_client
finish_ui-Finished route_host client_secret read_error write_error is_ready client fine =
    elim (Got-cases client_secret) [
      | inl (e, c) ↦ absurd (ground (arith, c, fine))
      | inr (secret, c) ↦ (secret, c, ground (arith, c, fine), ground (arith, c, fine))
    ]

past_the_route :
    (answer : String → Option Error) (route : Outcome) (client_secret : Got String)
    (read_error write_error : Option Error) (is_ready : Bool) (client : Option OauthClient)
    → (reconcile_ui answer route client_secret read_error write_error is_ready client).error ≡ none
    → (reconcile_ui answer route client_secret read_error write_error is_ready client).requeue_after
      ≡ 0
    → (route.error ≡ none)
      × (route.requeue_after ≡ 0)
      × (reconcile_ui answer route client_secret read_error write_error is_ready client
          ≡ finish_ui route.host client_secret read_error write_error is_ready client)
unfolding reconcile_ui
past_the_route answer route client_secret read_error write_error is_ready client fine now =
    (ground (arith, fine, now), ground (arith, fine, now), ground (arith, fine, now))

-- A UI pass that ends without an error and without a requeue found a Route with a host, and has
-- written an OAuthClient that sends logins back to that Route's host alone, over https, with the
-- secret of the UI's own Secret and the consent prompt on; the same host is the one in the status.
pub oauth_client_follows_route :
    (host : Host) (name : String) (answers : Answers) (stored : Option Route)
    (answer : String → Option Error) (client_secret : Got String)
    (read_error write_error : Option Error) (is_ready : Bool) (client : Option OauthClient)
    → (reconcile_ui answer
        (reconcile_ui_route host name answers stored)
        client_secret
        read_error
        write_error
        is_ready
        client).error
      ≡ none
    → (reconcile_ui answer
        (reconcile_ui_route host name answers stored)
        client_secret
        read_error
        write_error
        is_ready
        client).requeue_after
      ≡ 0
    → (route : Route) × (stored ≡ some route)
      × (route.host ≢ "")
      × Finished route.host client_secret is_ready
          (reconcile_ui answer
            (reconcile_ui_route host name answers stored)
            client_secret
            read_error
            write_error
            is_ready
            client).status
          (reconcile_ui answer
            (reconcile_ui_route host name answers stored)
            client_secret
            read_error
            write_error
            is_ready
            client).client
oauth_client_follows_route host name answers stored answer client_secret read_error write_error
      is_ready client fine now =
    let outcome = reconcile_ui_route host name answers stored in
    let (a, b, c) =
      past_the_route answer outcome client_secret read_error write_error is_ready client fine now in
    let (route, there, same, known) = host_is_known host name answers stored a b in
    let finished =
      finish_ui-Finished outcome.host client_secret read_error write_error is_ready client
        (ap (λ p. p.error) (sym c) ∙ fine) in
    (
      route,
      there,
      known,
      subst
          (λ h.
            Finished h client_secret is_ready
              (reconcile_ui answer outcome client_secret read_error write_error is_ready
                client).status
              (reconcile_ui answer outcome client_secret read_error write_error is_ready
                client).client)
          same (rw c finished),
    )
