-- ===== src/Ui/Route.antt =====
-- reconcileUIRoute and reconcileOAuthClient.
use Prim.Native.String.{◌++◌}
use pulse_operator.Prelude.{
  ℕ, String, Bool, false, not, ◌&&◌, ◌||◌, eqb, Option, none, some, List, [], ◌∷◌, Dict, insert,
  text_at, ◌==◌, if◌then◌else◌,
}
use pulse_operator.Host.{Host, Event, normal, record_event}
use pulse_operator.Cluster.{Error, wrap, is_not_found}

-- spec.to with the three keys that the operator writes.
pub record RouteTarget : Type 0 where
  pub kind : String
  pub name : String
  pub weight : ℕ

-- A Route: `target` and `target_port` are none where the field is missing or has another form, `host`
-- is empty until the router admits the Route.
pub record Route : Type 0 where
  pub target : Option RouteTarget
  pub target_port : Option ℕ
  pub tls : Dict String
  pub host : String

-- The errors of the read (without one it finds the Route that there is), of setting the controller
-- reference and of the write.
pub record Answers : Type 0 where
  pub read_error : Option Error
  pub owner_error : Option Error
  pub write_error : Option Error

pub record Outcome : Type 0 where
  pub stored : Option Route
  pub host : String
  pub requeue_after : ℕ
  pub error : Option Error
  pub events : List Event

abbrev want_target : String → RouteTarget
want_target name = record { kind = "Service"; name = name; weight = 100 }

unfoldable pub is_target : String → Option RouteTarget → Bool
is_target name none = false
is_target name (some t) = t.kind == "Service" && (t.name == name && eqb t.weight 100)

unfoldable pub is_port : Option ℕ → Bool
is_port none = false
is_port (some p) = eqb p 8443

-- The two keys of spec.tls that the operator manages.
unfoldable pub tls_drifted : Dict String → Bool
tls_drifted tls =
    not (text_at "termination" tls == "reencrypt")
    || not (text_at "insecureEdgeTerminationPolicy" tls == "Redirect")

unfoldable pub has_drifted : String → Route → Bool
unfolding is_target is_port tls_drifted
has_drifted name route =
    not (is_target name route.target) || (not (is_port route.target_port) || tls_drifted route.tls)

unfoldable pub want_tls : Dict String → Dict String
want_tls tls =
    insert "insecureEdgeTerminationPolicy" "Redirect" (insert "termination" "reencrypt" tls)

unfoldable pub corrected : String → Route → Route
unfolding want_tls
corrected name route = record route {
  target = some (want_target name);
  target_port = some 8443;
  tls = want_tls route.tls;
}

abbrev failing : Option Route → Error → Outcome
failing stored e = record {
  stored = stored;
  host = "";
  requeue_after = 0;
  error = some e;
  events = [];
}

-- The hostname, or a requeue until there is one.
unfoldable pub await_host : Route → List Event → Outcome
await_host route events =
    if route.host == ""
    then record { stored = some route; host = ""; requeue_after = 5; error = none; events = events }
    else record {
      stored = some route;
      host = route.host;
      requeue_after = 0;
      error = none;
      events = events;
    }

unfoldable pub create_route : String → Answers → Option Route → Outcome
create_route name answers stored = elim answers.owner_error [
  | some e ↦ failing stored (wrap "set owner on route" e)
  | none ↦ elim answers.write_error [
    | some e ↦ failing stored e
    | none ↦ record {
      stored = some (record {
        target = some (want_target name);
        target_port = some 8443;
        tls = ("termination", "reencrypt") ∷ ("insecureEdgeTerminationPolicy", "Redirect") ∷ [];
        host = "";
      });
      host = "";
      requeue_after = 5;
      error = none;
      events = [];
    }
  ]
]

unfoldable pub correct_route : Host → String → Answers → Route → Outcome
unfolding has_drifted corrected await_host
correct_route host name answers route =
    if has_drifted name route
    then elim answers.write_error [
      | some e ↦ failing (some route) (wrap "correct route drift" e)
      | none ↦ await_host (corrected name route) (record_event host normal "SelfHealed" [])
    ]
    else await_host route []

unfoldable pub reconcile_ui_route : Host → String → Answers → Option Route → Outcome
unfolding create_route correct_route
reconcile_ui_route host name answers stored = elim answers.read_error [
  | some e ↦ if is_not_found e then create_route name answers stored else failing stored e
  | none ↦ elim stored [
    | none ↦ create_route name answers none
    | some route ↦ correct_route host name answers route
  ]
]

-- An OAuthClient: the fields that the operator writes. The others are left alone.
pub record OauthClient : Type 0 where
  pub secret : String
  pub redirect_uris : List String
  pub grant_method : String

-- The error, and the OAuthClient afterwards. The object on the server is created with the fields, or
-- has them overwritten.
unfoldable pub reconcile_oauth_client :
    Option Error
    → Option Error
    → String
    → String
    → Option OauthClient
    → Option Error × Option OauthClient
reconcile_oauth_client read_error write_error route_host client_secret stored =
    let wanted : OauthClient = record {
      secret = client_secret;
      redirect_uris = ("https://" ++ route_host) ∷ [];
      grant_method = "prompt";
    } in
    let written : Option Error × Option OauthClient = elim write_error [
      | some e ↦ (some e, stored)
      | none ↦ (none, some wanted)
    ] in
    elim read_error [
      | none ↦ written
      | some e ↦ if is_not_found e then written else (some e, stored)
    ]
