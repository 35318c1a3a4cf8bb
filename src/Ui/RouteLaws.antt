-- ===== src/Ui/RouteLaws.antt =====
-- What a pass makes of a Route that something else has changed.
use pulse_operator.Prelude.{
  String, false, none, some, List, [], Dict, lookup, insert, lookup-insert, text_at, ◌≡◌, ◌≢◌, refl,
  ◌∙◌, arith, eq_iff, eq_refl, Option-cases, Bool-cases, inl, inr,
}
use pulse_operator.Host.{Host, Event}
use pulse_operator.Ui.Route.{
  Route, Answers, is_target, is_port, tls_drifted, has_drifted, want_tls, corrected, await_host,
  correct_route, reconcile_ui_route,
}

want_tls-kept :
    (key : String) (tls : Dict String)
    → key ≢ "termination"
    → key ≢ "insecureEdgeTerminationPolicy"
    → lookup key (want_tls tls) ≡ lookup key tls
unfolding want_tls
want_tls-kept key tls a b =
    lookup-insert "insecureEdgeTerminationPolicy" key "Redirect"
      (insert "termination" "reencrypt" tls)
    ∙ ground (
      arith,
      a,
      b,
      eq_iff "insecureEdgeTerminationPolicy" key,
      eq_iff "termination" key,
      lookup-insert "termination" key "reencrypt" tls,
    )

want_tls-termination : (tls : Dict String) → text_at "termination" (want_tls tls) ≡ "reencrypt"
unfolding text_at want_tls
want_tls-termination tls =
    rw
      (
        lookup-insert "insecureEdgeTerminationPolicy" "termination" "Redirect"
            (insert "termination" "reencrypt" tls),
        lookup-insert "termination" "termination" "reencrypt" tls,
        text_at,
      )
      refl

want_tls-policy :
    (tls : Dict String) → text_at "insecureEdgeTerminationPolicy" (want_tls tls) ≡ "Redirect"
unfolding text_at want_tls
want_tls-policy tls =
    rw
      (
        lookup-insert "insecureEdgeTerminationPolicy" "insecureEdgeTerminationPolicy" "Redirect"
            (insert "termination" "reencrypt" tls),
        text_at,
      )
      refl

want_tls-settled : (tls : Dict String) → tls_drifted (want_tls tls) ≡ false
unfolding tls_drifted
want_tls-settled tls = rw (want_tls-termination tls, want_tls-policy tls) refl

corrected_is_right :
    (name : String) (route : Route) → has_drifted name (corrected name route) ≡ false
unfolding has_drifted corrected is_target is_port
corrected_is_right name route = ground (arith, eq_refl name, want_tls-settled route.tls)

-- What a repair must leave of a Route: its host, and a key of spec.tls.
abbrev pub Repaired : String → String → Route → Route → Type 0
Repaired name key before after =
    (has_drifted name after ≡ false)
    × (after.host ≡ before.host)
    × (lookup key after.tls ≡ lookup key before.tls)

await_host-stored :
    (route : Route) (events : List Event) → (await_host route events).stored ≡ some route
unfolding await_host
await_host-stored route events = ground arith

-- A pass over a Route that ends without an error leaves its target, its port and the two managed keys
-- of its TLS settings as they should be, whatever they were, and keeps its host and every other key
-- of the settings.
pub route_drift_is_undone :
    (host : Host) (name : String) (answers : Answers) (route : Route) (key : String)
    → answers.read_error ≡ none
    → (reconcile_ui_route host name answers (some route)).error ≡ none
    → key ≢ "termination"
    → key ≢ "insecureEdgeTerminationPolicy"
    → (after : Route) × ((reconcile_ui_route host name answers (some route)).stored ≡ some after)
      × Repaired name key route after
unfolding reconcile_ui_route correct_route
route_drift_is_undone host name answers route key readable fine a b =
    elim (Bool-cases (has_drifted name route)) [
      | inr n ↦ (route, ground (arith, readable, n, await_host-stored route []), (n, refl, refl))
      | inl y ↦ elim (Option-cases answers.write_error) [
        | inr (e, w) ↦ absurd (ground (arith, readable, y, w, fine))
        | inl w ↦ (
          corrected name route,
          ground (arith, readable, y, w, await_host-stored (corrected name route)),
          (corrected_is_right name route, refl, want_tls-kept key route.tls a b),
        )
      ]
    ]
