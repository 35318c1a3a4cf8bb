-- ===== src/Ui/Nginx.antt =====
-- reconcileUINginxConfigMap: the configuration of nginx in the UI's pods, with its two listeners, and
-- the Secret that holds it.
use Prim.Native.String.{◌++◌}
use pulse_operator.Prelude.{
  String, Bool, false, Option, none, some, List, [], ◌∷◌, Dict, text_at, if◌then◌else◌,
}
use pulse_operator.Api.{OpenShiftPulse}
use pulse_operator.Host.{Host}
use pulse_operator.Features.{render_enabled}
use pulse_operator.Names.{agent_resource_name}
use pulse_operator.Cluster.{Error, wrap, is_not_found, Got, found, failed}
use pulse_operator.Image.Tag.{take}
use pulse_operator.Upsert.{UpsertAnswers, create_or_update}
use pulse_operator.HelmRunner.{resolve_helm_runner, set_helm_runner_condition, ui_runtime_config_js}

-- Lines, each with its line break.
unfoldable pub text_of : List String → String
text_of [] = ""
text_of (line ∷ rest) = line ++ ("\n" ++ text_of rest)

-- Shared by the two listeners.
unfoldable pub ui_nginx_headers : String
ui_nginx_headers = text_of (
    "    add_header X-Frame-Options \"DENY\" always;"
    ∷ "    add_header X-Content-Type-Options \"nosniff\" always;"
    ∷ "    add_header Strict-Transport-Security \"max-age=31536000; includeSubDomains\" always;"
    ∷ "    add_header Referrer-Policy \"strict-origin-when-cross-origin\" always;" ∷ [])

-- The proxies that authenticate the logged-in user's own token.
unfoldable pub ui_nginx_user_auth_proxies : String
ui_nginx_user_auth_proxies = text_of (
    "    # Kubernetes API proxy — UI reads cluster resources directly." ∷ "    #"
    ∷ "    # proxy_set_header Origin below is load-bearing, not cosmetic: the"
    ∷ "    # frontend watches resources (pods, deployments, etc.) over a raw"
    ∷ "    # WebSocket-upgraded connection to kube-apiserver's own watch endpoint"
    ∷ "    # (?watch=1), and kube-apiserver's WebSocket watch handler rejects the"
    ∷ "    # upgrade with a bare 403 (no body) unless it sees a same-origin-looking"
    ∷ "    # Origin header — its own CSRF guard, since a WS handshake bypasses"
    ∷ "    # normal CORS preflight. nginx forwards unset headers through by"
    ∷ "    # default, so this \"worked\" implicitly before too, but only as long as"
    ∷ "    # nothing between the browser and here (Route, oauth-proxy) ever drops"
    ∷ "    # or rewrites Origin — pinning it explicitly here removes that"
    ∷ "    # assumption and documents why it must never be removed."
    ∷ "    location /api/kubernetes/ {" ∷ "      proxy_pass https://kubernetes.default.svc/;"
    ∷ "      proxy_ssl_verify on;"
    ∷ "      proxy_ssl_trusted_certificate /var/run/secrets/kubernetes.io/serviceaccount/ca.crt;"
    ∷ "      proxy_set_header Authorization \"Bearer $http_x_forwarded_access_token\";"
    ∷ "      proxy_set_header Origin $http_origin;"
    ∷ "      proxy_set_header Upgrade $http_upgrade;"
    ∷ "      proxy_set_header Connection $connection_upgrade;" ∷ "      proxy_http_version 1.1;"
    ∷ "      proxy_read_timeout 3600s;" ∷ "    }" ∷ ""
    ∷ "    # Thanos-querier proxy — UI's CPU/memory/alert charts query PromQL"
    ∷ "    # directly against the cluster's own Prometheus/Thanos stack. Forwards"
    ∷ "    # the same OAuth access token as the Kubernetes API proxy above; reading"
    ∷ "    # this endpoint requires the logged-in user to hold (or be bound to) the"
    ∷ "    # cluster-monitoring-view ClusterRole, same as the OpenShift console's"
    ∷ "    # own monitoring dashboards. proxy_ssl_trusted_certificate points at the"
    ∷ "    # service-ca bundle (not the SA token's ca.crt, which only verifies the"
    ∷ "    # kube-apiserver's own certificate, not service-ca-operator-issued ones"
    ∷ "    # like thanos-querier's) — see reconcileUIServiceCABundle."
    ∷ "    location /api/prometheus/ {"
    ∷ "      proxy_pass https://thanos-querier.openshift-monitoring.svc:9091/;"
    ∷ "      proxy_ssl_verify on;"
    ∷ "      proxy_ssl_trusted_certificate /etc/pki/service-ca/service-ca.crt;"
    ∷ "      proxy_set_header Authorization \"Bearer $http_x_forwarded_access_token\";"
    ∷ "      proxy_read_timeout 60s;" ∷ "    }" ∷ ""
    ∷ "    # Alertmanager proxy — UI's Alerts view reads firing alerts/rules via"
    ∷ "    # /api/prometheus/ above, but silences (list/create/expire) are an"
    ∷ "    # Alertmanager-only API with no Thanos equivalent. Without this location"
    ∷ "    # /api/alertmanager/* fell through to the SPA catch-all below, silently"
    ∷ "    # returning index.html (200, text/html) instead of proxying anywhere —"
    ∷ "    # the UI correctly treated the non-JSON response as \"backend down\", but"
    ∷ "    # the real cause was a missing proxy, not a misconfigured/absent"
    ∷ "    # Prometheus. Same serving-ca bundle as Thanos (both are signed by the"
    ∷ "    # cluster's own service-ca). Reading/writing this endpoint requires the"
    ∷ "    # logged-in user to hold (or be bound to) monitoring-alertmanager-view"
    ∷ "    # (read) or monitoring-alertmanager-edit (read+write silences) in the"
    ∷ "    # openshift-monitoring project — see that Service's own"
    ∷ "    # openshift.io/description annotation." ∷ "    location /api/alertmanager/ {"
    ∷ "      proxy_pass https://alertmanager-main.openshift-monitoring.svc:9094/;"
    ∷ "      proxy_ssl_verify on;"
    ∷ "      proxy_ssl_trusted_certificate /etc/pki/service-ca/service-ca.crt;"
    ∷ "      proxy_set_header Authorization \"Bearer $http_x_forwarded_access_token\";"
    ∷ "      proxy_read_timeout 60s;" ∷ "    }" ∷ "" ∷ [])

-- The static files; the argument is the body of /config.js.
unfoldable pub ui_nginx_static : String → String
ui_nginx_static config_js = text_of (
    "    # Runtime config served by nginx (no disk file needed)."
    ∷ "    location = /config.js {"
    ∷ "      add_header Content-Type application/javascript;"
    ∷ ("      return 200 '" ++ (config_js ++ "';"))
    ∷ "    }"
    ∷ "    location /healthz { return 200 'OK\\n'; add_header Content-Type text/plain; }"
    ∷ "    location ~* \\.(js|css|png|svg|ico|woff2?|ttf|eot|map)$ {"
    ∷ "      try_files $uri =404;"
    ∷ "      expires 1y;"
    ∷ "      add_header Cache-Control \"public, immutable\";"
    ∷ "    }"
    ∷ "    location / { try_files $uri $uri/ /index.html; }"
    ∷ [])

-- The listener of the render service, which carries no credential of the agent.
unfoldable pub render_listener : String → String
render_listener static =
    text_of (
      "  server {" ∷ "    listen 8081;" ∷ "    server_name _;" ∷ "    root /opt/app-root/src;"
      ∷ "    index index.html;" ∷ "" ∷ [])
    ++ (ui_nginx_headers
        ++ ("\n"
            ++ (ui_nginx_user_auth_proxies
                ++ (text_of ("    location /api/agent/ { return 404; }" ∷ "" ∷ [])
                    ++ (static ++ text_of ("  }" ∷ []))))))

-- The configuration; `agent` is the name of the agent's Service, `token` the shared token.
unfoldable pub nginx_conf : String → String → String → String → String
nginx_conf agent token static render_server =
    text_of (
      "worker_processes auto;" ∷ "error_log /dev/stderr warn;" ∷ "pid /tmp/nginx.pid;"
      ∷ "events { worker_connections 1024; }" ∷ "http {" ∷ "  include /etc/nginx/mime.types;"
      ∷ "  default_type application/octet-stream;" ∷ "  access_log /dev/stdout;" ∷ "  sendfile on;"
      ∷ "  keepalive_timeout 65;" ∷ "  client_body_temp_path /tmp/client_temp;"
      ∷ "  proxy_temp_path /tmp/proxy_temp;" ∷ "  fastcgi_temp_path /tmp/fastcgi_temp;"
      ∷ "  uwsgi_temp_path /tmp/uwsgi_temp;" ∷ "  scgi_temp_path /tmp/scgi_temp;"
      ∷ "  map $http_upgrade $connection_upgrade {" ∷ "    default upgrade;" ∷ "    '' close;"
      ∷ "  }" ∷ "  server {" ∷ "    listen 8080;" ∷ "    server_name _;"
      ∷ "    root /opt/app-root/src;" ∷ "    index index.html;" ∷ "" ∷ [])
    ++ (ui_nginx_headers
        ++ ("\n"
            ++ (ui_nginx_user_auth_proxies
                ++ (text_of (
                      "    # X-Forwarded-User is cleared on both agent routes. oauth-proxy runs"
                      ∷ "    # without --pass-user-headers, so a value here can only have come from the"
                      ∷ "    # browser, and the agent trusts it ahead of TokenReview: anyone signed in"
                      ∷ "    # could claim to be an admin. The agent resolves the caller from"
                      ∷ "    # X-Forwarded-Access-Token, which oauth-proxy does set."
                      ∷ "    # Agent WebSocket — appends the shared token as a query param."
                      ∷ "    # SECURITY NOTE: unlike the REST proxy below (Authorization: Bearer header),"
                      ∷ "    # this passes the token via the upstream URL, which risks it appearing in"
                      ∷ "    # the agent's own request logs. It is NOT switched to a header here because"
                      ∷ "    # the agent's WebSocket handler (github.com/PulseSRE/pulse-agent, a separate"
                      ∷ "    # repo) is what actually authenticates the connection — changing the wire"
                      ∷ "    # format on this side alone, without confirming the handler reads a header"
                      ∷ "    # too, would silently break every WebSocket connection. Coordinate a"
                      ∷ "    # protocol change with pulse-agent before changing this."
                      ∷ "    location ~ ^/api/agent/ws/(sre|security|monitor|agent)$ {"
                      ∷ ("      proxy_pass http://"
                          ++ (agent ++ (":8080/ws/$1?token=" ++ (token ++ ";"))))
                      ∷ "      proxy_set_header Upgrade $http_upgrade;"
                      ∷ "      proxy_set_header Connection $connection_upgrade;"
                      ∷ "      proxy_set_header X-Forwarded-Access-Token $http_x_forwarded_access_token;"
                      ∷ "      proxy_set_header X-Forwarded-User \"\";"
                      ∷ "      proxy_http_version 1.1;"
                      ∷ "      proxy_read_timeout 3600s;"
                      ∷ "    }"
                      ∷ ""
                      ∷ "    # Agent REST API (inbox, views, briefing, metrics, etc.)."
                      ∷ "    location /api/agent/ {"
                      ∷ ("      proxy_pass http://" ++ (agent ++ ":8080/;"))
                      ∷ ("      proxy_set_header Authorization \"Bearer " ++ (token ++ "\";"))
                      ∷ "      proxy_set_header X-Forwarded-Access-Token $http_x_forwarded_access_token;"
                      ∷ "      proxy_set_header X-Forwarded-User \"\";"
                      ∷ "      proxy_read_timeout 60s;"
                      ∷ "    }"
                      ∷ ""
                      ∷ [])
                    ++ (static ++ (text_of ("  }" ∷ []) ++ (render_server ++ "}\n")))))))

-- The shared token, as the agent's Secret gives it; empty when the read fails.
unfoldable pub ws_token : Got (Dict String) → String
ws_token (failed e) = ""
ws_token (found keys) = text_at "token" keys

-- The answers: to the read of the token's Secret, to the write of the configuration's, and the error
-- of the delete of the ConfigMap that an older version left.
pub record NginxAnswers : Type 0 where
  pub token : Got (Dict String)
  pub write : UpsertAnswers
  pub delete_error : Option Error

-- The hash for the pod template, the error, the keys of the Secret, whether the old ConfigMap is
-- there, and the CR with its condition.
pub record NginxPass : Type 0 where
  pub hash : String
  pub error : Option Error
  pub secret : Option (Dict String)
  pub stale : Bool
  pub cr : OpenShiftPulse

-- The end of the pass, once the Secret is written.
unfoldable pub remove_stale_config_map : Option Error → Bool → Option Error × Bool
remove_stale_config_map none stale = (none, false)
remove_stale_config_map (some e) stale =
    if is_not_found e then (none, false) else (some (wrap "delete stale nginx ConfigMap" e), stale)

-- A failed write ends the pass; `stale` says whether the old ConfigMap is there.
unfoldable pub after_write : Option Error → Bool → Option Error × Bool → Option Error × Bool
after_write (some e) stale removed = (some e, stale)
after_write none stale removed = removed

-- `quote` is %q, `marshal` json.Marshal of the configuration with a runner image, and `sha256` the
-- digest of a text in hexadecimal digits.
module _ (host : Host) (quote : String → String) (marshal : String → Option String)
    (sha256 : String → String) where
  unfoldable pub wanted_conf : String → OpenShiftPulse → String
  unfolding nginx_conf render_listener ui_nginx_static
  wanted_conf token pulse =
      let runner = resolve_helm_runner host.getenv quote pulse in
      let static = ui_nginx_static (ui_runtime_config_js marshal runner) in
      nginx_conf (agent_resource_name pulse.meta.name) token static
        (if render_enabled pulse then render_listener static else "")

  unfoldable pub reconcile_ui_nginx_config_map :
      NginxAnswers → OpenShiftPulse → Option (Dict String) → Bool → NginxPass
  unfolding wanted_conf ws_token remove_stale_config_map after_write
  reconcile_ui_nginx_config_map answers pulse secret stale =
      let conf = wanted_conf (ws_token answers.token) pulse in
      let written = create_or_update answers.write [] (λ old. ("nginx.conf", conf) ∷ []) secret in
      let cr = set_helm_runner_condition host pulse (resolve_helm_runner host.getenv quote pulse) in
      let removed = remove_stale_config_map answers.delete_error stale in
      let ended = after_write written.0 stale removed in
      record {
        hash = take 8 (sha256 conf);
        error = ended.0;
        secret = written.1;
        stale = ended.1;
        cr = cr;
      }
