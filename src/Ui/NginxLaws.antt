-- ===== src/Ui/NginxLaws.antt =====
-- What a pass over the configuration of nginx leaves, and what happens when the token cannot be read.
use pulse_operator.Prelude.{
  String, Bool, false, Option, none, some, [], ◌∷◌, Dict, lookup, ◌≡◌, refl, ap, ◌∙◌, arith,
}
use pulse_operator.Api.{OpenShiftPulse}
use pulse_operator.Host.{Host}
use pulse_operator.Cluster.{Error}
use pulse_operator.Image.Tag.{take}
use pulse_operator.Detection.{ClusterInfo}
use pulse_operator.Upsert.{create_or_update-ok}
use pulse_operator.Pods.Laws.{lookup-keep_restarted_at}
use pulse_operator.Ui.Template.{ui_deployment_spec}
use pulse_operator.Ui.Nginx.{
  after_write, ws_token, NginxAnswers, NginxPass, wanted_conf, remove_stale_config_map,
  reconcile_ui_nginx_config_map,
}

abbrev pub nginx_hash_annotation : String
nginx_hash_annotation = "pulse.ai/nginx-config-hash"

after_write-ok :
    (written error : Option Error) (stale : Bool)
    → (after_write written stale (remove_stale_config_map error stale)).0 ≡ none
    → (written ≡ none)
      × ((after_write written stale (remove_stale_config_map error stale)).1 ≡ false)
unfolding after_write remove_stale_config_map
after_write-ok (some e) error stale h = absurd (ground (arith, h))
after_write-ok none none stale h = (refl, refl)
after_write-ok none (some e) stale h = (refl, ground (arith, h))

module _ (host : Host) (quote : String → String) (marshal : String → Option String)
    (sha256 : String → String) where
  abbrev pass : NginxAnswers → OpenShiftPulse → Option (Dict String) → Bool → NginxPass
  pass = reconcile_ui_nginx_config_map host quote marshal sha256

  -- A pass without an error leaves exactly the configuration with the token that the agent's Secret
  -- gives, an empty one where it cannot be read, and no ConfigMap of the old kind; the pod template
  -- of the UI that is made with the pass's hash carries the hash of this configuration.
  pub nginx_pass_settles :
      (answers : NginxAnswers) (pulse : OpenShiftPulse) (secret : Option (Dict String))
      (stale : Bool) (getenv : String → String) (info : Option ClusterInfo) (previous : Dict String)
      → (reconcile_ui_nginx_config_map host quote marshal sha256 answers pulse secret stale).error
        ≡ none
      → ((reconcile_ui_nginx_config_map host quote marshal sha256 answers pulse secret stale).secret
          ≡ some (
              ("nginx.conf", wanted_conf host quote marshal sha256 (ws_token answers.token) pulse)
              ∷ []))
        × ((reconcile_ui_nginx_config_map host quote marshal sha256 answers pulse secret
              stale).stale
            ≡ false)
        × (lookup nginx_hash_annotation
              (ui_deployment_spec quote getenv pulse info
                (reconcile_ui_nginx_config_map host quote marshal sha256 answers pulse secret
                  stale).hash
                previous).1.template.annotations
            ≡ some (
                take 8
                  (sha256 (wanted_conf host quote marshal sha256 (ws_token answers.token) pulse))))
  unfolding reconcile_ui_nginx_config_map ui_deployment_spec lookup
  nginx_pass_settles answers pulse secret stale getenv info previous h =
      let conf = wanted_conf host quote marshal sha256 (ws_token answers.token) pulse in
      let (fine, gone) = after_write-ok _ answers.delete_error stale h in
      let (keys, at, stored) =
        create_or_update-ok (λ keys. keys ≡ ("nginx.conf", conf) ∷ []) answers.write secret []
          (λ old. ("nginx.conf", conf) ∷ []) (λ old. refl) fine in
      (
        at ∙ ap some stored,
        gone,
        lookup-keep_restarted_at previous ((nginx_hash_annotation, take 8 (sha256 conf)) ∷ [])
            nginx_hash_annotation,
      )
