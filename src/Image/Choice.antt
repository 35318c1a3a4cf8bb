-- ===== src/Image/Choice.antt =====
-- Which image runs: imageFromEnv (images.go), requestedImage, resolvedImage, applyRollback
-- (agent_reconciler.go) and their UI counterparts (ui_reconciler.go).
use pulse_operator.Prelude.{
  ℕ, String, ◌&&◌, not, Option, none, some, ◌==◌, if◌then◌else◌, eqb, ◌≡◌, ◌≢◌, arith, eq_iff,
}
use pulse_operator.Api.{OpenShiftPulse, ImageRollback}
use pulse_operator.Host.{Env}

abbrev pub env_agent_image : String
env_agent_image = "RELATED_IMAGE_AGENT"

abbrev pub env_ui_image : String
env_ui_image = "RELATED_IMAGE_UI"

abbrev pub default_agent_image : String
default_agent_image = "quay.io/amobrem/pulse-agent:latest"

abbrev pub default_ui_image : String
default_ui_image = "quay.io/amobrem/openshiftpulse:latest"

unfoldable pub image_from_env : Env → String → String → String
image_from_env getenv name fallback = let v = getenv name in if v == "" then fallback else v

unfoldable pub requested_image : Env → OpenShiftPulse → String
requested_image getenv cr =
    if cr.spec.agent.image == ""
    then image_from_env getenv env_agent_image default_agent_image
    else cr.spec.agent.image

unfoldable pub requested_ui_image : Env → OpenShiftPulse → String
requested_ui_image getenv cr =
    if cr.spec.ui.image == ""
    then image_from_env getenv env_ui_image default_ui_image
    else cr.spec.ui.image

-- A record applies only to the image that it was rolled back from.
unfoldable pub apply_rollback : String → Option ImageRollback → String
apply_rollback requested none = requested
apply_rollback requested (some rb) =
    if rb.from == requested && not (rb.to == "") then rb.to else requested

unfoldable pub resolved_image : Env → OpenShiftPulse → String
unfolding apply_rollback requested_image
resolved_image getenv cr = apply_rollback (requested_image getenv cr) cr.status.agent_rollback

unfoldable pub resolved_ui_image : Env → OpenShiftPulse → String
unfolding apply_rollback requested_ui_image
resolved_ui_image getenv cr = apply_rollback (requested_ui_image getenv cr) cr.status.ui_rollback

-- resolvedUIReplicas: 0 is unset.
unfoldable pub resolved_ui_replicas : OpenShiftPulse → ℕ
resolved_ui_replicas cr = if eqb cr.spec.ui.replicas 0 then 2 else cr.spec.ui.replicas

-- With a rollback record whose target is not empty, the target runs exactly while the spec asks for
-- the image that the record was made for; any other request runs as it is.
pub resolved_image_of_record :
    (getenv : Env) (cr : OpenShiftPulse) (rb : ImageRollback)
    → cr.status.agent_rollback ≡ some rb
    → rb.to ≢ ""
    → resolved_image getenv cr
      ≡ (if rb.from == requested_image getenv cr then rb.to else requested_image getenv cr)
unfolding resolved_image
resolved_image_of_record getenv cr rb h known = ground (arith, eq_iff rb.to "")
