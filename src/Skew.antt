-- ===== src/Skew.antt =====
-- skew.go: do the agent's and the UI's image tags agree? The report of a difference never blocks.
pub mod Laws
use Prim.Native.String.{◌++◌}
use pulse_operator.Prelude.{String, Bool, true, false, ◌||◌, ◌==◌, if◌then◌else◌}
use pulse_operator.Api.{OpenShiftPulse, Condition}
use pulse_operator.Host.{Host}
use pulse_operator.Image.Tag.{image_tag}

unfoldable pub skew_message : String → String → String
skew_message agent_tag ui_tag =
    "spec.agent.image is pinned at "
    ++ (agent_tag
        ++ (" but spec.ui.image is pinned at "
            ++ (ui_tag
                ++ ". The agent and UI are released together under one version; a mismatch means one surface was upgraded and the other was not, and the two will report different versions to users. This is expected only briefly during an upgrade.")))

unfoldable pub agent_ui_version_skew : OpenShiftPulse → Bool × String
agent_ui_version_skew cr =
    let agent_tag = image_tag cr.spec.agent.image in
    let ui_tag = image_tag cr.spec.ui.image in
    if agent_tag == "" || ui_tag == ""
    then (false, "")
    else if agent_tag == "latest" || ui_tag == "latest"
    then (false, "")
    else if agent_tag == ui_tag
    then (false, "")
    else (true, skew_message agent_tag ui_tag)

abbrev versions_match : String
versions_match = "AgentUIVersionsMatch"

unfoldable pub skew_condition : OpenShiftPulse → Bool → String → Condition
skew_condition cr skewed message =
    if skewed
    then record {
      type = versions_match;
      status = false;
      reason = "VersionSkew";
      message = message;
      observed_generation = cr.meta.generation;
    }
    else record {
      type = versions_match;
      status = true;
      reason = "VersionsMatch";
      message = "spec.agent.image and spec.ui.image are pinned at the same version";
      observed_generation = cr.meta.generation;
    }

unfoldable pub set_version_skew_condition : Host → OpenShiftPulse → Bool → String → OpenShiftPulse
unfolding skew_condition
set_version_skew_condition host cr skewed message =
    let status = cr.status in
    record cr {
      status = record status {
        conditions = host.store.set status.conditions (skew_condition cr skewed message);
      };
    }
