-- ===== src/Skew/Laws.antt =====
-- What the skew check reports of two tagged images.
use Prim.Native.String.{◌++◌}
use pulse_operator.Prelude.{String, false, not, ◌==◌, ◌≡◌, ◌≢◌, arith, eq_iff, ◌⊎◌}
use pulse_operator.Api.{OpenShiftPulse}
use pulse_operator.Image.Tag.{image_tag}
use pulse_operator.Image.Tag.Laws.{Lacks, image_tag_of_tagged}
use pulse_operator.Skew.{agent_ui_version_skew}

-- `repository:tag` with no digest, and a tag that is a plain word.
pub record IsTagged (image repository tag : String) : Type 0 where
  pub written : image ≡ repository ++ String.◌∷◌ ":" tag
  pub no_digest : Lacks b'@' repository
  pub plain_at : Lacks b'@' tag
  pub plain_slash : Lacks b'/' tag
  pub plain_colon : Lacks b':' tag
  pub is_version : (tag ≢ "") × (tag ≢ "latest")

image_tag_of_IsTagged :
    {image repository tag : String} → IsTagged image repository tag → image_tag image ≡ tag
image_tag_of_IsTagged {image} {repository} {tag} t =
    rw t.written
      (image_tag_of_tagged repository tag t.no_digest t.plain_at t.plain_slash t.plain_colon)

-- Two images pinned at versions are reported exactly when the versions differ, whatever the
-- repositories and registry ports are.
pub skew_of_tagged :
    {agent_repository ui_repository agent_tag ui_tag : String} (cr : OpenShiftPulse)
    → IsTagged cr.spec.agent.image agent_repository agent_tag
    → IsTagged cr.spec.ui.image ui_repository ui_tag
    → (agent_ui_version_skew cr).0 ≡ not (agent_tag == ui_tag)
unfolding agent_ui_version_skew
skew_of_tagged {agent_tag} {ui_tag} cr a u = rw (image_tag_of_IsTagged a) (
    rw (image_tag_of_IsTagged u) (
      ground (
        arith,
        a.is_version,
        u.is_version,
        eq_iff agent_tag "",
        eq_iff ui_tag "",
        eq_iff agent_tag "latest",
        eq_iff ui_tag "latest",
      )))

-- An image with a digest, or with no tag, is never reported.
pub no_skew_of_untagged :
    (cr : OpenShiftPulse)
    → (image_tag cr.spec.agent.image ≡ "") ⊎ (image_tag cr.spec.ui.image ≡ "")
    → (agent_ui_version_skew cr).0 ≡ false
unfolding agent_ui_version_skew
no_skew_of_untagged cr h =
    ground
      (arith, eq_iff (image_tag cr.spec.agent.image) "", eq_iff (image_tag cr.spec.ui.image) "")
