-- ===== src/Tests/ImageTests.antt =====
-- Image tags and version labels.
use pulse_operator.Prelude.{◌≡◌, refl}
use pulse_operator.Image.Tag.{image_tag, image_version_label}

port_is_no_tag : image_tag "registry.local:5000/pulse-agent" ≡ ""
unfolding image_tag
port_is_no_tag = refl

digest_has_no_tag : image_tag "quay.io/a@sha256:00" ≡ ""
unfolding image_tag
digest_has_no_tag = refl

short_digest : image_version_label "quay.io/a@sha256:0123456789abcdef" ≡ "sha256:0123456789ab"
unfolding image_version_label
short_digest = refl
