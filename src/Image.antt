-- ===== src/Image.antt =====
-- images.go, the image tags of skew.go, and the image choices of agent_reconciler.go,
-- ui_reconciler.go and openshiftpulse_controller.go.
pub mod Tag
pub mod Choice
