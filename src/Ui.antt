-- ===== src/Ui.antt =====
-- ui_reconciler.go: the UI's secrets, its Route and its OAuthClient, and the order of its steps.
pub mod Cookie
pub mod Secrets
pub mod Route
pub mod RouteLaws
pub mod Sequence
pub mod SequenceLaws
pub mod Template
pub mod TemplateLaws
pub mod Objects
pub mod Nginx
pub mod NginxLaws
