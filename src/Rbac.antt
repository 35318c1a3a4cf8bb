-- ===== src/Rbac.antt =====
-- What the operator lets the agent, the UI and the MCP server do in the cluster.
pub mod Rules
pub mod Roles
pub mod Bindings
pub mod BindingLaws
pub mod Laws
