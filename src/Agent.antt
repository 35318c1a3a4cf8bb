-- ===== src/Agent.antt =====
-- agent_reconciler.go: the agent's Deployment.
pub mod Environment
pub mod Template
pub mod Deployment
pub mod EnvironmentLaws
pub mod DeploymentLaws
pub mod Adoption
pub mod BackendLaws
pub mod Sequence
pub mod Objects
pub mod Refinement
pub mod Runs
