-- ===== src/Status.antt =====
-- status.go: the phase machine and the automatic rollback. `Sync` models syncPhaseAndConditions,
-- `Rollback` reconcileAutoRollback; the other modules prove what they do.
pub mod Sync
pub mod Rollback
pub mod PhaseLaws
pub mod Pass
pub mod ConditionLaws
pub mod RollbackLaws
pub mod PassLaws
pub mod Passes
pub mod SharedTimer
pub mod Degraded
