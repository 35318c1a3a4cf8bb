-- ===== src/Postgres.antt =====
-- postgresql_reconciler.go: the database's reconciler.
pub mod Secret
pub mod Version
pub mod StalePod
pub mod Laws
pub mod Template
pub mod StatefulSet
pub mod StatefulSetLaws
pub mod StatefulSetPasses
pub mod Passes
pub mod Volume
pub mod Password
pub mod Connection
pub mod Service
pub mod Hash
