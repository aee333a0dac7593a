-- ===== src/Account.antt =====
-- packages/iso_engine/account: reconciliation of an account entry with a payment lifecycle.
pub mod Identity
pub mod Reconcile
pub mod Ingest
