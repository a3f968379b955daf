-- ===== src/Store.antt =====
-- src/store.rs: the identities of a run's durable records, and their content hashes.
pub mod Canonical
pub mod Identity
