-- ===== src/Scripts.antt =====
-- The scripts of the operator: scripts/migrate.mjs, scripts/db-doctor.mjs and scripts/make-admin.mjs.
pub mod Ledger
pub mod Migrate
pub mod Doctor
pub mod Admins
