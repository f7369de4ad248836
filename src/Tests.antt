-- ===== src/Tests.antt =====
-- Concrete runs of the modelled code, and the theorems applied to them.
mod Auth
mod Audit
mod Accounts
mod Core
mod Tenancy
mod Outbox
mod Quotas
mod Documents
mod Retrieval
mod Versions
