-- ===== src/Quotas.antt =====
-- modules/quotas: the monthly period of an organisation, the usage ledger and the quota check.
pub mod Period
pub mod Usage
pub mod Check
pub mod Allocation
pub mod Mirror
