-- ===== src/Tenancy.antt =====
-- modules/tenancy: who may do what in which workspace.
pub mod State
pub mod Permissions
pub mod Context
pub mod Access
pub mod Tokens
pub mod Members
pub mod Groups
pub mod GroupIsolation
pub mod GroupAccess
pub mod MemberRows
pub mod Owners
pub mod Roles
pub mod Versions
