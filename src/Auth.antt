-- ===== src/Auth.antt =====
-- modules/auth: users, refresh-token sessions, passwords, accounts and API keys.
pub mod State
pub mod Refresh
pub mod Rotation
pub mod RotationChain
pub mod Passwords
pub mod Credentials
pub mod TokenChanges
pub mod Requests
pub mod Logout
pub mod Sessions
pub mod SessionList
pub mod ApiKeys
pub mod KeyLifetime
pub mod Accounts
pub mod Oidc
pub mod Admission
pub mod Invitations
pub mod AccountRows
pub mod Superadmin
