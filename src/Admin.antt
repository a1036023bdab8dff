-- ===== src/Admin.antt =====
-- What operators do: users and their suspension, adjustments of wallets, and apps (modules/user,
-- modules/admin, modules/platform).
pub mod Users
pub mod Suspension
pub mod Adjusting
pub mod Platform
pub mod Secrets
