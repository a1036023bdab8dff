-- ===== src/Auth.antt =====
-- Signing in without a password (modules/auth): magic links, codes of OAuth, sessions, accounts.
pub mod Entities
pub mod Profiles
pub mod Repository
pub mod Service
pub mod Links
pub mod SignIns
pub mod Once
pub mod Races
pub mod Sessions
pub mod Linking
