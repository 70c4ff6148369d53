-- ===== src/Auth.antt =====
-- Accounts: email-network-service/src/auth.
pub mod User
pub mod UserManager
mod Tests
