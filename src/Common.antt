-- ===== src/Common.antt =====
-- email-network-service/src/common: the log, and the exceptions of the service.
pub mod Logger
pub mod Exceptions
