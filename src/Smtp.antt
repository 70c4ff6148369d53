-- ===== src/Smtp.antt =====
-- The SMTP server: email-network-service/src/smtp/smtp_server.py.
pub mod Session
pub mod Server
pub mod Streams
pub mod Pool
pub mod Tests
