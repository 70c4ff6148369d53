-- ===== src/Client.antt =====
-- The two clients, email-network-service/src/smtp/smtp_client.py and
-- email-network-service/src/pop3/pop3_client.py, over what both use of the reliable datagrams.
pub mod Wire
pub mod SmtpClient
pub mod Conversation
pub mod Answers
pub mod Pop3Client
mod Tests
