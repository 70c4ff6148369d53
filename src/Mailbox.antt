-- ===== src/Mailbox.antt =====
-- Mailboxes: email-network-service/src/mailbox, and the message of
-- email-network-service/src/models/email_data.py that is stored in them.
pub mod Email
pub mod Reader
pub mod Writer
pub mod Storage
mod Tests
