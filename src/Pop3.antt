-- ===== src/Pop3.antt =====
-- The POP3 server: email-network-service/src/pop3/pop3_server.py.
pub mod Numbers
pub mod Server
pub mod Serving
pub mod Tests
