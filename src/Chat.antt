-- ===== src/Chat.antt =====
-- src/web/aprschat.py: the message store (Store) and the session (Session).
pub mod Store
pub mod Session
pub mod Index
pub mod Retries
pub mod Reach
pub mod Exchange
pub mod Incoming
