-- ===== src/Aprs/Message.antt =====
-- src/web/aprs.py: the information field of a message, an ack or a reject.
pub mod Field
mod Reply
pub mod RoundTrip
