-- ===== src/Aprs.antt =====
-- src/web/aprs.py: message fields (Message), message numbers (MsgNo), the lines of APRS-IS (Tnc2).
pub mod Call
pub mod Message
pub mod MsgNo
pub mod Tnc2
