-- ===== src/Mail.antt =====
-- src/web/mailvalidate.py, mailqueue.py, mailbuilder.py and b2fsend.py: what the web page accepts
-- (Validate), the queue of messages (Queue), the message for the CMS (Build), the conversation that
-- sends one (Talk, with its answer to a challenge in Challenge), and the sending of a queued message (Send).
pub mod Queue
pub mod Challenge
pub mod Talk
pub mod Send
pub mod Validate
pub mod Build
