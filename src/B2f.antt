-- ===== src/B2f.antt =====
-- src/web/b2f.py: the identification lines (Sid), the proposals (Proposal), the answers to them
-- (Answers) and the binary frames of a message (Frames).
pub mod Frames
pub mod Answers
pub mod Sid
pub mod Proposal
