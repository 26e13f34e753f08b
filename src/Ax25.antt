-- ===== src/Ax25.antt =====
-- src/rms/ax25.py: KISS framing (Kiss), callsign fields (Call), whole frames (Frame) and control
-- fields (Control).
pub mod Kiss
pub mod Call
pub mod Control
pub mod Frame
