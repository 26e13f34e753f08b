-- ===== src/Clock.antt =====
-- src/aprs_clock.py: time stamps (Time), the AGW stream (Agw), the gate on lost NTP (Gate) and the
-- service that steps the clock (Service).
pub mod Time
pub mod Agw
pub mod Gate
pub mod Service
