-- ===== src/Tests.antt =====
-- Runs of the model at concrete inputs, and the theorems at inputs that meet their hypotheses.
mod Calls
mod Ax25
mod Gateway
mod Aprs
mod Chat
mod Lzhuf
mod B2f
mod Clock
mod Vara
mod Display
mod Mail
