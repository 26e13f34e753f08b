-- ===== src/Vara.antt =====
-- src/vara_launcher.py: what is announced (Modem, Announcer) and the sessions (Launcher).
pub mod Modem
pub mod Announcer
pub mod Launcher
