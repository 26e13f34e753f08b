-- ===== src/Feed.antt =====
-- src/tft/xara_feed.py: the live feed of the modem's web page, for the display.
pub mod Socket
pub mod Frame
pub mod State
