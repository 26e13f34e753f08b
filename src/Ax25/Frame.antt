-- ===== src/Ax25/Frame.antt =====
-- src/rms/ax25.py: whole frames. `split_frame` is in Split, `make_frame` in Make.
pub mod Split
pub mod Make
pub mod RoundTrip
