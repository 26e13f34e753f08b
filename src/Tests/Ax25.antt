-- ===== src/Tests/Ax25.antt =====
-- Inputs for src/rms/ax25.py; the frames are those of tests/test_rms.py where it has them.
use kp4pra.Prelude.{ℕ, List}
use kp4pra.Ax25.Kiss.Reading.{read_all, joined, encoded, read_all-encoded}
use kp4pra.Ax25.Control.{is_i}
use kp4pra.Prelude.{◌≡◌, refl, true, false, some, [], ◌∷◌, ◌++◌, codes, Bytes, arith}
use kp4pra.Ax25.Kiss.{kiss_encode, KissDecoder, fresh, feed, escape, complete}
use kp4pra.Ax25.Kiss.RoundTrip.{feed-kiss_encode}
use kp4pra.Ax25.Frame.Split.{has_pid, split_frame, ok}
use kp4pra.Ax25.Frame.Make.{make_frame}
use kp4pra.Tests.Calls.{
  gateway_call, station_call, digi_call, gateway_call-IsCanonical, station_call-IsCanonical,
  digi_call-IsCanonical,
}
use kp4pra.Ax25.Frame.RoundTrip.{text, split_frame-make_frame}

encodes_fend :
    kiss_encode (0xC0 ∷ 0x01 ∷ 0xDB ∷ []) 0
    ≡ 0xC0 ∷ 0x00 ∷ 0xDB ∷ 0xDC ∷ 0x01 ∷ 0xDB ∷ 0xDD ∷ 0xC0 ∷ []
unfolding kiss_encode escape
encodes_fend = refl

-- A decoder in the middle of an escape, with a pending frame.
abbrev torn : KissDecoder
torn = record { buf = 0x00 ∷ 0x41 ∷ []; esc = true }

feed-kiss_encode_example : feed torn (kiss_encode (0xC0 ∷ 0xDB ∷ []) 2 ++ 0x00 ∷ []) ≡ (
  (feed fresh (0x00 ∷ [])).0,
  complete torn.buf ++ (0xC0 ∷ 0xDB ∷ []) ∷ (feed fresh (0x00 ∷ [])).1,
)
feed-kiss_encode_example = feed-kiss_encode torn (0xC0 ∷ 0xDB ∷ []) 2 (0x00 ∷ [])

-- Two frames, read in three pieces that part an escape and a frame.
abbrev two_frames : List (ℕ × Bytes)
two_frames = (0, 0xC0 ∷ 0x01 ∷ []) ∷ (2, 0x05 ∷ []) ∷ []

abbrev pieces : List Bytes
pieces =
    (0xC0 ∷ 0x00 ∷ 0xDB ∷ []) ∷ (0xDC ∷ 0x01 ∷ 0xC0 ∷ 0xC0 ∷ 0x20 ∷ []) ∷ (0x05 ∷ 0xC0 ∷ []) ∷ []

pieces-joined : joined pieces ≡ encoded two_frames
unfolding kiss_encode escape
pieces-joined = refl

read_all-encoded_example : read_all fresh pieces ≡ (fresh, (0xC0 ∷ 0x01 ∷ []) ∷ (0x05 ∷ []) ∷ [])
read_all-encoded_example = read_all-encoded two_frames pieces pieces-joined

ui_has_pid : has_pid 0x03 ≡ true
unfolding has_pid is_i
ui_has_pid = refl

split_frame-make_frame_example :
    (bytes : Bytes) × (make_frame
        (text gateway_call)
        (text station_call)
        0x03
        (codes "hi")
        (some 0xF0)
        false
        (text digi_call ∷ [])
      ≡ some bytes)
    × (split_frame bytes
        ≡ ok (record {
          dest = text gateway_call;
          src = text station_call;
          path = text digi_call ∷ [];
          ctrl = 0x03;
          pid = some 0xF0;
          payload = codes "hi";
        }))
split_frame-make_frame_example =
    split_frame-make_frame gateway_call station_call 0x03 (codes "hi") (some 0xF0) false
      (digi_call ∷ []) gateway_call-IsCanonical station_call-IsCanonical (digi_call-IsCanonical, tt)
      (omega arith) ui_has_pid
