-- ===== src/Gateway/Replies.antt =====
-- A response between canonical callsigns can always be built, and goes out at once.
use kp4pra.Prelude.{ℕ, ◌≡◌, [], none, true, Bytes}
use kp4pra.Ax25.Kiss.{kiss_encode}
use kp4pra.Ax25.Call.RoundTrip.{upper-call_text}
use kp4pra.Ax25.Frame.RoundTrip.{Call, text, IsCanonical, frame_bytes, make_frame-frame_bytes}
use kp4pra.Gateway.State.{Gateway, tx, emit}
use kp4pra.Gateway.Handle.{returned, reply}

-- The bytes that `tx` writes for a response from `c` to `s`.
abbrev pub response : Call → Call → ℕ → Bytes
response s c ctrl = kiss_encode (frame_bytes s c ctrl [] none true []) 0

pub reply-response :
    (s c : Call) (other : Gateway → Gateway) (ctrl : ℕ) (g : Gateway)
    → IsCanonical s
    → IsCanonical c
    → reply (text c) other (text s) ctrl g ≡ returned (other (emit (tx (response s c ctrl)) g))
unfolding reply
reply-response s c other ctrl g vs vc = rw (
  upper-call_text c.base c.ssid vc.chars,
  make_frame-frame_bytes s c ctrl [] none true [] vs vc tt,
)
