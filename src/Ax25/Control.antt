-- ===== src/Ax25/Control.antt =====
-- src/rms/ax25.py: the control field, and the sequence state of a link.
pub mod Laws
use kp4pra.Prelude.{ℕ, ◌*◌, ◌/◌, ◌%◌, Bool, true, false, Text, bit_and, bit_or, ◌==◌, if◌then◌else◌}

unfoldable pub is_s : ℕ → Bool
is_s c = bit_and c 0x03 == 0x01

unfoldable pub is_sabm : ℕ → Bool
is_sabm c = bit_and c 0xEF == 0x2F

unfoldable pub is_disc : ℕ → Bool
is_disc c = bit_and c 0xEF == 0x43

unfoldable pub is_ua : ℕ → Bool
is_ua c = bit_and c 0xEF == 0x63

unfoldable pub is_i : ℕ → Bool
is_i c = bit_and c 1 == 0

-- `bool(c & 0x10)`
unfoldable pub poll_bit : ℕ → Bool
poll_bit c = if bit_and c 0x10 == 0 then false else true

-- `(c >> 1) & 7` and `(c >> 5) & 7`
unfoldable pub ns : ℕ → ℕ
ns c = c / 2 % 8

unfoldable pub nr : ℕ → ℕ
nr c = c / 32 % 8

abbrev pub pf_bit : Bool → ℕ
pf_bit pf = if pf then 0x10 else 0

unfoldable pub rr : ℕ → Bool → ℕ
rr n pf = bit_or (bit_or 0x01 (n % 8 * 32)) (pf_bit pf)

unfoldable pub iframe : ℕ → ℕ → Bool → ℕ
iframe send recv pf = bit_or (bit_or (send % 8 * 2) (recv % 8 * 32)) (pf_bit pf)

abbrev pub ua : ℕ
ua = 0x63

abbrev pub dm : ℕ
dm = 0x0F

abbrev pub disc : ℕ
disc = 0x43

-- The next N(S) to send, the next N(S) expected, and the oldest N(S) not acknowledged.
pub record LinkState : Type 0 where
  pub remote : Text
  pub vs : ℕ
  pub vr : ℕ
  pub va : ℕ

-- `LinkState(src)`
abbrev pub new_link : Text → LinkState
new_link src = record { remote = src; vs = 0; vr = 0; va = 0 }
