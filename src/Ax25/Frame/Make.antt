-- ===== src/Ax25/Frame/Make.antt =====
-- src/rms/ax25.py: `make_frame` and `frame_command_bits`.
use mathlib.Core.Option
use kp4pra.Prelude.{
  ℕ, Bool, false, not, Option, none, some, List, [], ◌∷◌, ◌++◌, ◌==◌, if◌then◌else◌, Bytes, Text,
  is_nil, bit_and, get_elem?,
}
use kp4pra.Prelude.Maybe.{◌>>=◌}
use kp4pra.PyText.{strip}
use kp4pra.Ax25.Call.{encode_call}

-- `d and d.strip()`, as a test.
abbrev pub is_named : Text → Bool
is_named d = if is_nil d then false else not (is_nil (strip d))

-- The digipeaters that are kept.
unfoldable pub named : List Text → List Text
named [] = []
named (d ∷ ds) = if is_named d then d ∷ named ds else named ds

-- The digipeater addresses; the last carries the extension bit. `none` is a `ValueError`.
unfoldable pub encode_digis : List Text → Option Bytes
encode_digis [] = some []
encode_digis (d ∷ ds) = do
  a ← encode_call d (is_nil ds) false
  more ← encode_digis ds
  some (a ++ more)

unfoldable pub encode_pid : Option ℕ → Bytes
encode_pid none = []
encode_pid (some pid) = pid ∷ []

unfoldable pub make_frame : Text → Text → ℕ → Bytes → Option ℕ → Bool → List Text → Option Bytes
make_frame dest src ctrl payload pid response digis = do
  let ds = named digis
  to ← encode_call dest false (not response)
  from ← encode_call src (is_nil ds) response
  via ← encode_digis ds
  some (to ++ (from ++ (via ++ (ctrl ∷ (encode_pid pid ++ payload)))))

-- `frame[k]&0x80`; out of range is an `IndexError`, here `none`.
command_bit : Bytes → ℕ → Option Bool
command_bit frame k = Option.map (λ b. not (bit_and b 0x80 == 0)) (get_elem? frame k)

unfoldable pub frame_command_bits : Bytes → Option (Bool × Bool)
unfolding command_bit
frame_command_bits frame = do
  dest ← command_bit frame 6
  src ← command_bit frame 13
  some (dest, src)
