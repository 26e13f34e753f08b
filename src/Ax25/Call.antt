-- ===== src/Ax25/Call.antt =====
-- src/rms/ax25.py: `encode_call` and `decode_call`.
pub mod RoundTrip
use kp4pra.Prelude.{
  ℕ, ◌+◌, ◌*◌, ◌/◌, ◌%◌, Bool, true, false, Option, none, some, List, [], ◌∷◌, ◌++◌, map, ◌==◌,
  if◌then◌else◌, Bytes, Text, take, ℤ, low_nibble, pos, bit_or, text_eq,
}
use kp4pra.PyText.{upper, strip, partition, ljust}
use kp4pra.PyText.Decimal.{int, decimal}
use mathlib.Core.Option

-- The fields of `call.upper().strip()`: the base and the text of the SSID.
unfoldable pub call_parts : Text → Text × Text
call_parts call = partition b'-' (strip (upper call))

-- `int(ssid_s or 0)`; `none` is the `ValueError` of `int`.
unfoldable pub call_ssid : Text → Option ℤ
call_ssid [] = some (pos 0)
call_ssid (c ∷ s) = int (c ∷ s)

-- The last byte of an address: the SSID's low four bits, the command bit and the extension bit.
unfoldable pub ssid_byte : ℕ → Bool → Bool → ℕ
ssid_byte ssid last command =
    bit_or (bit_or (bit_or 0x60 (ssid * 2)) (if command then 0x80 else 0)) (if last then 1 else 0)

-- `(ord(c)<<1)&0xFE`
abbrev pub shifted : ℕ → ℕ
shifted c = c * 2 % 256

unfoldable pub encode_call : Text → Bool → Bool → Option Bytes
encode_call call last command =
    let (base, ssid_s) = call_parts call in
    Option.map
      (λ ssid. map shifted (ljust 6 (take 6 base)) ++ ssid_byte (low_nibble ssid) last command ∷ [])
      (call_ssid ssid_s)

-- The seventh byte holds the SSID in its bits 1 to 4.
abbrev pub byte_ssid : ℕ → ℕ
byte_ssid b = b / 2 % 16

-- `f"{base}-{ssid}" if ssid else base`
unfoldable pub call_text : Text → ℕ → Text
call_text base ssid = if ssid == 0 then base else base ++ b'-' ∷ decimal ssid

abbrev pub halved : ℕ → ℕ
halved x = x / 2

-- `decode_call` on the six bytes of the base and the byte of the SSID.
unfoldable pub decode_call : Bytes → ℕ → Text
decode_call base b = call_text (strip (map halved base)) (byte_ssid b)
