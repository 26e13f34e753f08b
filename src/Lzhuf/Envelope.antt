-- ===== src/Lzhuf/Envelope.antt =====
-- src/web/lzhuf.py: the envelope of `compress`, and `decompress`.
pub mod Sealed
use kp4pra.Prelude.{
  ℕ, zero, suc, ◌+◌, ◌-◌, ◌*◌, ◌/◌, ◌%◌, ◌≤◌, ◌<◌, ◌≡◌, ◌≢◌, ◌⊎◌, inl, inr, refl, sym, ap, ◌∙◌,
  append_assoc, append-nil, Bool, true, false, not, ◌&&◌, ◌||◌, Bool-cases, Option, none, some,
  List, [], ◌∷◌, ◌++◌, Bytes, Text, codes, arith, length, take, drop, length-append, take-append,
  drop-append, ltb, leb, ◌==◌, if◌then◌else◌, is_nil, text_eq, get_elem?, bit_and, bit_or, bit_xor,
  ==_iff, all_below_sound, map, All,
}
use kp4pra.Lzhuf.Crc.{crc16}
use kp4pra.Lzhuf.Decode.{lzss_decode}

-- `n.to_bytes(k, "little")`, for an `n` that fits.
unfoldable pub le_bytes : ℕ → ℕ → Bytes
le_bytes zero n = []
le_bytes (suc k) n = n % 256 ∷ le_bytes k (n / 256)

-- `int.from_bytes(s, "little")`
unfoldable pub le_value : Bytes → ℕ
le_value [] = 0
le_value (b ∷ s) = b + 256 * le_value s

-- What `compress` returns, from the bytes of the length and the compressed data.
unfoldable pub envelope : Bytes → Bytes → Bytes
envelope length_bytes body = le_bytes 2 (crc16 (length_bytes ++ body)) ++ (length_bytes ++ body)

-- `fault` is the `IndexError` of the decoder.
pub data Outcome : Type 0 where
  text : Bytes → Outcome
  too_short : Outcome
  crc_mismatch : Outcome
  fault : Outcome

unfoldable pub decoded : Option Bytes → Outcome
decoded none = fault
decoded (some s) = text s

unfoldable pub decompress : Bytes → Outcome
decompress blob =
    let stored_crc = le_value (take 2 blob) in
    let length_bytes = take 4 (drop 2 blob) in
    let body = drop 6 blob in
    let original_len = le_value length_bytes in
    if ltb (length blob) 6
    then too_short
    else if not (crc16 (length_bytes ++ body) == stored_crc)
    then crc_mismatch
    else if original_len == 0
    then text []
    else decoded (lzss_decode body original_len)
