-- ===== src/Lzhuf/Crc.antt =====
-- src/web/lzhuf.py: the CRC-16 of a stream and the checksum of a message.
pub mod Xor
pub mod Detects
use kp4pra.Prelude.{
  ℕ, zero, suc, ◌+◌, ◌-◌, ◌*◌, ◌/◌, ◌%◌, ◌≤◌, ◌<◌, ◌≡◌, ◌≢◌, ◌⊎◌, inl, inr, refl, sym, ap, ◌∙◌,
  append_assoc, append-nil, Bool, true, false, not, ◌&&◌, ◌||◌, Bool-cases, Option, none, some,
  List, [], ◌∷◌, ◌++◌, Bytes, Text, codes, arith, length, take, drop, length-append, take-append,
  drop-append, ltb, leb, ◌==◌, if◌then◌else◌, is_nil, text_eq, get_elem?, bit_and, bit_or, bit_xor,
  ==_iff, all_below_sound, map, All,
}
use kp4pra.Prelude.{sum}

-- One of the eight rounds for an entry of the table.
unfoldable pub crc_shift : ℕ → ℕ
crc_shift c = if bit_and c 0x8000 == 0 then c * 2 % 0x10000 else bit_xor (c * 2) 0x1021 % 0x10000

unfoldable pub crc_shifts : ℕ → ℕ → ℕ
crc_shifts zero c = c
crc_shifts (suc n) c = crc_shifts n (crc_shift c)

-- `_CRC16_TAB[i]`
unfoldable pub crc16_tab : ℕ → ℕ
crc16_tab i = crc_shifts 8 (i * 256)

-- `(sm << 8) & 0xFF00` keeps the lower byte of `sm`.
unfoldable pub crc16_update : ℕ → ℕ → ℕ
crc16_update cp sm = bit_xor (bit_xor (sm % 256 * 256) (crc16_tab (sm / 256 % 256))) cp % 0x10000

unfoldable pub crc16_from : ℕ → Bytes → ℕ
crc16_from sm [] = sm
crc16_from sm (c ∷ s) = crc16_from (crc16_update c sm) s

unfoldable pub crc16 : Bytes → ℕ
crc16 s = crc16_from (crc16_from 0 s) (0 ∷ 0 ∷ [])

-- `(-sum(data)) & 0xFF`
unfoldable pub compute_checksum : Bytes → ℕ
compute_checksum s = (256 - sum s % 256) % 256
