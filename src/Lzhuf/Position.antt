-- ===== src/Lzhuf/Position.antt =====
-- src/web/lzhuf.py: `_encode_position` and `_decode_position`. An index past a table is `none`,
-- the `IndexError` of the source.
pub mod RoundTrip
pub mod Stream
use kp4pra.Prelude.{none}
use kp4pra.Prelude.{ℕ, zero, suc, ◌+◌, ◌-◌, ◌*◌, ◌/◌, ◌%◌, Option, some, get_elem?, bit_or}
use kp4pra.Prelude.Maybe.{◌>>=◌}
use kp4pra.Lzhuf.Tables.{p_len, p_code, d_code, d_len}
use kp4pra.Lzhuf.Bits.{BitWriter, put_code, BitReader, get_bit, get_byte, bit_value}

-- `pos >> 6` and `pos & 0x3F` are a quotient and a remainder.
unfoldable pub encode_position : ℕ → BitWriter → Option BitWriter
encode_position pos w = do
  length ← get_elem? p_len (pos / 64)
  code ← get_elem? p_code (pos / 64)
  some (put_code 6 (pos % 64 * 0x400 % 0x10000) (put_code length (code * 256 % 0x10000) w))

-- The loop over the low bits that the lookahead does not hold.
unfoldable pub read_low : ℕ → ℕ → BitReader → BitReader × ℕ
read_low zero i r = (r, i)
read_low (suc j) i r =
    let (r', bit) = get_bit r in read_low j ((i * 2 + bit_value bit) % 0x10000) r'

-- `c | (i & 0x3F)`
abbrev pub join_low : ℕ → BitReader × ℕ → BitReader × ℕ
join_low c (r, i) = (r, bit_or c (i % 64))

-- The position behind a lookahead `i`, from its rows in the two tables.
unfoldable pub read_rest : Option ℕ → Option ℕ → ℕ → BitReader → Option (BitReader × ℕ)
read_rest (some high) (some length) i r = some (join_low (high * 64) (read_low (length - 2) i r))
read_rest _ _ i r = none

unfoldable pub decode_position : BitReader → Option (BitReader × ℕ)
decode_position r =
    let (r', i) = get_byte r in read_rest (get_elem? d_code i) (get_elem? d_len i) i r'
