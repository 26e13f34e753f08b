-- ===== src/Lzhuf/Bits.antt =====
-- src/web/lzhuf.py: `_BitWriter` and `_BitReader`.
pub mod Writing
pub mod Reading
use kp4pra.Prelude.{
  ℕ, zero, suc, ◌+◌, ◌-◌, ◌*◌, ◌/◌, ◌%◌, Bool, true, false, not, Option, none, some, List, [], ◌∷◌,
  ◌++◌, Bytes, leb, ◌==◌, if◌then◌else◌, bit_and, bit_or, get_elem?,
}

pub record BitWriter : Type 0 where
  pub out : Bytes
  pub buf : ℕ
  pub mask : ℕ

abbrev pub new_writer : BitWriter
new_writer = record { out = []; buf = 0; mask = 0x80 }

-- `self.out.append(self.buf)`, and a new buffer.
abbrev pub push : BitWriter → BitWriter
push w = record { out = w.out ++ w.buf ∷ []; buf = 0; mask = 0x80 }

-- The buffer with the bit, and `self.mask >>= 1`.
abbrev pub shift : Bool → BitWriter → BitWriter
shift bit w = record w { buf = if bit then bit_or w.buf w.mask else w.buf; mask = w.mask / 2 }

unfoldable pub put_bit : Bool → BitWriter → BitWriter
put_bit bit w = let w' = shift bit w in if w'.mask == 0 then push w' else w'

-- `(code >> 15) & 1`
abbrev pub top_bit : ℕ → Bool
top_bit code = code / 0x8000 % 2 == 1

unfoldable pub put_code : ℕ → ℕ → BitWriter → BitWriter
put_code zero code w = w
put_code (suc length) code w = put_code length (code * 2 % 0x10000) (put_bit (top_bit code) w)

-- The writer after `flush`; what `flush` returns is its `out`.
unfoldable pub flush : BitWriter → BitWriter
flush w = if w.mask == 0x80 then w else push w

pub record BitReader : Type 0 where
  pub data_bytes : Bytes
  pub pos : ℕ
  pub buf : ℕ
  pub mask : ℕ

abbrev pub new_reader : Bytes → BitReader
new_reader s = record { data_bytes = s; pos = 0; buf = 0; mask = 0 }

-- The next byte, and zeros behind the end of the data.
load : Option ℕ → BitReader → BitReader
load none r = record r { buf = 0; mask = 0x80 }
load (some b) r = record r { buf = b; pos = r.pos + 1; mask = 0x80 }

-- `1 if (self.buf & self.mask) else 0`, and `self.mask >>= 1`.
abbrev pub take_bit : BitReader → BitReader × Bool
take_bit r = (record r { mask = r.mask / 2 }, not (bit_and r.buf r.mask == 0))

unfoldable pub get_bit : BitReader → BitReader × Bool
unfolding load
get_bit r = take_bit (if r.mask == 0 then load (get_elem? r.data_bytes r.pos) r else r)

abbrev pub bit_value : Bool → ℕ
bit_value b = if b then 1 else 0

-- The loop of `get_byte`; `(val << 1) | bit` is a sum, for the lowest bit is free.
unfoldable pub get_bits : ℕ → ℕ → BitReader → BitReader × ℕ
get_bits zero val r = (r, val)
get_bits (suc n) val r = let (r', bit) = get_bit r in get_bits n (val * 2 + bit_value bit) r'

unfoldable pub get_byte : BitReader → BitReader × ℕ
get_byte r = let (r', val) = get_bits 8 0 r in (r', val % 256)
