-- ===== src/Lzhuf/Decode.antt =====
-- src/web/lzhuf.py: `_lzss_decode`. `none` is the `IndexError` of a position past its table.
pub mod History
pub mod Tokens
use kp4pra.Prelude.{
  ℕ, zero, suc, ◌+◌, ◌-◌, ◌*◌, ◌/◌, ◌%◌, ◌≤◌, ◌<◌, ◌≡◌, ◌≢◌, ◌⊎◌, inl, inr, refl, sym, ap, ◌∙◌,
  append_assoc, append-nil, Bool, true, false, not, ◌&&◌, ◌||◌, Bool-cases, Option, none, some,
  List, [], ◌∷◌, ◌++◌, Bytes, Text, codes, arith, length, take, drop, length-append, take-append,
  drop-append, ltb, leb, ◌==◌, if◌then◌else◌, is_nil, text_eq, get_elem?, bit_and, bit_or, bit_xor,
  ==_iff, all_below_sound, map, All,
}
use kp4pra.Prelude.Maybe.{◌>>=◌}
use kp4pra.Lzhuf.Tables.{ring_size, max_match, threshold}
use kp4pra.Lzhuf.Bits.{BitReader, new_reader}
use kp4pra.Lzhuf.Position.{decode_position}
use kp4pra.Lzhuf.Huffman.{Array, set, Huff, start, decode_char}

pub record Ring : Type 0 where
  pub text : Array
  pub r : ℕ
  pub out : Bytes
  pub count : ℕ

abbrev pub first_ring : Ring
first_ring = record {
  text = λ i. if ltb i (ring_size - max_match) then 0x20 else 0;
  r = ring_size - max_match;
  out = [];
  count = 0;
}

-- A byte goes out and into the ring.
abbrev pub put_byte : ℕ → Ring → Ring
put_byte c s = record {
  text = set s.text s.r c;
  r = (s.r + 1) % ring_size;
  out = s.out ++ c ∷ [];
  count = s.count + 1;
}

-- `for _ in range(k)`, which is left when `n` bytes are out.
unfoldable pub copy_loop : ℕ → ℕ → ℕ → Ring → Ring
copy_loop zero n pos s = s
copy_loop (suc k) n pos s =
    let s' = put_byte (s.text pos) s in
    let more = copy_loop k n ((pos + 1) % ring_size) s' in if leb n s'.count then s' else more

-- `(r - back - 1) & (N - 1)`; `back` is less than 4096, so that nothing is cut off.
abbrev pub place_of : ℕ → ℕ → ℕ
place_of r back = (r + 2 * ring_size - (back + 1)) % ring_size

-- One round of the loop.
unfoldable pub decode_round : ℕ → Huff → BitReader → Ring → Option (Huff × BitReader × Ring)
decode_round n h br s =
    let (h', br', c) = decode_char h br in
    if ltb c 256 then some (h', br', put_byte c s) else do
      (br'', back) ← decode_position br'
      some (h', br'', copy_loop (c - 255 + threshold) n (place_of s.r back) s)

-- Every round puts a byte out: `n` rounds are enough, and one for the last test.
unfoldable pub decode_loop : ℕ → ℕ → Huff → BitReader → Ring → Option Bytes
decode_loop zero n h br s = none
decode_loop (suc f) n h br s =
    let more = decode_round n h br s >>= λ next. decode_loop f n next.0 next.1 next.2 in
    if leb n s.count then some s.out else more

unfoldable pub lzss_decode : Bytes → ℕ → Option Bytes
lzss_decode s n = decode_loop (n + 1) n start (new_reader s) first_ring
