-- ===== src/Lzhuf/Huffman/Coding.antt =====
-- One character written and read: both sides keep the same balanced tree.

use mathlib.Core.List.{reverse, reverse-cons}
use kp4pra.Prelude.{
  ℕ, ◌+◌, ◌-◌, ◌≤◌, ◌<◌, ◌≡◌, refl, ap, ◌∙◌, Bool, some, List, [], ◌∷◌, ◌++◌, arith, length,
  length-append,
}
use kp4pra.Prelude.Maybe.{◌>>=◌}
use kp4pra.Lzhuf.Tables.{char_count, tree_size}
use kp4pra.Lzhuf.Bits.{BitWriter, BitReader}
use kp4pra.Lzhuf.Bits.Reading.{IsReady}
use kp4pra.Lzhuf.Bits.Writing.{IsWritten}
use kp4pra.Lzhuf.Huffman.{Huff, encode_char, decode_char, update, climb}
use kp4pra.Lzhuf.Huffman.Weights.{Tree}
use kp4pra.Lzhuf.Huffman.Codes.{char_bits, descend-char_bits}
use kp4pra.Lzhuf.Huffman.Depth.{length-climb-le}
use kp4pra.Lzhuf.Huffman.Words.{put_bits-IsWritten}

length-reverse : (bits : List Bool) → length (reverse bits) ≡ length bits
length-reverse [] = refl
length-reverse (b ∷ bits) =
    ap length (reverse-cons b bits)
    ∙ omega (arith, length-append (reverse bits) (b ∷ []), length-reverse bits)

pub encode_char-IsWritten :
    (c n : ℕ) (h : Huff) (w : BitWriter) (bits : List Bool)
    → Tree h n
    → n < 4181
    → c < char_count
    → IsWritten w bits
    → (w' : BitWriter) × (encode_char c h w ≡ some (update c h, w'))
      × IsWritten w' (bits ++ char_bits h c)
unfolding encode_char
encode_char-IsWritten c n h w bits v p q t =
    let (low, same) = v.links.parent (c + tree_size) (omega arith, omega arith) in
    let path : List Bool = climb tree_size h.prnt (h.prnt (c + tree_size)) in
    let short : length (char_bits h c) ≤ 16 =
      omega
        (arith, length-reverse path, length-climb-le v tree_size (h.prnt (c + tree_size)) low p) in
    let (w', made, v') = put_bits-IsWritten (char_bits h c) w bits short t in
    (w', ap (λ o. o >>= λ u. some (update c h, u)) made, v')

pub decode_char-char_bits :
    (c n : ℕ) (h : Huff) (r : BitReader) (rest : List Bool)
    → Tree h n
    → c < char_count
    → IsReady r (char_bits h c ++ rest)
    → (r' : BitReader) × IsReady r' rest × (decode_char h r ≡ (update c h, r', c))
unfolding decode_char
decode_char-char_bits c n h r rest v q t =
    let (r', ready, e) = descend-char_bits h c r rest v.links q t in
    let back : c + tree_size - tree_size ≡ c = omega arith in (r', ready, rw e (rw back))
