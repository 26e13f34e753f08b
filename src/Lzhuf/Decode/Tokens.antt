-- ===== src/Lzhuf/Decode/Tokens.antt =====
-- The decoder gives back the text that a list of tokens stands for.
use kp4pra.Prelude.{
  ℕ, zero, suc, ◌+◌, ◌-◌, ◌≤◌, ◌<◌, ◌≡◌, refl, sym, ap, ◌∙◌, append_assoc, append-nil, Bool, true,
  false, some, List, [], ◌∷◌, ◌++◌, Bytes, arith, length, ltb, leb, All,
}
use mathlib.Core.Path.{subst}
use mathlib.Core.List.{reverse}
use kp4pra.Prelude.Maybe.{◌>>=◌}
use kp4pra.Lzhuf.Tables.{char_count, threshold}
use kp4pra.Lzhuf.Bits.{BitWriter, BitReader, new_writer, new_reader, flush}
use kp4pra.Lzhuf.Bits.Reading.{IsReady}
use kp4pra.Lzhuf.Bits.Writing.{IsWritten, new_writer-IsWritten, flush-IsWritten}
use kp4pra.Lzhuf.Position.{encode_position}
use kp4pra.Lzhuf.Position.RoundTrip.{position_bits, decode_position-position_bits}
use kp4pra.Lzhuf.Position.Stream.{encode_position-IsWritten, new_reader-IsReady}
use kp4pra.Lzhuf.Huffman.{Huff, start, update}
use kp4pra.Lzhuf.Huffman.Weights.{Tree}
use kp4pra.Lzhuf.Huffman.Updating.{update-Tree}
use kp4pra.Lzhuf.Huffman.Codes.{char_bits}
use kp4pra.Lzhuf.Huffman.Coding.{encode_char-IsWritten, decode_char-char_bits}
use kp4pra.Lzhuf.Huffman.Starting.{start-Tree}
use kp4pra.Lzhuf.Token.{Token, literal, copy, put_token, put_tokens, IsToken}
use kp4pra.Lzhuf.Decode.{
  Ring, first_ring, put_byte, copy_loop, place_of, decode_round, decode_loop, lzss_decode,
}
use kp4pra.Lzhuf.Decode.History.{
  back, copied, Holds, first_ring-Holds, put_byte-Holds, copy_loop-Holds,
}

-- The text so far, last byte first, and the token's bytes.
abbrev pub expand_token : Token → Bytes → Bytes
expand_token (literal c) text = c ∷ text
expand_token (copy len pos) text = copied len pos text

abbrev pub expand : List Token → Bytes → Bytes
expand [] text = text
expand (t ∷ ts) text = expand ts (expand_token t text)

abbrev pub size_of : Token → ℕ
size_of (literal c) = 1
size_of (copy len pos) = len

-- The number of bytes that the tokens stand for.
abbrev pub size : List Token → ℕ
size [] = 0
size (t ∷ ts) = size_of t + size ts

abbrev pub char_of : Token → ℕ
char_of (literal c) = c
char_of (copy len pos) = 255 - threshold + len

abbrev pub extra_bits : Token → List Bool
extra_bits (literal c) = []
extra_bits (copy len pos) = position_bits pos

abbrev tokens_bits : Huff → List Token → List Bool
tokens_bits h [] = []
tokens_bits h (t ∷ ts) =
    char_bits h (char_of t) ++ (extra_bits t ++ tokens_bits (update (char_of t) h) ts)

pub char_of-lt : (t : Token) → IsToken t → char_of t < char_count
char_of-lt (literal c) p = omega arith
char_of-lt (copy len pos) p = omega arith

pub size_of-pos : (t : Token) → IsToken t → 1 ≤ size_of t
size_of-pos (literal c) p = omega arith
size_of-pos (copy len pos) p = omega arith

pub put_token-IsWritten :
    (t : Token) (n : ℕ) (h : Huff) (w : BitWriter) (bits : List Bool)
    → Tree h n
    → n < 4181
    → IsToken t
    → IsWritten w bits
    → (w' : BitWriter) × (put_token t h w ≡ some (update (char_of t) h, w'))
      × IsWritten w' (bits ++ (char_bits h (char_of t) ++ extra_bits t))
unfolding put_token
put_token-IsWritten (literal c) n h w bits v p q s =
    let (w', made, v') = encode_char-IsWritten c n h w bits v p (omega arith) s in
    (w', made, subst (λ b. IsWritten w' (bits ++ b)) (sym (append-nil (char_bits h c))) v')
put_token-IsWritten (copy len pos) n h w bits v p q s =
    let c : ℕ = 255 - threshold + len in
    let (w1, made, v1) = encode_char-IsWritten c n h w bits v p (omega arith) s in
    let (w2, placed, v2) =
      encode_position-IsWritten pos w1 (bits ++ char_bits h c) (omega arith) v1 in
    (
      w2,
      ap (λ o. o >>= λ x. encode_position pos x.1 >>= λ y. some (x.0, y)) made
          ∙ ap (λ o. o >>= λ y. some (update c h, y)) placed,
      subst (IsWritten w2) (append_assoc bits (char_bits h c) (position_bits pos)) v2,
    )

put_tokens-IsWritten :
    (ts : List Token) (n : ℕ) (h : Huff) (w : BitWriter) (bits : List Bool)
    → Tree h n
    → n + length ts ≤ 4181
    → All IsToken ts
    → IsWritten w bits
    → (h' : Huff) × (w' : BitWriter) × (put_tokens ts h w ≡ some (h', w'))
      × IsWritten w' (bits ++ tokens_bits h ts)
unfolding put_tokens
put_tokens-IsWritten [] n h w bits v p q s =
    (h, w, refl, subst (IsWritten w) (sym (append-nil bits)) s)
put_tokens-IsWritten (t ∷ ts) n h w bits v p q s =
    let c : ℕ = char_of t in
    let (w1, made, v1) = put_token-IsWritten t n h w bits v (omega arith) q.0 s in
    let (h2, w2, rest, v2) =
      put_tokens-IsWritten ts (n + 1) (update c h) w1 (bits ++ (char_bits h c ++ extra_bits t))
        (update-Tree h n c v (omega arith) (char_of-lt t q.0)) (omega arith) q.1 v1 in
    (
      h2,
      w2,
      ap (λ o. o >>= λ next. put_tokens ts next.0 next.1) made ∙ rest,
      subst (IsWritten w2)
          (append_assoc bits (char_bits h c ++ extra_bits t) (tokens_bits (update c h) ts)
            ∙ ap (◌++◌ bits)
                (append_assoc (char_bits h c) (extra_bits t) (tokens_bits (update c h) ts)))
          v2,
    )

length-copied : (k i : ℕ) (text : Bytes) → length (copied k i text) ≡ k + length text
length-copied zero i text = omega arith
length-copied (suc k) i text = omega (arith, length-copied k i (back text i ∷ text))

length-expand_token :
    (t : Token) (text : Bytes) → length (expand_token t text) ≡ size_of t + length text
length-expand_token (literal c) text = omega arith
length-expand_token (copy len pos) text = length-copied len pos text

-- One round reads one token.
record Read (t : Token) (total : ℕ) (h : Huff) (br : BitReader) (s : Ring) (text : Bytes)
    (rest : List Bool) : Type 0 where
  reader : BitReader
  ring : Ring
  same : decode_round total h br s ≡ some (update (char_of t) h, reader, ring)
  ready : IsReady reader rest
  holds : Holds ring (expand_token t text)

decode_round-Read :
    (t : Token) (n total : ℕ) (h : Huff) (br : BitReader) (s : Ring) (text : Bytes)
    (rest : List Bool)
    → Tree h n
    → IsToken t
    → IsReady br (char_bits h (char_of t) ++ (extra_bits t ++ rest))
    → Holds s text
    → s.count + size_of t ≤ total
    → Read t total h br s text rest
unfolding decode_round
decode_round-Read (literal c) n total h br s text rest v p q r e =
    let (br', ready, got) = decode_char-char_bits c n h br rest v (omega arith) q in
    let small : ltb c 256 ≡ true = ground arith in
    record {
      reader = br';
      ring = put_byte c s;
      same = rw (got) (rw small refl);
      ready = ready;
      holds = put_byte-Holds s text c r;
    }
decode_round-Read (copy len pos) n total h br s text rest v p q r e =
    let c : ℕ = 255 - threshold + len in
    let (br1, ready1, got) =
      decode_char-char_bits c n h br (position_bits pos ++ rest) v (omega arith) q in
    let (br2, placed, ready2) = decode_position-position_bits pos br1 rest (omega arith) ready1 in
    let large : ltb c 256 ≡ false = ground arith in
    let long : c - 255 + threshold ≡ len = omega arith in
    record {
      reader = br2;
      ring = copy_loop len total (place_of s.r pos) s;
      same = rw (got) (rw large (rw placed (rw long refl)));
      ready = ready2;
      holds = copy_loop-Holds len total pos (place_of s.r pos) s text p.2 refl e r;
    }

decode_loop-expand :
    (ts : List Token) (f n total : ℕ) (h : Huff) (br : BitReader) (s : Ring) (text : Bytes)
    (pad : List Bool)
    → Tree h n
    → n + length ts ≤ 4181
    → All IsToken ts
    → IsReady br (tokens_bits h ts ++ pad)
    → Holds s text
    → s.count + size ts ≡ total
    → length ts < f
    → decode_loop f total h br s ≡ some (reverse (expand ts text))
unfolding decode_loop
decode_loop-expand ts zero n total h br s text pad v p a q r e k = absurd (omega arith)
decode_loop-expand [] (suc f) n total h br s text pad v p a q r e k =
    let full : leb total s.count ≡ true = ground arith in rw full (ap some r.written)
decode_loop-expand (t ∷ ts) (suc f) n total h br s text pad v p a q r e k =
    let c : ℕ = char_of t in
    let some' : 1 ≤ size_of t = size_of-pos t a.0 in
    let open' : leb total s.count ≡ false = ground arith in
    let one =
      decode_round-Read t n total h br s text (tokens_bits (update c h) ts ++ pad) v a.0
        (subst (IsReady br)
          (append_assoc (char_bits h c) (extra_bits t ++ tokens_bits (update c h) ts) pad
            ∙ ap (◌++◌ (char_bits h c))
                (append_assoc (extra_bits t) (tokens_bits (update c h) ts) pad))
          q)
        r (omega arith) in
    rw open' (
      ap (λ o. o >>= λ next. decode_loop f total next.0 next.1 next.2) one.same
      ∙ decode_loop-expand ts f (n + 1) total (update c h) one.reader one.ring (expand_token t text)
          pad (update-Tree h n c v (omega arith) (char_of-lt t a.0)) (omega arith) a.1 one.ready
          one.holds (omega (arith, one.holds.counted, r.counted, length-expand_token t text))
          (omega arith))

length-le-size : (ts : List Token) → All IsToken ts → length ts ≤ size ts
length-le-size [] p = omega arith
length-le-size (t ∷ ts) p = omega (arith, length-le-size ts p.1, size_of-pos t p.0)

-- Up to 3867 tokens (bytes, and matches of 3 to 60 bytes whose position is below 2048) can all be
-- written, and decoding the flushed stream, asked for the number of bytes that they stand for, gives
-- the text that they stand for: each match repeats the bytes that many places back in the text
-- itself, before which come 1988 blanks and zeros.
pub lzss_decode-put_tokens :
    (ts : List Token)
    → All IsToken ts
    → length ts ≤ 3867
    → (h : Huff) × (w : BitWriter) × (put_tokens ts start new_writer ≡ some (h, w))
      × (lzss_decode (flush w).out (size ts) ≡ some (reverse (expand ts [])))
unfolding lzss_decode
lzss_decode-put_tokens ts p q =
    let (h, w, made, v) =
      put_tokens-IsWritten ts char_count start new_writer [] start-Tree (omega arith) p
        new_writer-IsWritten in
    let (pad, same) = flush-IsWritten w (tokens_bits start ts) v in
    (
      h,
      w,
      made,
      decode_loop-expand ts (size ts + 1) char_count (size ts) start (new_reader (flush w).out)
          first_ring [] pad start-Tree (omega arith) p
          (subst (IsReady (new_reader (flush w).out)) same (new_reader-IsReady (flush w).out))
          first_ring-Holds (omega arith) (omega (arith, length-le-size ts p)),
    )
