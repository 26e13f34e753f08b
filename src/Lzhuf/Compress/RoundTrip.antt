-- ===== src/Lzhuf/Compress/RoundTrip.antt =====
-- What is compressed is decompressed again.
use kp4pra.Prelude.{refl, ◌∷◌, append-nil, append_assoc, ltb, if◌then◌else◌, none}
use kp4pra.Lzhuf.Token.{IsToken}
use kp4pra.Prelude.{
  ℕ, ◌+◌, ◌*◌, ◌≤◌, ◌<◌, ◌≡◌, refl, sym, ap, ◌∙◌, append_assoc, append-nil, true, Option, none,
  some, List, [], ◌∷◌, ◌++◌, Bytes, arith, length, take, ltb, if◌then◌else◌, All,
}
use mathlib.Core.Path.{subst}
use mathlib.Core.List.{reverse, reverse-cons}
use kp4pra.Prelude.Maybe.{◌>>=◌}
use kp4pra.Lzhuf.Tables.{char_count, max_match}
use kp4pra.Lzhuf.Bits.{BitWriter, new_writer, flush}
use kp4pra.Lzhuf.Bits.Writing.{IsWritten, new_writer-IsWritten}
use kp4pra.Lzhuf.Huffman.{Huff, start}
use kp4pra.Lzhuf.Huffman.Weights.{Tree}
use kp4pra.Lzhuf.Huffman.Starting.{start-Tree}
use kp4pra.Lzhuf.Token.{Token, put_tokens}
use kp4pra.Lzhuf.Decode.Tokens.{expand, size}
use kp4pra.Lzhuf.Envelope.{le_bytes, envelope, text, decompress}
use kp4pra.Lzhuf.Envelope.Sealed.{decompress-put_tokens}
use kp4pra.Lzhuf.Compress.{encode_loop, lzss_encode, compress}
use kp4pra.Lzhuf.Compress.Copies.{pushed}
use kp4pra.Lzhuf.Compress.Begin.{first_coder-Sliding}
use kp4pra.Lzhuf.Compress.Rounds.{encode_loop-Encodes}

reverse-pushed : (s done : Bytes) → reverse (pushed s done) ≡ reverse done ++ s
reverse-pushed [] done = sym (append-nil (reverse done))
reverse-pushed (b ∷ s) done =
    reverse-pushed s (b ∷ done)
    ∙ ap (λ x. x ++ s) (reverse-cons b done)
    ∙ append_assoc (reverse done) (b ∷ []) s

same_writer :
    (h h' : Huff) (w w' : BitWriter)
    → ◌≡◌ {A = Option (Huff × BitWriter)} (some (h, w)) (some (h', w'))
    → w ≡ w'
same_writer h h' w w' e = cc e

-- The stream is that of the tokens, which stand for the source.
record Streams (src body : Bytes) : Type 0 where
  tokens : List Token
  valid : All IsToken tokens
  few : length tokens ≤ 3867
  h : Huff
  w : BitWriter
  written : put_tokens tokens start new_writer ≡ some (h, w)
  out : body ≡ (flush w).out
  meaning : expand tokens [] ≡ pushed src []
  sized : size tokens ≡ length src

no_tokens : put_tokens [] start new_writer ≡ some (start, new_writer)
unfolding put_tokens
no_tokens = λ i. some (start, new_writer)

lzss_encode-Streams :
    (src : Bytes)
    → All (λ c. c < 256) src
    → length src ≤ 3867
    → (body : Bytes) × (lzss_encode src ≡ some body) × Streams src body
unfolding lzss_encode
lzss_encode-Streams [] p l = (
  (flush new_writer).out,
  refl,
  record {
    tokens = [];
    valid = tt;
    few = omega arith;
    h = start;
    w = new_writer;
    written = no_tokens;
    out = refl;
    meaning = refl;
    sized = refl;
  },
)
lzss_encode-Streams (c ∷ rest) p l =
    let src : Bytes = c ∷ rest in
    let f : ℕ = length src + 2 * max_match in
    let (z, made, v, row, huff, bw) = first_coder-Sliding f src p (omega arith) in
    let (z', steps, u) =
      encode_loop-Encodes (length src + 1) f char_count z [] (take max_match src) src [] v row
        (subst (λ h. Tree h char_count) (sym huff) start-Tree) (omega (arith, l))
        (subst (λ w. IsWritten w []) (sym bw) new_writer-IsWritten) (omega arith) in
    (
      (flush z'.bw).out,
      ap (λ o. o >>= encode_loop (length src + 1) f >>= λ y. some (flush y.bw).out) made
          ∙ ap (λ o. o >>= λ y. some (flush y.bw).out) steps,
      record {
        tokens = u.tokens;
        valid = u.valid;
        few = omega (arith, u.few, l);
        h = z'.huff;
        w = z'.bw;
        written =
            ap (λ x. put_tokens u.tokens x new_writer) (sym huff)
            ∙ ap (put_tokens u.tokens z.huff) (sym bw)
            ∙ u.written;
        out = refl;
        meaning = u.meaning;
        sized = u.sized;
      },
    )

-- Any bytes, at most 3867 of them, can be compressed (no search runs in circles and no code is longer
-- than 16 bits), and decompressing what comes out gives the same bytes back.
pub decompress-compress :
    (s : Bytes)
    → All (λ c. c < 256) s
    → length s ≤ 3867
    → (blob : Bytes) × (compress s ≡ some blob) × (decompress blob ≡ text s)
unfolding compress
decompress-compress s p l =
    let (body, made, v) = lzss_encode-Streams s p l in
    let (h, w, put, opened) = decompress-put_tokens v.tokens v.valid v.few in
    let same : (flush w).out ≡ body =
      ap (λ x. (flush x).out) (same_writer h v.h w v.w (sym put ∙ v.written)) ∙ sym v.out in
    let fits : ltb (length s) 0x100000000 ≡ true = ground (arith, l) in
    (
      envelope (le_bytes 4 (length s)) body,
      ap
            (λ o. o >>= λ b.
              (if ltb (length s) 0x100000000
                then some (envelope (le_bytes 4 (length s)) b)
                else none))
            made
          ∙ ap (λ c. if c then some (envelope (le_bytes 4 (length s)) body) else none) fits,
      ap (λ n. decompress (envelope (le_bytes 4 n) body)) (sym v.sized)
          ∙ ap (λ b. decompress (envelope (le_bytes 4 (size v.tokens)) b)) (sym same)
          ∙ opened
          ∙ ap (λ t. text (reverse t)) v.meaning
          ∙ ap text (reverse-pushed s []),
    )
