-- ===== src/Lzhuf/Compress/Rounds.antt =====
-- The main loop of the encoder writes tokens that stand for the source.
use kp4pra.Prelude.{
  List, [], All, some, ◌∙◌, length-append, length-drop, drop, take-append-drop, ◌-◌, ◌+◌, ◌==◌,
  Bool, ◌<◌,
}
use mathlib.Core.Path.{subst}
use kp4pra.Prelude.Maybe.{◌>>=◌}
use kp4pra.Lzhuf.Bits.Writing.{IsWritten}
use kp4pra.Lzhuf.Bits.{BitWriter}
use kp4pra.Lzhuf.Huffman.Codes.{char_bits}
use kp4pra.Lzhuf.Huffman.Updating.{update-Tree}
use kp4pra.Lzhuf.Huffman.Weights.{Tree}
use kp4pra.Lzhuf.Huffman.{Huff, update}
use kp4pra.Lzhuf.Token.{Token, put_token, put_tokens}
use kp4pra.Lzhuf.Decode.Tokens.{expand, size, char_of, char_of-lt, extra_bits, put_token-IsWritten}
use kp4pra.Lzhuf.Compress.Advance.{advance-Advanced}
use kp4pra.Lzhuf.Compress.{Coder, advance, encode_round, encode_loop}
use kp4pra.Prelude.{
  ℕ, zero, suc, ◌+◌, ◌≤◌, ◌<◌, ◌≡◌, inl, inr, refl, sym, ap, ◌∙◌, Bool-cases, [], ◌∷◌, ◌++◌, Bytes,
  arith, length, take, leb,
}
use kp4pra.Lzhuf.Tables.{threshold}
use kp4pra.Lzhuf.Token.{Token, literal, copy, IsToken}
use kp4pra.Lzhuf.Decode.Tokens.{expand_token, size_of}
use kp4pra.Lzhuf.Compress.{Coder, cut_length, next_token, token_length}
use kp4pra.Lzhuf.Compress.Copies.{nth, pushed, future_at, copied-ahead}
use kp4pra.Lzhuf.Compress.Sliding.{Sliding}

take-within : (k : ℕ) (xs ys : Bytes) → k ≤ length xs → take k (xs ++ ys) ≡ take k xs
take-within zero xs ys p = refl
take-within (suc k) [] ys p = absurd (omega arith)
take-within (suc k) (x ∷ xs) ys p = ap (◌∷◌ x) (take-within k xs ys (omega arith))

-- The token stands for the first `k` bytes ahead.
record Means (t : Token) (k : ℕ) (behind ahead : Bytes) : Type 0 where
  valid : IsToken t
  meaning : expand_token t behind ≡ pushed (take k ahead) behind
  sized : size_of t ≡ k
  some_bytes : 1 ≤ k
  enough : k ≤ length ahead

take-one : (ahead : Bytes) → 1 ≤ length ahead → take 1 ahead ≡ nth ahead 0 ∷ []
take-one [] p = absurd (omega arith)
take-one (b ∷ ahead) p = refl

module _ {f : ℕ} {z : Coder} {behind ahead : Bytes} (v : Sliding f z behind ahead)
    (some_left : 1 ≤ length ahead) where
  literal-Means : Means (literal (z.dict.text_buf z.r)) 1 behind ahead
  literal-Means =
      let e : z.r + 0 ≡ z.r = omega arith in
      let first : z.dict.text_buf z.r ≡ nth ahead 0 =
        ap z.dict.text_buf (sym e) ∙ future_at v.rings 0 some_left in
      record {
        valid = v.searches.bytes z.r v.rings.inside;
        meaning =
            ap (λ c. c ∷ behind) first ∙ ap (λ s. pushed s behind) (sym (take-one ahead some_left));
        sized = refl;
        some_bytes = omega arith;
        enough = some_left;
      }

  copy-Means :
      threshold < cut_length z
      → Means (copy (cut_length z) z.dict.match_position) (cut_length z) behind ahead
  copy-Means long =
      let best = v.best some_left in
      let short : (cut_length z ≤ z.dict.match_length) × (cut_length z ≤ length ahead) =
        ground (arith, v.counted) in
      let (q, low, near, other, at, equal) = best.found (omega (arith, long, short)) in
      record {
        valid = (long, omega (arith, short, best.short), omega (arith, at));
        meaning =
            copied-ahead v.rings q z.dict.match_position (cut_length z) low near other at short.1
              (λ j l. equal j (omega (arith, l, short)));
        sized = refl;
        some_bytes = omega (arith, long);
        enough = short.1;
      }

  next-Means : Means (next_token z) (token_length z) behind ahead
  next-Means = elim (Bool-cases (leb (cut_length z) threshold)) [
    | inl one ↦ rw one literal-Means
    | inr more ↦ rw more (copy-Means (ground arith))
  ]

pushed-append : (s t text : Bytes) → pushed (s ++ t) text ≡ pushed t (pushed s text)
pushed-append [] t text = refl
pushed-append (b ∷ s) t text = pushed-append s t (b ∷ text)

-- What a part of the main loop has written, for the bytes `row`.
pub record Encodes (z z' : Coder) (behind row : Bytes) : Type 0 where
  pub tokens : List Token
  pub written : put_tokens tokens z.huff z.bw ≡ some (z'.huff, z'.bw)
  pub valid : All IsToken tokens
  pub meaning : expand tokens behind ≡ pushed row behind
  pub sized : size tokens ≡ length row
  pub few : length tokens ≤ length row

recoded-Sliding :
    (f : ℕ) (z : Coder) (behind ahead : Bytes) (h : Huff) (w : BitWriter)
    → Sliding f z behind ahead
    → Sliding f (record z { huff = h; bw = w }) behind ahead
recoded-Sliding f z behind ahead h w v = record {
  rings = v.rings;
  place = v.place;
  counted = v.counted;
  whole = v.whole;
  b = v.b;
  searches = v.searches;
  fuel = v.fuel;
  src_bytes = v.src_bytes;
  best = v.best;
}

nothing_left :
    (f : ℕ) (z : Coder) (behind ahead row : Bytes)
    → Sliding f z behind ahead
    → ahead ++ z.src ≡ row
    → length ahead ≡ 0
    → row ≡ []
nothing_left f z behind [] row v e p = elim v.whole [
  | inl empty ↦ sym e ∙ empty
  | inr all ↦ absurd (omega (arith, all))
]
nothing_left f z behind (b ∷ ahead) row v e p = absurd (omega arith)

-- One round, and the rest of the row behind it.
record Round (f : ℕ) (z z' : Coder) (n : ℕ) (behind row : Bytes) : Type 0 where
  token : Token
  k : ℕ
  ahead : Bytes
  bits : List Bool
  sliding : Sliding f z' (pushed (take k row) behind) ahead
  left : ahead ++ z'.src ≡ drop k row
  tree : Tree z'.huff (n + 1)
  written : IsWritten z'.bw bits
  put : put_token token z.huff z.bw ≡ some (z'.huff, z'.bw)
  valid : IsToken token
  meaning : expand_token token behind ≡ pushed (take k row) behind
  sized : size_of token ≡ k
  some_bytes : 1 ≤ k
  enough : k ≤ length row

encode_round-Round :
    (f n : ℕ) (z : Coder) (behind ahead row : Bytes) (bits : List Bool)
    → Sliding f z behind ahead
    → ahead ++ z.src ≡ row
    → 1 ≤ length ahead
    → Tree z.huff n
    → n < 4181
    → IsWritten z.bw bits
    → (z' : Coder) × (encode_round f z ≡ some z') × Round f z z' n behind row
unfolding encode_round
encode_round-Round f n z behind ahead row bits v e some_left tree light written =
    let t : Token = next_token z in
    let k : ℕ = token_length z in
    let m = next-Means v some_left in
    let (w, made, written') = put_token-IsWritten t n z.huff z.bw bits tree light m.valid written in
    let h : Huff = update (char_of t) z.huff in
    let fits : k ≤ length row = omega (arith, ap length e, length-append ahead z.src, m.enough) in
    let (z', moved, u) =
      advance-Advanced k f (record z { huff = h; bw = w }) behind ahead row
        (recoded-Sliding f z behind ahead h w v) e fits in
    (
      z',
      ap (λ o. o >>= λ x. advance k f (record z { huff = x.0; bw = x.1 })) made ∙ moved,
      record {
        token = t;
        k = k;
        ahead = u.ahead;
        bits = bits ++ (char_bits z.huff (char_of t) ++ extra_bits t);
        sliding = u.sliding;
        left = u.left;
        tree =
            subst (λ x. Tree x (n + 1)) (sym u.same.0)
              (update-Tree z.huff n (char_of t) tree (omega arith) (char_of-lt t m.valid));
        written =
            subst (λ x. IsWritten x (bits ++ (char_bits z.huff (char_of t) ++ extra_bits t)))
              (sym u.same.1) written';
        put =
            made
            ∙ ap (λ x. some (x, w)) (sym u.same.0)
            ∙ ap (λ y. some (z'.huff, y)) (sym u.same.1);
        valid = m.valid;
        meaning =
            m.meaning
            ∙ ap (λ s. pushed s behind) (sym (take-within k ahead z.src m.enough) ∙ ap (take k) e);
        sized = m.sized;
        some_bytes = m.some_bytes;
        enough = fits;
      },
    )

pub encode_loop-Encodes :
    (c f n : ℕ) (z : Coder) (behind ahead row : Bytes) (bits : List Bool)
    → Sliding f z behind ahead
    → ahead ++ z.src ≡ row
    → Tree z.huff n
    → n + length row ≤ 4181
    → IsWritten z.bw bits
    → length row < c
    → (z' : Coder) × (encode_loop c f z ≡ some z') × Encodes z z' behind row
unfolding encode_loop put_tokens
encode_loop-Encodes zero f n z behind ahead row bits v e tree light written p = absurd (omega arith)
encode_loop-Encodes (suc c) f n z behind ahead row bits v e tree light written p =
    elim (Bool-cases (z.length == 0)) [
      | inl end ↦
          let none' = nothing_left f z behind ahead row v e (ground (arith, v.counted, end)) in
          (
            z,
            rw end refl,
            record {
              tokens = [];
              written = refl;
              valid = tt;
              meaning = ap (λ s. pushed s behind) (sym none');
              sized = ap length (sym none');
              few = omega arith;
            },
          )
      | inr on ↦
          let some_left : 1 ≤ length ahead = ground (arith, v.counted, on) in
          let long : 1 ≤ length row =
            omega (arith, ap length e, length-append ahead z.src, some_left) in
          let (z1, step, u) =
            encode_round-Round f n z behind ahead row bits v e some_left tree
              (omega (arith, long, light)) written in
          let rest : length (drop u.k row) ≡ length row - u.k = length-drop u.k row in
          let (z2, steps, x) =
            encode_loop-Encodes c f (n + 1) z1 (pushed (take u.k row) behind) u.ahead (drop u.k row)
              u.bits u.sliding u.left u.tree (omega (arith, light, rest, u.some_bytes, u.enough))
              u.written (omega (arith, p, rest, u.some_bytes, u.enough)) in
          (
            z2,
            rw on (ap (λ o. o >>= encode_loop c f) step ∙ steps),
            record {
              tokens = u.token ∷ x.tokens;
              written = ap (λ o. o >>= λ y. put_tokens x.tokens y.0 y.1) u.put ∙ x.written;
              valid = (u.valid, x.valid);
              meaning =
                  ap (expand x.tokens) u.meaning
                  ∙ x.meaning
                  ∙ sym (pushed-append (take u.k row) (drop u.k row) behind)
                  ∙ ap (λ s. pushed s behind) (take-append-drop u.k row);
              sized = omega (arith, u.sized, x.sized, rest, u.enough);
              few = omega (arith, x.few, rest, u.some_bytes, u.enough);
            },
          )
    ]
