-- ===== src/Lzhuf/Envelope/Sealed.antt =====
-- What `decompress` makes of an envelope, whole or changed.
use kp4pra.Prelude.{
  ℕ, ◌*◌, ◌≤◌, ◌<◌, ◌≡◌, ◌≢◌, inl, inr, refl, sym, ap, ◌∙◌, true, false, Bool-cases, some, List, [],
  ◌∷◌, ◌++◌, Bytes, arith, length, take, drop, length-append, ltb, ◌==◌, if◌then◌else◌, ==_iff, All,
}
use kp4pra.Prelude.{take-append-drop}
use mathlib.Core.List.{reverse}
use kp4pra.Lzhuf.Bits.{BitWriter, new_writer, flush}
use kp4pra.Lzhuf.Huffman.{Huff, start}
use kp4pra.Lzhuf.Token.{Token, literal, copy, put_tokens, IsToken}
use kp4pra.Lzhuf.Crc.{crc16}
use kp4pra.Lzhuf.Crc.Detects.{crc16-changed, crc16-lt}
use kp4pra.Lzhuf.Decode.{lzss_decode}
use kp4pra.Lzhuf.Decode.Tokens.{size_of-pos, expand, size, size_of, lzss_decode-put_tokens}
use kp4pra.Lzhuf.Envelope.{le_bytes, le_value, envelope, text, crc_mismatch, decoded, decompress}

le_value-two : (n : ℕ) → n < 0x10000 → le_value (le_bytes 2 n) ≡ n
unfolding le_value le_bytes
le_value-two n p = omega arith

le_value-four : (n : ℕ) → n < 0x100000000 → le_value (le_bytes 4 n) ≡ n
unfolding le_value le_bytes
le_value-four n p = omega arith

-- The CRC that is stored is that of what follows.
abbrev pub IsSealed : Bytes → Type 0
IsSealed blob = crc16 (drop 2 blob) ≡ le_value (take 2 blob)

rest_of : (blob : Bytes) → take 4 (drop 2 blob) ++ drop 6 blob ≡ drop 2 blob
rest_of [] = refl
rest_of (c ∷ []) = refl
rest_of (c ∷ d ∷ t) = take-append-drop 4 t

decompress-open :
    (blob : Bytes)
    → 6 ≤ length blob
    → IsSealed blob
    → decompress blob ≡ (
        let n = le_value (take 4 (drop 2 blob)) in
        if n == 0 then text [] else decoded (lzss_decode (drop 6 blob) n))
unfolding decompress
decompress-open blob p e =
    let long : ltb (length blob) 6 ≡ false = ground arith in
    let good : (crc16 (take 4 (drop 2 blob) ++ drop 6 blob) == le_value (take 2 blob)) ≡ true =
      (==_iff (crc16 (take 4 (drop 2 blob) ++ drop 6 blob)) (le_value (take 2 blob))).1
        (ap crc16 (rest_of blob) ∙ e) in
    rw long (rw good refl)

decompress-refuses :
    (blob : Bytes)
    → 6 ≤ length blob
    → crc16 (drop 2 blob) ≢ le_value (take 2 blob)
    → decompress blob ≡ crc_mismatch
unfolding decompress
decompress-refuses blob p d =
    let long : ltb (length blob) 6 ≡ false = ground arith in
    elim (Bool-cases (crc16 (take 4 (drop 2 blob) ++ drop 6 blob) == le_value (take 2 blob))) [
      | inl same ↦ absurd (d (sym (ap crc16 (rest_of blob)) ∙ (==_iff _ _).0 same))
      | inr bad ↦ rw long (rw bad refl)
    ]

envelope-IsSealed : (four body : Bytes) → IsSealed (envelope four body)
unfolding envelope le_bytes
envelope-IsSealed four body = sym (le_value-two (crc16 (four ++ body)) (crc16-lt (four ++ body)))

decompress-envelope :
    (n : ℕ) (body : Bytes)
    → n < 0x100000000
    → decompress (envelope (le_bytes 4 n) body)
      ≡ (if n == 0 then text [] else decoded (lzss_decode body n))
unfolding envelope le_bytes
decompress-envelope n body p =
    decompress-open (envelope (le_bytes 4 n) body) (omega arith)
      (envelope-IsSealed (le_bytes 4 n) body)
    ∙ ap (λ m. if m == 0 then text [] else decoded (lzss_decode body m)) (le_value-four n p)

size_of-le : (t : Token) → IsToken t → size_of t ≤ 60
size_of-le (literal c) p = omega arith
size_of-le (copy len pos) p = p.1

size-le : (ts : List Token) → All IsToken ts → size ts ≤ 60 * length ts
size-le [] p = omega arith
size-le (t ∷ ts) p = omega (arith, size-le ts p.1, size_of-le t p.0)

nothing_out : (ts : List Token) → All IsToken ts → size ts ≡ 0 → ts ≡ []
nothing_out [] p e = refl
nothing_out (t ∷ ts) p e = absurd (omega (arith, size_of-pos t p.0))

-- Up to 3867 tokens (bytes, and matches of 3 to 60 bytes whose position is below 2048) can all be
-- written, from the first tree and an empty writer. Put into an envelope with the number of bytes
-- that they stand for, the flushed bytes are decompressed to the text that they stand for: a match
-- repeats, one byte after the other, what stands its position and one more places back in the text,
-- before which come 1988 blanks, and zeros before these.
pub decompress-put_tokens :
    (ts : List Token)
    → All IsToken ts
    → length ts ≤ 3867
    → (h : Huff) × (w : BitWriter) × (put_tokens ts start new_writer ≡ some (h, w))
      × (decompress (envelope (le_bytes 4 (size ts)) (flush w).out) ≡ text (reverse (expand ts [])))
unfolding decoded
decompress-put_tokens ts p q =
    let (h, w, made, e) = lzss_decode-put_tokens ts p q in
    let opened = decompress-envelope (size ts) (flush w).out (omega (arith, size-le ts p)) in
    (
      h,
      w,
      made,
      opened ∙ elim (Bool-cases (size ts == 0)) [
        | inl empty ↦
            rw empty
              (ap (λ u. text (reverse (expand u []))) (sym (nothing_out ts p (ground arith))))
        | inr full ↦ rw full (ap decoded e)
      ],
    )

-- In a stream of at least six bytes whose first two hold the CRC of the others, changing one byte to
-- another one, wherever it stands, makes `decompress` refuse it for its CRC. The new byte, the old one
-- and those behind it are numbers below 256.
pub decompress-changed :
    (a b : Bytes) (x y : ℕ)
    → All (λ c. c < 256) b
    → x < 256
    → y < 256
    → x ≢ y
    → 6 ≤ length (a ++ x ∷ b)
    → IsSealed (a ++ x ∷ b)
    → decompress (a ++ y ∷ b) ≡ crc_mismatch
unfolding le_value
decompress-changed [] [] x y p q r d l e = absurd (omega arith)
decompress-changed [] (c ∷ b) x y p q r d l e =
    decompress-refuses (y ∷ c ∷ b) l (λ f. d (omega (arith, e, f)))
decompress-changed (c ∷ []) b x y p q r d l e =
    decompress-refuses (c ∷ y ∷ b) l (λ f. d (omega (arith, e, f)))
decompress-changed (c ∷ c' ∷ a) b x y p q r d l e =
    decompress-refuses (c ∷ c' ∷ (a ++ y ∷ b))
      (omega (arith, length-append a (x ∷ b), length-append a (y ∷ b)))
      (λ f. crc16-changed a b x y p q r d (e ∙ sym f))
