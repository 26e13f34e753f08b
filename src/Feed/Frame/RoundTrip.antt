-- ===== src/Feed/Frame/RoundTrip.antt =====
-- A frame of the client, read back from the stream of its bytes.
use kp4pra.Feed.Frame.Coding.{
  IsByte, masked-masked, length-masked, be_value-be_bytes, length-be_bytes, op_bits, length_bits,
}
use kp4pra.Prelude.{◌^◌}
use kp4pra.Prelude.{
  ℕ, ◌≤◌, ◌<◌, ◌≡◌, inl, inr, refl, sym, ap, ◌∙◌, append_assoc, false, Bool-cases, Option, [], ◌∷◌,
  ◌++◌, Bytes, arith, length, ltb, ◌==◌, bit_and, bit_or, All,
}
use mathlib.Core.Path.{subst}
use kp4pra.Feed.Socket.{Conn, stream, IsFed, Reads, reads, read_exact, read_exact-Reads}
use kp4pra.Feed.Frame.{
  masked, be_bytes, length_bytes, client_frame, max_frame, Received, frame, unmasked_frame,
  read_masked, read_payload, read_long, read_length, read_head, read_frame,
}

-- `read_frame` gives this operation and payload, and leaves the rest of the stream.
pub data Frames (op : ℕ) (payload rest : Bytes) : Received → Type 0 where
  frames :
      (c : Conn) → stream c ≡ rest → IsFed c.chunks → Frames op payload rest (frame op payload c)

module _ (op : ℕ) (mask payload rest : Bytes) (four : length mask ≡ 4)
    (mask_bytes : All IsByte mask) (bytes : All IsByte payload)
    (small : length payload ≤ max_frame) where
  masked_payload :
      (o : Option (Bytes × Conn))
      → Reads (masked mask 0 payload) rest o
      → Frames op payload rest (unmasked_frame op mask o)
  unfolding unmasked_frame
  masked_payload o (reads c e fed) =
      subst (λ p. Frames op payload rest (frame op p c))
        (sym (masked-masked mask 0 payload mask_bytes bytes)) (frames c e fed)

  after_mask :
      (o : Option (Bytes × Conn))
      → Reads mask (masked mask 0 payload ++ rest) o
      → Frames op payload rest (read_masked op (length payload) o)
  unfolding read_masked
  after_mask o (reads c e fed) = masked_payload (read_exact (length payload) c) (
      subst (λ n. Reads (masked mask 0 payload) rest (read_exact n c))
        (length-masked mask 0 payload) (read_exact-Reads (masked mask 0 payload) rest c e fed))

  after_length :
      (h : ℕ) (c : Conn)
      → bit_and h 0x80 ≡ 0x80
      → stream c ≡ mask ++ (masked mask 0 payload ++ rest)
      → IsFed c.chunks
      → Frames op payload rest (read_payload op h (length payload) c)
  unfolding read_payload
  after_length h c bit e fed =
      let fits : ltb max_frame (length payload) ≡ false = ground arith in
      rw (fits, bit)
        (after_mask (read_exact 4 c) (
          subst (λ n. Reads mask (masked mask 0 payload ++ rest) (read_exact n c)) four
            (read_exact-Reads mask (masked mask 0 payload ++ rest) c e fed)))

  after_long :
      (h k : ℕ) (o : Option (Bytes × Conn))
      → bit_and h 0x80 ≡ 0x80
      → length payload < 256 ^ k
      → Reads (be_bytes k (length payload)) (mask ++ (masked mask 0 payload ++ rest)) o
      → Frames op payload rest (read_long op h o)
  unfolding read_long
  after_long h k o bit room (reads c e fed) =
      subst (λ n. Frames op payload rest (read_payload op h n c))
        (sym (be_value-be_bytes k (length payload) room)) (after_length h c bit e fed)

  -- What follows the first byte.
  abbrev masked_rest : Bytes
  masked_rest = mask ++ (masked mask 0 payload ++ rest)

  after_head :
      (o : Option (Bytes × Conn)) (h k : ℕ) (more : Bytes)
      → op < 16
      → h ≡ bit_or 0x80 op
      → Reads (h ∷ k ∷ []) more o
      → ((c : Conn)
          → stream c ≡ more
          → IsFed c.chunks
          → Frames op payload rest (read_length op k c))
      → Frames op payload rest (read_head o)
  unfolding read_head
  after_head o h k more legal q (reads c e fed) next =
      let named : bit_and h 0x0F ≡ op = ap (λ h. bit_and h 0x0F) q ∙ op_bits op legal in
      subst (λ p. Frames op payload rest (read_length p k c)) (sym named) (next c e fed)

  short_length :
      (c : Conn)
      → length payload < 126
      → stream c ≡ masked_rest
      → IsFed c.chunks
      → Frames op payload rest (read_length op (bit_or 0x80 (length payload)) c)
  unfolding read_length
  short_length c short e fed =
      let bits = length_bits (length payload) (omega arith) in
      let a : (bit_and (bit_or 0x80 (length payload)) 0x7F == 126) ≡ false = ground (arith, bits) in
      let b : (bit_and (bit_or 0x80 (length payload)) 0x7F == 127) ≡ false = ground (arith, bits) in
      rw (a, b)
        (subst (λ n. Frames op payload rest (read_payload op (bit_or 0x80 (length payload)) n c))
          (sym bits.0) (after_length (bit_or 0x80 (length payload)) c bits.1 e fed))

  two_length :
      (c : Conn)
      → length payload < 65536
      → stream c ≡ be_bytes 2 (length payload) ++ masked_rest
      → IsFed c.chunks
      → Frames op payload rest (read_length op (bit_or 0x80 126) c)
  unfolding read_length
  two_length c room e fed = after_long (bit_or 0x80 126) 2 (read_exact 2 c) refl (omega arith) (
      subst (λ n. Reads (be_bytes 2 (length payload)) masked_rest (read_exact n c))
        (length-be_bytes 2 (length payload))
        (read_exact-Reads (be_bytes 2 (length payload)) masked_rest c e fed))

  eight_length :
      (c : Conn)
      → stream c ≡ be_bytes 8 (length payload) ++ masked_rest
      → IsFed c.chunks
      → Frames op payload rest (read_length op (bit_or 0x80 127) c)
  unfolding read_length
  eight_length c e fed = after_long (bit_or 0x80 127) 8 (read_exact 8 c) refl (omega arith) (
      subst (λ n. Reads (be_bytes 8 (length payload)) masked_rest (read_exact n c))
        (length-be_bytes 8 (length payload))
        (read_exact-Reads (be_bytes 8 (length payload)) masked_rest c e fed))

  -- The frame of the client, with the bytes behind it grouped to the right.
  regrouped :
      client_frame op mask payload ++ rest
      ≡ bit_or 0x80 op ∷ (length_bytes (length payload) ++ masked_rest)
  unfolding client_frame
  regrouped = ap (◌∷◌ (bit_or 0x80 op)) (
      append_assoc (length_bytes (length payload)) (mask ++ masked mask 0 payload) rest
      ∙ ap (λ t. length_bytes (length payload) ++ t)
          (append_assoc mask (masked mask 0 payload) rest))

  -- A frame of at most 2^20 bytes that the client sends under any mask of four bytes is read back whole
  -- by `read_frame`, with its operation, wherever the socket cuts the bytes into chunks, and what comes
  -- behind the frame stays to be read.
  pub read_frame-client_frame :
      (c : Conn)
      → op < 16
      → stream c ≡ client_frame op mask payload ++ rest
      → IsFed c.chunks
      → Frames op payload rest (read_frame c)
  unfolding read_frame length_bytes
  read_frame-client_frame c legal e fed = elim (Bool-cases (ltb (length payload) 126)) [
    | inl short ↦
        after_head (read_exact 2 c) (bit_or 0x80 op) (bit_or 0x80 (length payload)) masked_rest
          legal refl
          (read_exact-Reads (bit_or 0x80 op ∷ bit_or 0x80 (length payload) ∷ []) masked_rest c
            (e ∙ (regrouped ∙ rw short refl)) fed)
          (λ c' e' fed'. short_length c' (ground arith) e' fed')
    | inr long ↦ elim (Bool-cases (ltb (length payload) 65536)) [
      | inl two ↦
          after_head (read_exact 2 c) (bit_or 0x80 op) (bit_or 0x80 126)
            (be_bytes 2 (length payload) ++ masked_rest) legal refl
            (read_exact-Reads (bit_or 0x80 op ∷ bit_or 0x80 126 ∷ [])
              (be_bytes 2 (length payload) ++ masked_rest) c (e ∙ (regrouped ∙ rw (long, two) refl))
              fed)
            (λ c' e' fed'. two_length c' (ground arith) e' fed')
      | inr eight ↦
          after_head (read_exact 2 c) (bit_or 0x80 op) (bit_or 0x80 127)
            (be_bytes 8 (length payload) ++ masked_rest) legal refl
            (read_exact-Reads (bit_or 0x80 op ∷ bit_or 0x80 127 ∷ [])
              (be_bytes 8 (length payload) ++ masked_rest) c
              (e ∙ (regrouped ∙ rw (long, eight) refl)) fed)
            (λ c' e' fed'. eight_length c' e' fed')
    ]
  ]
