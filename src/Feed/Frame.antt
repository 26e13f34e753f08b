-- ===== src/Feed/Frame.antt =====
-- src/tft/xara_feed.py: `_frame` and `read_frame`. The four random bytes of the mask are an argument.
pub mod Coding
pub mod RoundTrip
use kp4pra.Prelude.{
  ℕ, zero, suc, ◌+◌, ◌-◌, ◌*◌, ◌/◌, ◌%◌, ◌≤◌, ◌<◌, ◌≡◌, ◌≢◌, ◌⊎◌, inl, inr, refl, sym, ap, ◌∙◌,
  append_assoc, append-nil, Bool, true, false, not, ◌&&◌, ◌||◌, Bool-cases, Option, none, some,
  List, [], ◌∷◌, ◌++◌, Bytes, Text, codes, arith, length, take, drop, length-append, take-append,
  drop-append, ltb, leb, ◌==◌, if◌then◌else◌, is_nil, text_eq, get_elem?, bit_and, bit_or, bit_xor,
  ==_iff, all_below_sound, map, All,
}
use kp4pra.Feed.Socket.{Conn, read_exact}

-- `mask[i % 4]`; a mask of four bytes has it.
unfoldable pub mask_at : Bytes → ℕ → ℕ
mask_at mask i = elim (get_elem? mask (i % 4)) [ none ↦ 0 | some m ↦ m ]

-- `bytes(b ^ mask[i % 4] for i, b in enumerate(payload))`, from index `i` on.
unfoldable pub masked : Bytes → ℕ → Bytes → Bytes
unfolding mask_at
masked mask i [] = []
masked mask i (b ∷ s) = bit_xor b (mask_at mask i) ∷ masked mask (i + 1) s

-- `struct.pack` of a number in `k` bytes, the highest first.
unfoldable pub be_bytes : ℕ → ℕ → Bytes
be_bytes zero n = []
be_bytes (suc k) n = be_bytes k (n / 256) ++ n % 256 ∷ []

unfoldable pub be_from : ℕ → Bytes → ℕ
be_from n [] = n
be_from n (b ∷ s) = be_from (n * 256 + b) s

-- `struct.unpack`
unfoldable pub be_value : Bytes → ℕ
unfolding be_from
be_value s = be_from 0 s

unfoldable pub length_bytes : ℕ → Bytes
length_bytes n =
    if ltb n 126
    then bit_or 0x80 n ∷ []
    else if ltb n 65536
    then bit_or 0x80 126 ∷ be_bytes 2 n
    else bit_or 0x80 127 ∷ be_bytes 8 n

unfoldable pub client_frame : ℕ → Bytes → Bytes → Bytes
client_frame op mask payload =
    bit_or 0x80 op ∷ (length_bytes (length payload) ++ (mask ++ masked mask 0 payload))

abbrev pub max_frame : ℕ
max_frame = 1048576

-- What `read_frame` returns, or one of its two errors.
pub data Received : Type 0 where
  frame : ℕ → Bytes → Conn → Received
  lost : Received
  too_large : ℕ → Received

unfoldable pub whole_frame : ℕ → Option (Bytes × Conn) → Received
whole_frame op none = lost
whole_frame op (some (payload, c)) = frame op payload c

unfoldable pub unmasked_frame : ℕ → Bytes → Option (Bytes × Conn) → Received
unmasked_frame op mask none = lost
unmasked_frame op mask (some (payload, c)) = frame op (masked mask 0 payload) c

unfoldable pub read_masked : ℕ → ℕ → Option (Bytes × Conn) → Received
read_masked op n none = lost
read_masked op n (some (mask, c)) = unmasked_frame op mask (read_exact n c)

-- From `if n > MAX_FRAME` on.
unfoldable pub read_payload : ℕ → ℕ → ℕ → Conn → Received
read_payload op h n c =
    if ltb max_frame n
    then too_large n
    else if bit_and h 0x80 == 0
    then whole_frame op (read_exact n c)
    else read_masked op n (read_exact 4 c)

-- The length in two or eight bytes.
unfoldable pub read_long : ℕ → ℕ → Option (Bytes × Conn) → Received
read_long op h none = lost
read_long op h (some (s, c)) = read_payload op h (be_value s) c

unfoldable pub read_length : ℕ → ℕ → Conn → Received
read_length op h c =
    if bit_and h 0x7F == 126
    then read_long op h (read_exact 2 c)
    else if bit_and h 0x7F == 127
    then read_long op h (read_exact 8 c)
    else read_payload op h (bit_and h 0x7F) c

unfoldable pub read_head : Option (Bytes × Conn) → Received
read_head (some (h ∷ k ∷ [], c)) = read_length (bit_and h 0x0F) k c
read_head _ = lost

unfoldable pub read_frame : Conn → Received
read_frame c = read_head (read_exact 2 c)
