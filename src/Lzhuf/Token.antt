-- ===== src/Lzhuf/Token.antt =====
-- src/web/lzhuf.py: what `_lzss_encode` writes for a byte or a match, with its own place in the text.
use kp4pra.Prelude.{ℕ, ◌+◌, ◌-◌, ◌≤◌, ◌<◌, Option, some, List, [], ◌∷◌}
use kp4pra.Prelude.Maybe.{◌>>=◌}
use kp4pra.Lzhuf.Tables.{ring_size, max_match, threshold}
use kp4pra.Lzhuf.Bits.{BitWriter}
use kp4pra.Lzhuf.Position.{encode_position}
use kp4pra.Lzhuf.Huffman.{Huff, encode_char}

-- A byte, or a match with its length and `match_position`.
pub data Token : Type 0 where
  literal : ℕ → Token
  copy : ℕ → ℕ → Token

unfoldable pub put_token : Token → Huff → BitWriter → Option (Huff × BitWriter)
put_token (literal c) h w = encode_char c h w
put_token (copy len pos) h w = do
  (h', w') ← encode_char (255 - threshold + len) h w
  w'' ← encode_position pos w'
  some (h', w'')

unfoldable pub put_tokens : List Token → Huff → BitWriter → Option (Huff × BitWriter)
put_tokens [] h w = some (h, w)
put_tokens (t ∷ ts) h w = put_token t h w >>= λ next. put_tokens ts next.0 next.1

-- A byte, or a match that is longer than the threshold and fits the ring.
abbrev pub IsToken : Token → Type 0
IsToken (literal c) = c < 256
IsToken (copy len pos) = (threshold < len) × (len ≤ max_match) × (pos < ring_size)
