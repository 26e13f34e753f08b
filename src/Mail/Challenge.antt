-- ===== src/Mail/Challenge.antt =====
-- src/rms/cms.py: `challenge_response`. The digest of hashlib.md5 is an argument.
use kp4pra.Prelude.Maybe.{◌>>=◌}
use kp4pra.Prelude.{
  ℕ, zero, suc, ◌+◌, ◌-◌, ◌*◌, Option, none, some, [], ◌∷◌, ◌++◌, Bytes, Text, length, drop,
  bit_and, if◌then◌else◌,
}
use kp4pra.PyText.Decimal.{decimal}
use kp4pra.Mail.Validate.{is_ascii}

abbrev pub cms_salt : Bytes
cms_salt =
    77 ∷ 197 ∷ 101 ∷ 206 ∷ 190 ∷ 249 ∷ 93 ∷ 200 ∷ 51 ∷ 243 ∷ 93 ∷ 237 ∷ 71 ∷ 94 ∷ 239 ∷ 138 ∷ 68
    ∷ 108 ∷ 70 ∷ 185 ∷ 225 ∷ 137 ∷ 217 ∷ 16 ∷ 51 ∷ 122 ∷ 193 ∷ 48 ∷ 194 ∷ 195 ∷ 198 ∷ 175 ∷ 172
    ∷ 169 ∷ 70 ∷ 84 ∷ 61 ∷ 62 ∷ 104 ∷ 186 ∷ 114 ∷ 52 ∷ 61 ∷ 168 ∷ 66 ∷ 129 ∷ 192 ∷ 208 ∷ 187 ∷ 249
    ∷ 232 ∷ 193 ∷ 41 ∷ 113 ∷ 41 ∷ 45 ∷ 240 ∷ 16 ∷ 29 ∷ 228 ∷ 208 ∷ 228 ∷ 61 ∷ 20 ∷ []

-- `s.encode("ascii")`; `none` is the UnicodeEncodeError.
unfoldable pub encode_ascii : Text → Option Bytes
encode_ascii s = if is_ascii s then some s else none

-- The digest's first four bytes, the fourth cut to six bits, the lowest first.
unfoldable pub digest_number : Bytes → ℕ
digest_number (d0 ∷ d1 ∷ d2 ∷ d3 ∷ _) = bit_and d3 0x3F * 16777216 + d2 * 65536 + d1 * 256 + d0
digest_number _ = 0

zeros : ℕ → Text
zeros zero = []
zeros (suc n) = b'0' ∷ zeros n

-- `f"{n:08d}"`, and the last eight characters of it.
unfoldable pub eight_digits : ℕ → Text
unfolding zeros
eight_digits n = let s = zeros (8 - length (decimal n)) ++ decimal n in drop (length s - 8) s

unfoldable pub challenge_response : (md5 : Bytes → Bytes) → Text → Text → Option Text
challenge_response md5 challenge password = do
  c ← encode_ascii challenge
  p ← encode_ascii password
  some (eight_digits (digest_number (md5 (c ++ (p ++ cms_salt)))))
