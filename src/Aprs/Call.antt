-- ===== src/Aprs/Call.antt =====
-- src/web/aprs.py: callsigns, and the passcode of APRS-IS.
use kp4pra.Prelude.{
  ℕ, ◌+◌, ◌*◌, ◌%◌, Bool, true, ◌&&◌, ◌||◌, [], ◌∷◌, Text, leb, ◌==◌, if◌then◌else◌, length, take,
  bit_xor, codes,
}
use kp4pra.PyText.{is_upper, is_digit, strip, upper, ljust, partition}

abbrev pub tocall : Text
tocall = codes "APKPPR"

abbrev pub addressee_len : ℕ
addressee_len = 9

unfoldable pub normalize_call : Text → Text
normalize_call call = upper (strip call)

-- `[A-Z0-9]`
unfoldable pub is_call_char : ℕ → Bool
is_call_char c = is_upper c || is_digit c

unfoldable pub all_call_chars : Text → Bool
all_call_chars [] = true
all_call_chars (c ∷ s) = is_call_char c && all_call_chars s

-- The tail `(-[A-Z0-9]{1,3})?$` of `_CALL_RE`.
call_tail : Text → Bool
call_tail [] = true
call_tail (c ∷ s) = c == b'-' && (all_call_chars s && (leb 1 (length s) && leb (length s) 3))

-- `_CALL_RE`. A dash is no call character, so the first run is everything up to it; `n` counts it.
call_match : ℕ → Text → Bool
call_match n [] = leb 1 n && leb n 6
call_match n (c ∷ s) =
    let more = call_match (n + 1) s in
    if is_call_char c then more else leb 1 n && (leb n 6 && call_tail (c ∷ s))

unfoldable pub valid_call : Text → Bool
unfolding call_match call_tail all_call_chars
valid_call call = let c = normalize_call call in call_match 0 c && leb (length c) addressee_len

unfoldable pub format_addressee : Text → Text
format_addressee call = ljust addressee_len (take addressee_len (normalize_call call))

-- The loop of `passcode`, two characters a round.
passcode_loop : ℕ → Text → ℕ
passcode_loop code [] = code
passcode_loop code (a ∷ []) = bit_xor code (a * 256)
passcode_loop code (a ∷ b ∷ s) = passcode_loop (bit_xor (bit_xor code (a * 256)) b) s

-- `& 0x7FFF` keeps the low fifteen bits.
unfoldable pub passcode : Text → ℕ
unfolding passcode_loop
passcode callsign = passcode_loop 0x73E2 (partition b'-' (normalize_call callsign)).0 % 0x8000
