-- ===== src/Aprs/Message/Field.antt =====
-- src/web/aprs.py: `sanitize_text`, `format_message`, `format_ack`, `format_reject` and
-- `parse_message`.
use kp4pra.Prelude.{
  ℕ, Bool, true, ◌&&◌, ◌||◌, Option, none, some, [], ◌∷◌, ◌++◌, Text, leb, ◌==◌, if◌then◌else◌,
  length, take,
}
use kp4pra.PyText.{is_space, is_alnum, strip, upper, contains, rpartition}
use kp4pra.Aprs.Call.{format_addressee}

abbrev pub max_text : ℕ
max_text = 67

abbrev pub msgno_max_len : ℕ
msgno_max_len = 5

-- `.replace("\r\n", " ")`
unfoldable pub join_crlf : Text → Text
join_crlf [] = []
join_crlf (c ∷ []) = c ∷ []
join_crlf (c ∷ d ∷ s) =
    let after_both = join_crlf s in
    let after_one = join_crlf (d ∷ s) in
    if c == b'\r' && d == b'\n' then b' ' ∷ after_both else c ∷ after_one

-- The single `\r` and `\n` left become blanks.
abbrev pub unbreak : ℕ → ℕ
unbreak c = if c == b'\r' || c == b'\n' then b' ' else c

-- `_FORBIDDEN_TEXT`
unfoldable pub is_forbidden : ℕ → Bool
is_forbidden c = c == b'|' || c == b'~' || c == b'{'

-- The `\r` and `\n` replaced, the forbidden characters removed.
unfoldable pub clean : Text → Text
clean [] = []
clean (c ∷ s) = let c' = unbreak c in if is_forbidden c' then clean s else c' ∷ clean s

unfoldable pub sanitize_text : Text → Text
sanitize_text text = take max_text (clean (join_crlf text))

-- `{` and at most five characters of the message number; none is sent for `None` and `""`.
msgno_part : Option Text → Text
msgno_part none = []
msgno_part (some []) = []
msgno_part (some (c ∷ m)) = b'{' ∷ take msgno_max_len (c ∷ m)

unfoldable pub format_message : Text → Text → Option Text → Text
unfolding msgno_part
format_message addressee text msgno =
    b':' ∷ (format_addressee addressee ++ (b':' ∷ (sanitize_text text ++ msgno_part msgno)))

abbrev pub ack_tag : Text
ack_tag = b'a' ∷ b'c' ∷ b'k' ∷ []

abbrev pub rej_tag : Text
rej_tag = b'r' ∷ b'e' ∷ b'j' ∷ []

-- `ack` or `rej` and a number.
unfoldable pub format_reply : Text → Text → Text → Text
format_reply tag addressee msgno =
    b':' ∷ (format_addressee addressee ++ (b':' ∷ (tag ++ take msgno_max_len msgno)))

abbrev pub format_ack : Text → Text → Text
format_ack = format_reply ack_tag

abbrev pub format_reject : Text → Text → Text
format_reject = format_reply rej_tag

-- The run of `[A-Za-z0-9]` at the head, and what follows it.
unfoldable pub span_alnum : Text → Text × Text
span_alnum [] = ([], [])
span_alnum (c ∷ s) =
    let (run, rest) = span_alnum s in if is_alnum c then (c ∷ run, rest) else ([], c ∷ s)

-- `\s*$`
unfoldable pub all_space : Text → Bool
all_space [] = true
all_space (c ∷ s) = is_space c && all_space s

-- `\}?\s*$`
unfoldable pub reply_end : Text → Bool
reply_end [] = true
reply_end (c ∷ s) = if c == b'}' then all_space s else all_space (c ∷ s)

-- `([A-Za-z0-9]{1,5})\}?\s*$`. What may follow the number is no part of one, so the number is the
-- whole run.
unfoldable pub reply_number : Text → Option Text
reply_number s =
    let (run, rest) = span_alnum s in
    if leb 1 (length run) && (leb (length run) msgno_max_len && reply_end rest)
    then some run
    else none

-- `_ACK_RE` and `_REJ_RE`, by their first three letters.
unfoldable pub match_reply : Text → Text → Option Text
match_reply [] s = reply_number s
match_reply (t ∷ tag) [] = none
match_reply (t ∷ tag) (c ∷ s) = if c == t then match_reply tag s else none

pub data Kind : Type 0 where
  message ack reject : Kind

-- The result of `parse_message`; `none` stands for the kind `None`.
pub record Parsed : Type 0 where
  pub kind : Kind
  pub addressee : Text
  pub text : Text
  pub msgno : Option Text

unfoldable pub all_alnum : Text → Bool
all_alnum [] = true
all_alnum (c ∷ s) = is_alnum c && all_alnum s

-- The end of `parse_message`: a message, with a number behind its last `{` if that is one.
unfoldable pub parse_plain : Text → Text → Parsed
parse_plain addressee rest =
    let (body, tail) = rpartition b'{' rest in
    let number = strip tail in
    if contains b'{' rest
      && (leb 1 (length number) && (leb (length number) msgno_max_len && all_alnum number))
    then record { kind = message; addressee = addressee; text = body; msgno = some number }
    else record { kind = message; addressee = addressee; text = rest; msgno = none }

-- The tests for ack, then reject, then a plain message.
parse_reject : Text → Text → Option Text → Parsed
parse_reject addressee rest (some n) = record {
  kind = reject;
  addressee = addressee;
  text = [];
  msgno = some n;
}
parse_reject addressee rest none = parse_plain addressee rest

parse_ack : Text → Text → Option Text → Parsed
unfolding parse_reject
parse_ack addressee rest (some n) = record {
  kind = ack;
  addressee = addressee;
  text = [];
  msgno = some n;
}
parse_ack addressee rest none = parse_reject addressee rest (match_reply rej_tag rest)

unfoldable pub parse_rest : Text → Text → Parsed
unfolding parse_ack
parse_rest addressee rest = parse_ack addressee rest (match_reply ack_tag rest)

-- `_MSG_RE`: a colon, nine characters of any kind, a colon.
unfoldable pub parse_message : Text → Option Parsed
parse_message (d ∷ a ∷ b ∷ c ∷ e ∷ f ∷ g ∷ h ∷ i ∷ j ∷ k ∷ rest) =
    if d == b':' && k == b':'
    then some (parse_rest (upper (strip (a ∷ b ∷ c ∷ e ∷ f ∷ g ∷ h ∷ i ∷ j ∷ []))) rest)
    else none
parse_message _ = none
