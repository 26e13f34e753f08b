-- ===== src/Aprs/Message/RoundTrip.antt =====
-- What `parse_message` reads from the fields that this module formats.
use kp4pra.Ax25.Call.RoundTrip.{call_text-IsSolid, length-call_text}
use kp4pra.PyText.Laws.{strip-All}
use kp4pra.Aprs.Message.Reply.{match_reply-other}
use kp4pra.Prelude.{
  ℕ, ◌≡◌, ◌≢◌, ◌≤◌, refl, ap, ◌∙◌, true, false, some, [], ◌∷◌, ◌++◌, Text, arith, length,
  Bool-cases, inl, inr, All, take-of_le, All-take,
}
use kp4pra.PyText.{is_space, is_alnum, contains, strip, upper, ljust}
use kp4pra.PyText.Laws.{IsSolid, strip-ljust, length-ljust, contains-middle, rpartition-last}
use kp4pra.Ax25.Call.RoundTrip.{strip-call_text, upper-call_text}
use kp4pra.Ax25.Frame.RoundTrip.{Call, text, IsCanonical}
use kp4pra.Aprs.Call.{format_addressee, normalize_call}
use kp4pra.Aprs.Message.Field.{
  message, ack, reject, clean, unbreak, is_forbidden, join_crlf, sanitize_text, format_message,
  format_reply, format_ack, format_reject, ack_tag, rej_tag, parse_plain, parse_rest, parse_message,
  all_alnum, msgno_max_len,
}
use kp4pra.Aprs.Message.Reply.{match_reply-contains, match_reply-number}

-- A message number as the session makes them: one to five letters or digits.
pub record IsNumber (n : Text) : Type 0 where
  pub alnum : all_alnum n ≡ true
  pub nonempty : 1 ≤ length n
  pub short : length n ≤ msgno_max_len

-- The nine characters of a canonical callsign.
pub normalize_call-text : (c : Call) → IsCanonical c → normalize_call (text c) ≡ text c
unfolding normalize_call
normalize_call-text c v =
    ap upper (strip-call_text c.base c.ssid v.chars) ∙ upper-call_text c.base c.ssid v.chars

-- The frame of a field: the nine characters and what follows them.
parse_message-parts :
    (s rest : Text)
    → length s ≡ 9
    → parse_message (b':' ∷ (s ++ (b':' ∷ rest))) ≡ some (parse_rest (upper (strip s)) rest)
unfolding parse_message
parse_message-parts (a ∷ b ∷ c ∷ d ∷ e ∷ f ∷ g ∷ h ∷ i ∷ []) rest l = refl
parse_message-parts [] rest l = absurd (omega arith)
parse_message-parts (a ∷ []) rest l = absurd (omega arith)
parse_message-parts (a ∷ b ∷ []) rest l = absurd (omega arith)
parse_message-parts (a ∷ b ∷ c ∷ []) rest l = absurd (omega arith)
parse_message-parts (a ∷ b ∷ c ∷ d ∷ []) rest l = absurd (omega arith)
parse_message-parts (a ∷ b ∷ c ∷ d ∷ e ∷ []) rest l = absurd (omega arith)
parse_message-parts (a ∷ b ∷ c ∷ d ∷ e ∷ f ∷ []) rest l = absurd (omega arith)
parse_message-parts (a ∷ b ∷ c ∷ d ∷ e ∷ f ∷ g ∷ []) rest l = absurd (omega arith)
parse_message-parts (a ∷ b ∷ c ∷ d ∷ e ∷ f ∷ g ∷ h ∷ []) rest l = absurd (omega arith)
parse_message-parts (a ∷ b ∷ c ∷ d ∷ e ∷ f ∷ g ∷ h ∷ i ∷ j ∷ s) rest l = absurd (omega arith)

length-text : (c : Call) → IsCanonical c → length (text c) ≤ 9
length-text c v = length-call_text c.base c.ssid v.fits v.ssid_fits

format_addressee-text : (c : Call) → IsCanonical c → format_addressee (text c) ≡ ljust 9 (text c)
unfolding format_addressee
format_addressee-text c v = rw (normalize_call-text c v, take-of_le 9 (text c) (length-text c v))

-- The addressee field reads back as the callsign.
parse_message-addressed :
    (c : Call) (rest : Text)
    → IsCanonical c
    → parse_message (b':' ∷ (format_addressee (text c) ++ (b':' ∷ rest)))
      ≡ some (parse_rest (text c) rest)
parse_message-addressed c rest v = rw (format_addressee-text c v) (
    parse_message-parts (ljust 9 (text c)) rest (length-ljust 9 (text c) (length-text c v))
    ∙ ap (λ t. some (parse_rest t rest))
        (ap upper (strip-ljust 9 (text c) (call_text-IsSolid c.base c.ssid v.chars))
          ∙ upper-call_text c.base c.ssid v.chars))

abbrev IsAllowed : ℕ → Type 0
IsAllowed c = is_forbidden c ≡ false

clean-IsAllowed : (s : Text) → All IsAllowed (clean s)
unfolding clean
clean-IsAllowed [] = tt
clean-IsAllowed (c ∷ s) = elim (Bool-cases (is_forbidden (unbreak c))) [
  | inl bad ↦ rw bad (clean-IsAllowed s)
  | inr good ↦ rw good (good, clean-IsAllowed s)
]

-- A text that goes out holds none of the forbidden characters, and at most 67 characters.
pub sanitize_text-IsAllowed : (s : Text) → All IsAllowed (sanitize_text s)
unfolding sanitize_text
sanitize_text-IsAllowed s =
    All-take IsAllowed 67 (clean (join_crlf s)) (clean-IsAllowed (join_crlf s))

allowed-ne-brace : (c : ℕ) → IsAllowed c → c ≢ b'{'
unfolding is_forbidden
allowed-ne-brace c h = ground arith

alnum-IsPlain : (c : ℕ) → is_alnum c ≡ true → (c ≢ b'{') × IsSolid c
unfolding is_alnum is_space
alnum-IsPlain c h = ground arith

all_alnum-head :
    (c : ℕ) (n : Text) → all_alnum (c ∷ n) ≡ true → (is_alnum c ≡ true) × (all_alnum n ≡ true)
unfolding all_alnum
all_alnum-head c n h = ground arith

alnum-All : (n : Text) → all_alnum n ≡ true → All (λ c. c ≢ b'{') n × All IsSolid n
alnum-All [] h = (tt, tt)
alnum-All (c ∷ n) h =
    let (first, others) = all_alnum-head c n h in
    let (ne, solid) = alnum-IsPlain c first in
    let (nes, solids) = alnum-All n others in ((ne, nes), (solid, solids))

parse_plain-number :
    (addressee body n : Text)
    → IsNumber n
    → parse_plain addressee (body ++ b'{' ∷ n)
      ≡ record { kind = message; addressee = addressee; text = body; msgno = some n }
unfolding parse_plain
parse_plain-number addressee body n v =
    let (no_brace, solid) = alnum-All n v.alnum in
    rw
      (
        rpartition-last b'{' body n no_brace,
        strip-All n solid,
        contains-middle b'{' body n,
        v.alnum,
      )
      (ground arith)

parse_rest-brace :
    (addressee rest : Text)
    → contains b'{' rest ≡ true
    → parse_rest addressee rest ≡ parse_plain addressee rest
unfolding parse_rest
parse_rest-brace addressee rest h = rw (
  match_reply-contains ack_tag rest (omega arith) h,
  match_reply-contains rej_tag rest (omega arith) h,
)

format_message-number :
    (addressee body n : Text)
    → IsNumber n
    → format_message addressee body (some n)
      ≡ b':' ∷ (format_addressee addressee ++ (b':' ∷ (sanitize_text body ++ b'{' ∷ n)))
unfolding format_message
format_message-number addressee body [] v = absurd (omega (arith, v.nonempty))
format_message-number addressee body (c ∷ n) v = rw (take-of_le 5 (c ∷ n) v.short)

-- A message to a canonical callsign, with a number of one to five letters or digits, is read back whole: the
-- callsign, the text as it was sanitized, and the number, whatever the text was.
pub parse_message-format_message :
    (c : Call) (body n : Text)
    → IsCanonical c
    → IsNumber n
    → parse_message (format_message (text c) body (some n))
      ≡ some
          (record { kind = message; addressee = text c; text = sanitize_text body; msgno = some n })
parse_message-format_message c body n v w =
    ap parse_message (format_message-number (text c) body n w)
    ∙ parse_message-addressed c (sanitize_text body ++ b'{' ∷ n) v
    ∙ ap some (
        parse_rest-brace (text c) (sanitize_text body ++ b'{' ∷ n)
          (contains-middle b'{' (sanitize_text body) n)
        ∙ parse_plain-number (text c) (sanitize_text body) n w)

parse_rest-ack :
    (addressee n : Text)
    → IsNumber n
    → parse_rest addressee (ack_tag ++ n)
      ≡ record { kind = ack; addressee = addressee; text = []; msgno = some n }
unfolding parse_rest
parse_rest-ack addressee n v = rw (match_reply-number ack_tag n v.alnum v.nonempty v.short)

parse_rest-reject :
    (addressee n : Text)
    → IsNumber n
    → parse_rest addressee (rej_tag ++ n)
      ≡ record { kind = reject; addressee = addressee; text = []; msgno = some n }
unfolding parse_rest
parse_rest-reject addressee n v =
    rw (match_reply-other n, match_reply-number rej_tag n v.alnum v.nonempty v.short)

-- An ack, and a reject, to a canonical callsign, of a number of one to five letters or digits, is
-- read back as that.
pub parse_message-format_reply :
    (c : Call) (n : Text)
    → IsCanonical c
    → IsNumber n
    → (parse_message (format_ack (text c) n)
        ≡ some (record { kind = ack; addressee = text c; text = []; msgno = some n }))
      × (parse_message (format_reject (text c) n)
          ≡ some (record { kind = reject; addressee = text c; text = []; msgno = some n }))
unfolding format_reply
parse_message-format_reply c n v w = rw (take-of_le 5 n w.short) (
  parse_message-addressed c (ack_tag ++ n) v ∙ ap some (parse_rest-ack (text c) n w),
  parse_message-addressed c (rej_tag ++ n) v ∙ ap some (parse_rest-reject (text c) n w),
)
