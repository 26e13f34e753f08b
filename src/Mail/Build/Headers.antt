-- ===== src/Mail/Build/Headers.antt =====
-- A submission that passed validation, put into the queue and built: its headers.
use kp4pra.Mail.Build.Lines.{
  NoBreak, All-strip, base_callsign-NoBreak, evaluated, winlink_addr-NoBreak, NoCr, newlines-NoCr,
  All-keep, on_one_line-NoBreak, IsDigit-NoBreak, NoBreak-NoCr,
}
use kp4pra.Prelude.{
  ℕ, ◌≡◌, inl, inr, refl, sym, ap, ◌∙◌, Bool, true, false, not, ◌||◌, Bool-cases, Option, none,
  some, List, [], ◌∷◌, ◌++◌, Text, codes, length, ltb, if◌then◌else◌, is_nil, text_eq, All,
}
use mathlib.Core.Path.{subst}
use kp4pra.Prelude.{All-append}
use kp4pra.PyText.{strip}
use kp4pra.PyText.Decimal.{decimal, IsDigit, decimal-IsDigit}
use kp4pra.Prelude.{All-imp}
use kp4pra.Mail.Queue.{new_record}
use kp4pra.Mail.Send.{base_callsign}
use kp4pra.Mail.Validate.{
  all_pass, newlines, is_kept, sanitize_text, on_one_line, Checked, valid, wrong, required, invalid,
  intl_unsupported, from_library, check_ascii, check_address, to_error, normalized_or,
  validate_submission, is_ascii, email_hard_max, wrap_body,
}
use kp4pra.Mail.Build.{
  station_call, Header, subject_header, headers_of, Built, assemble, build_for, build_message, crlf,
  composed_body,
}

first_of :
    (a b c : Bool) (x : Checked)
    → to_error (
        if a
        then wrong required
        else if b
        then wrong invalid
        else if c
        then wrong intl_unsupported
        else x)
      ≡ none
    → (if a
        then wrong required
        else if b
        then wrong invalid
        else if c
        then wrong intl_unsupported
        else x)
      ≡ x
unfolding to_error
first_of true b c x h = absurd (cc)
first_of false true c x h = absurd (cc)
first_of false false true x h = absurd (cc)
first_of false false false x h = refl

from_library-valid :
    (o : Option Text)
    → to_error (from_library o) ≡ none
    → (a : Text) × (o ≡ some a) × (from_library o ≡ valid a)
unfolding to_error from_library
from_library-valid none h = absurd (cc)
from_library-valid (some a) h = (a, refl, refl)

-- An address without an error is the one that the library gave back.
check_address-valid :
    (validate : Text → Option Text) (text : Text)
    → to_error (check_address (some validate) text) ≡ none
    → (a : Text) × (validate (strip text) ≡ some a) × (check_address (some validate) text ≡ valid a)
unfolding check_address check_ascii
check_address-valid validate text h =
    let addr = strip text in
    let whole =
      first_of (is_nil addr) (ltb email_hard_max (length addr)) (not (is_ascii addr))
        (from_library (validate addr)) h in
    let (a, e, f) = from_library-valid (validate addr) (ap to_error (sym whole) ∙ h) in
    (a, e, whole ∙ f)

-- The values of the headers are on one line each.
abbrev pub OneLine : Header → Type 0
OneLine (k, v) = All NoBreak v

subject_header-OneLine : (s : Text) → All NoBreak s → All OneLine (subject_header s)
unfolding subject_header
subject_header-OneLine [] h = tt
subject_header-OneLine (c ∷ s) h = (h, tt)

fixed_values :
    All NoBreak (codes "8bit")
    × All NoBreak (codes "text/plain; charset=ISO-8859-1")
    × All NoBreak (codes "Private")
unfolding all_pass
fixed_values = (
  evaluated (codes "8bit") refl,
  evaluated (codes "text/plain; charset=ISO-8859-1") refl,
  evaluated (codes "Private") refl,
)

headers_of-OneLine :
    (mid date call to subject : Text) (n : ℕ)
    → All NoBreak mid
    → All NoBreak date
    → All NoBreak call
    → All NoBreak to
    → All NoBreak subject
    → All OneLine (headers_of mid date call to subject n)
unfolding headers_of
headers_of-OneLine mid date call to subject n m d c t s =
    let (f1, f2, f3) = fixed_values in
    let number = All-imp IsDigit NoBreak IsDigit-NoBreak (decimal n) (decimal-IsDigit n) in
    let rest =
      All-append OneLine (subject_header subject) _ (subject_header-OneLine subject s)
        (winlink_addr-NoBreak to t, (f3, tt)) in
    (m, (number, (f1, (f2, (d, (c, (c, rest)))))))

station_call-base :
    (callsign call : Text) → station_call callsign ≡ some call → base_callsign callsign ≡ call
unfolding station_call
station_call-base callsign call h =
    elim (Bool-cases
      (is_nil (base_callsign callsign) || text_eq (base_callsign callsign) (codes "N0CALL"))) [
        | inl e ↦
            let no_call =
              subst (λ b. (if b then none else some (base_callsign callsign)) ≡ some call) e h in
            absurd (cc)
        | inr e ↦
            let the_call =
              subst (λ b. (if b then none else some (base_callsign callsign)) ≡ some call) e h in
            cc
      ]

-- A submission whose destination email-validator accepts, queued as validation cleans it, can be built
-- by every station that has a callsign, and every header of the message is one line: whatever was typed
-- into the subject, it puts in no header of its own. The library gives back an address without line
-- ends that is not blank; the message identifier, the date and the callsign have no line ends.
pub build_message-OneLine :
    (validate : Text → Option Text) (callsign call mid date id iso lang : Text) (now : ℕ)
    (wrap : Text → List Text) (to reply_to subject body : Text)
    → ((a n : Text) → validate a ≡ some n → All NoBreak n × (is_nil (strip n) ≡ false))
    → station_call callsign ≡ some call
    → All NoBreak callsign
    → All NoBreak mid
    → All NoBreak date
    → (validate_submission (some validate) to reply_to subject body).1.to ≡ none
    → (let cleaned = (validate_submission (some validate) to reply_to subject body).0 in
        (b : Built) × (build_message callsign wrap
            (new_record id now iso cleaned.to cleaned.reply_to cleaned.subject cleaned.body lang)
            mid
            date
          ≡ some b)
        × All OneLine b.headers)
unfolding validate_submission build_message build_for new_record normalized_or assemble
    sanitize_text
build_message-OneLine validate callsign call mid date id iso lang now wrap to reply_to subject body
      lawful station plain m d accepted =
    let (a, given_back, checked) = check_address-valid validate to accepted in
    let (a_plain, not_blank) = lawful (strip to) a given_back in
    let typed =
      on_one_line-NoBreak (sanitize_text subject)
        (All-keep NoCr is_kept (newlines false subject) (newlines-NoCr false subject)) in
    let stored = strip (on_one_line (sanitize_text subject)) in
    let again =
      All-imp NoBreak NoCr NoBreak-NoCr stored
        (All-strip NoBreak (on_one_line (sanitize_text subject)) typed) in
    let title = All-strip NoBreak (on_one_line stored) (on_one_line-NoBreak stored again) in
    let named =
      subst (All NoBreak) (station_call-base callsign call station)
        (base_callsign-NoBreak callsign plain) in
    let r =
      new_record id now iso a (normalized_or reply_to (check_address (some validate) reply_to))
        stored (strip (sanitize_text body)) lang in
    (
      assemble mid date call (strip a) (strip (on_one_line stored))
          (crlf (wrap_body wrap (composed_body r)) ++ codes "\r\n"),
      rw (checked, station, not_blank) refl,
      headers_of-OneLine mid date call (strip a) (strip (on_one_line stored)) _ m d named
          (All-strip NoBreak a a_plain) title,
    )
