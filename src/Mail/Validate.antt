-- ===== src/Mail/Validate.antt =====
-- src/web/mailvalidate.py. The library email-validator, if it is there, is an argument; so is textwrap.
use kp4pra.Prelude.{
  ℕ, Bool, true, false, not, ◌&&◌, ◌||◌, Option, none, some, List, [], ◌∷◌, ◌++◌, Text, codes,
  length, ltb, leb, ◌==◌, if◌then◌else◌, is_nil,
}
use kp4pra.PyText.{strip, contains, partition, is_digit, is_lower, is_upper}

abbrev pub subject_hard_max : ℕ
subject_hard_max = 200

abbrev pub body_hard_max : ℕ
body_hard_max = 8000

abbrev pub email_hard_max : ℕ
email_hard_max = 254

unfoldable pub all_pass : (ℕ → Bool) → Text → Bool
all_pass test [] = true
all_pass test (c ∷ s) = test c && all_pass test s

-- `_is_ascii`
unfoldable pub is_ascii : Text → Bool
is_ascii s = all_pass (λ c. ltb c 128) s

-- `[A-Za-z0-9]`
unfoldable pub is_letter_or_digit : ℕ → Bool
is_letter_or_digit c = is_upper c || (is_lower c || is_digit c)

-- The characters of a dot-atom, the dot included.
unfoldable pub is_atom : ℕ → Bool
is_atom c = is_letter_or_digit c || contains c (codes ".!#$%&'*+/=?^_`{|}~-")

-- Letters, digits and dashes; the flag says that the last character was a dash, which may not end it.
unfoldable pub label_from : Bool → Text → Bool
label_from after_dash [] = not after_dash
label_from after_dash (c ∷ s) =
    let rest = label_from (c == b'-') s in (is_letter_or_digit c || c == b'-') && rest

unfoldable pub split_dots : Text → List Text
split_dots [] = [] ∷ []
split_dots (c ∷ s) = elim (split_dots s) [
  | [] ↦ (c ∷ []) ∷ []
  | w ∷ ws ↦ if c == b'.' then [] ∷ w ∷ ws else (c ∷ w) ∷ ws
]

-- `[A-Za-z0-9](?:[A-Za-z0-9-]{0,61}[A-Za-z0-9])?`
unfoldable pub is_label : Text → Bool
is_label [] = false
is_label (c ∷ s) = is_letter_or_digit c && (leb (length s) 62 && label_from (c == b'-') s)

unfoldable pub all_labels : List Text → Bool
all_labels [] = true
all_labels (l ∷ ls) = is_label l && all_labels ls

-- `_FALLBACK_RE`, for a text without white space at its ends.
unfoldable pub fallback_match : Text → Bool
fallback_match addr =
    let (local, domain) = partition b'@' addr in
    let labels = split_dots domain in
    not (is_nil local) && (all_pass is_atom local && (leb 2 (length labels) && all_labels labels))

pub data AddressError : Type 0 where
  required invalid intl_unsupported : AddressError

-- `(True, normalized, None)` or `(False, "", error)`.
pub data Checked : Type 0 where
  valid : Text → Checked
  wrong : AddressError → Checked

unfoldable pub from_library : Option Text → Checked
from_library none = wrong invalid
from_library (some normalized) = valid normalized

unfoldable pub check_ascii : Option (Text → Option Text) → Text → Checked
check_ascii (some validate) addr = from_library (validate addr)
check_ascii none addr = if fallback_match addr then valid addr else wrong invalid

unfoldable pub check_address : Option (Text → Option Text) → Text → Checked
check_address library text =
    let addr = strip text in
    if is_nil addr
    then wrong required
    else if ltb email_hard_max (length addr)
    then wrong invalid
    else if not (is_ascii addr)
    then wrong intl_unsupported
    else check_ascii library addr

-- CRLF and CR to LF; the flag says that the last character was a CR.
unfoldable pub newlines : Bool → Text → Text
newlines after_cr [] = []
newlines after_cr (c ∷ s) =
    let rest = newlines (c == 13) s in
    if c == 13 then 10 ∷ rest else if c == 10 && after_cr then rest else c ∷ rest

unfoldable pub is_kept : ℕ → Bool
is_kept c = c == 10 || (c == 9 || (leb 32 c && not (c == 127)))

unfoldable pub keep : (ℕ → Bool) → Text → Text
keep test [] = []
keep test (c ∷ s) = let rest = keep test s in if test c then c ∷ rest else rest

unfoldable pub sanitize_text : Text → Text
sanitize_text s = keep is_kept (newlines false s)

-- `.replace("\n", " ")`
unfoldable pub on_one_line : Text → Text
on_one_line [] = []
on_one_line (c ∷ s) = (if c == 10 then b' ' else c) ∷ on_one_line s

pub data FieldError : Type 0 where
  bad_address : AddressError → FieldError
  replyto_required subject_too_long body_required body_too_long : FieldError

pub record Errors : Type 0 where
  pub to : Option FieldError
  pub reply_to : Option FieldError
  pub subject : Option FieldError
  pub body : Option FieldError

pub record Cleaned : Type 0 where
  pub to : Text
  pub reply_to : Text
  pub subject : Text
  pub body : Text

unfoldable pub to_error : Checked → Option FieldError
to_error (valid a) = none
to_error (wrong e) = some (bad_address e)

unfoldable pub reply_error : Checked → Option FieldError
reply_error (valid a) = none
reply_error (wrong required) = some replyto_required
reply_error (wrong e) = some (bad_address e)

unfoldable pub normalized_or : Text → Checked → Text
normalized_or text (valid a) = a
normalized_or text (wrong e) = strip text

unfoldable pub subject_error : Text → Option FieldError
subject_error s = if ltb subject_hard_max (length s) then some subject_too_long else none

unfoldable pub body_error : Text → Option FieldError
body_error s =
    if is_nil s
    then some body_required
    else if ltb body_hard_max (length s)
    then some body_too_long
    else none

unfoldable pub validate_submission :
    Option (Text → Option Text) → Text → Text → Text → Text → Cleaned × Errors
validate_submission library to reply_to subject body =
    let to_checked = check_address library to in
    let reply_checked = check_address library reply_to in
    let subject_c = strip (on_one_line (sanitize_text subject)) in
    let body_c = strip (sanitize_text body) in
    (
      record {
        to = normalized_or to to_checked;
        reply_to = normalized_or reply_to reply_checked;
        subject = subject_c;
        body = body_c;
      },
      record {
        to = to_error to_checked;
        reply_to = reply_error reply_checked;
        subject = subject_error subject_c;
        body = body_error body_c;
      },
    )

unfoldable pub split_lines : Text → List Text
split_lines [] = [] ∷ []
split_lines (c ∷ s) = elim (split_lines s) [
  | [] ↦ (c ∷ []) ∷ []
  | w ∷ ws ↦ if c == 10 then [] ∷ w ∷ ws else (c ∷ w) ∷ ws
]

-- The body of the loop; `wrap` is `textwrap.wrap` with the width.
unfoldable pub wrap_line : (Text → List Text) → Text → List Text
wrap_line wrap para =
    if is_nil (strip para) then [] ∷ [] else if is_nil (wrap para) then [] ∷ [] else wrap para

unfoldable pub wrap_lines : (Text → List Text) → List Text → List Text
wrap_lines wrap [] = []
wrap_lines wrap (para ∷ paras) = wrap_line wrap para ++ wrap_lines wrap paras

-- `"\n".join`
unfoldable pub join_newlines : List Text → Text
join_newlines [] = []
join_newlines (l ∷ []) = l
join_newlines (l ∷ m ∷ ls) = l ++ 10 ∷ join_newlines (m ∷ ls)

unfoldable pub wrap_body : (Text → List Text) → Text → Text
wrap_body wrap body = join_newlines (wrap_lines wrap (split_lines (sanitize_text body)))
