-- ===== src/Mail/Build.antt =====
-- src/web/mailbuilder.py: `station_from_address` and `build_message`. The message identifier, the date
-- and what textwrap does are arguments.
pub mod Lines
pub mod Headers
use kp4pra.Prelude.{
  ℕ, zero, suc, ◌+◌, ◌-◌, ◌*◌, ◌/◌, ◌%◌, ◌≤◌, ◌<◌, ◌≡◌, ◌≢◌, ◌⊎◌, inl, inr, refl, sym, ap, ◌∙◌,
  append_assoc, append-nil, Bool, true, false, not, ◌&&◌, ◌||◌, Bool-cases, Option, none, some,
  List, [], ◌∷◌, ◌++◌, Bytes, Text, codes, arith, length, take, drop, length-append, take-append,
  drop-append, ltb, leb, ◌==◌, if◌then◌else◌, is_nil, text_eq, get_elem?, bit_and, bit_or, bit_xor,
  ==_iff, all_below_sound, map, All,
}
use kp4pra.PyText.{strip, upper, contains, partition}
use kp4pra.PyText.Decimal.{decimal}
use kp4pra.Mail.Queue.{Record}
use kp4pra.Mail.Send.{base_callsign}
use kp4pra.Mail.Validate.{on_one_line, wrap_body}

-- `none` is the BuildError.
unfoldable pub station_call : Text → Option Text
station_call callsign =
    let call = base_callsign callsign in
    if is_nil call || text_eq call (codes "N0CALL") then none else some call

-- `_winlink_addr`
unfoldable pub winlink_addr : Text → Text
winlink_addr addr =
    let a = strip addr in
    if contains b'@' a && not (text_eq (take 5 (upper a)) (codes "SMTP:"))
    then codes "SMTP:" ++ a
    else a

abbrev pub disclaimer_es : Text
disclaimer_es =
    codes
      "La interfaz publica no ofrece servicio de correo entrante; los destinatarios deben responder directamente a la direccion de correo personal que se muestra en el mensaje."

abbrev pub disclaimer_en : Text
disclaimer_en =
    codes
      "The public interface does not provide incoming email service; recipients must reply directly to the personal email address shown in the message."

-- `rec.get("lang")` is never empty: enqueue sets it.
unfoldable pub is_spanish : Text → Bool
is_spanish lang = text_eq (take 2 (upper lang)) (codes "ES")

unfoldable pub reply_part : Bool → Text → Text
reply_part spanish [] = []
reply_part spanish (c ∷ s) =
    (if spanish then codes "Para responder, escriba a: " else codes "To reply, write to: ")
    ++ (c ∷ s ++ codes "\n\n")

-- `"\n\n".join(parts)`
unfoldable pub composed_body : Record → Text
composed_body r =
    let spanish = is_spanish r.lang in
    (if spanish then disclaimer_es else disclaimer_en)
    ++ (codes "\n\n" ++ (reply_part spanish (strip r.reply_to) ++ r.body))

-- `.replace("\n", "\r\n")`
unfoldable pub crlf : Text → Text
crlf [] = []
crlf (c ∷ s) = if c == 10 then 13 ∷ 10 ∷ crlf s else c ∷ crlf s

-- The length of `encode("utf-8")`.
unfoldable pub utf8_length : Text → ℕ
utf8_length [] = 0
utf8_length (c ∷ s) =
    (if ltb c 128 then 1 else if ltb c 2048 then 2 else if ltb c 65536 then 3 else 4)
    + utf8_length s

abbrev pub Header : Type 0
Header = Text × Text

unfoldable pub subject_header : Text → List Header
subject_header [] = []
subject_header (c ∷ s) = (codes "Subject", c ∷ s) ∷ []

unfoldable pub headers_of : Text → Text → Text → Text → Text → ℕ → List Header
headers_of mid date call to subject body_count =
    (codes "Mid", mid)
    ∷ (codes "Body", decimal body_count)
    ∷ (codes "Content-Transfer-Encoding", codes "8bit")
    ∷ (codes "Content-Type", codes "text/plain; charset=ISO-8859-1")
    ∷ (codes "Date", date)
    ∷ (codes "From", call)
    ∷ (codes "Mbo", call)
    ∷ (subject_header subject
        ++ (codes "To", winlink_addr to) ∷ (codes "Type", codes "Private") ∷ [])

unfoldable pub header_line : Header → Text
header_line (k, v) = k ++ (codes ": " ++ v)

-- `"\r\n".join`, and the empty line behind it.
unfoldable pub header_text : List Header → Text
header_text [] = codes "\r\n"
header_text (h ∷ hs) = header_line h ++ (codes "\r\n" ++ header_text hs)

pub record Built : Type 0 where
  pub mid : Text
  pub to : Text
  pub subject : Text
  pub headers : List Header
  pub body_block : Text
  pub text : Text
  pub size : ℕ

unfoldable pub assemble : Text → Text → Text → Text → Text → Text → Built
assemble mid date call to subject body_block =
    let headers = headers_of mid date call to subject (utf8_length body_block) in
    let text = header_text headers ++ body_block in
    record {
      mid = mid;
      to = to;
      subject = subject;
      headers = headers;
      body_block = body_block;
      text = text;
      size = utf8_length text;
    }

unfoldable pub build_for : Option Text → (Text → List Text) → Record → Text → Text → Option Built
build_for none wrap r mid date = none
build_for (some call) wrap r mid date =
    let to = strip r.to in
    let body_block = crlf (wrap_body wrap (composed_body r)) ++ codes "\r\n" in
    if is_nil to
    then none
    else some (assemble mid date call to (strip (on_one_line r.subject)) body_block)

unfoldable pub build_message : Text → (Text → List Text) → Record → Text → Text → Option Built
build_message callsign wrap r mid date = build_for (station_call callsign) wrap r mid date
