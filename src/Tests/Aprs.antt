-- ===== src/Tests/Aprs.antt =====
-- Inputs for src/web/aprs.py.
use kp4pra.Aprs.MsgNo.{next}
use kp4pra.Prelude.{◌≡◌, ◌≢◌, refl, some, [], ◌∷◌, codes, arith, Text}
use kp4pra.PyText.{is_alnum}
use kp4pra.Aprs.Message.Field.{message, parse_message, format_message, sanitize_text, all_alnum}
use kp4pra.Aprs.Message.RoundTrip.{IsNumber, parse_message-format_message}
use kp4pra.Aprs.MsgNo.{MsgNoGen, msg_no_gen, msg_no_gen-IsMsgNo, next_times, next_times-cycle}
use kp4pra.Aprs.Tnc2.{tnc2_line, parse_tnc2, rstrip_crlf}
use kp4pra.Aprs.Tnc2.RoundTrip.{IsStop, parse_tnc2-tnc2_line}
use kp4pra.Ax25.Frame.RoundTrip.{text}
use kp4pra.Tests.Calls.{
  gateway_call, station_call, gateway_call-IsCanonical, station_call-IsCanonical,
}

seven-IsNumber : IsNumber (codes "7")
unfolding all_alnum is_alnum
seven-IsNumber = record { alnum = refl; nonempty = omega arith; short = omega arith }

parse_message-format_message_example :
    parse_message (format_message (text station_call) (codes "a{b|c") (some (codes "7")))
    ≡ some (record {
      kind = message;
      addressee = text station_call;
      text = sanitize_text (codes "a{b|c");
      msgno = some (codes "7");
    })
parse_message-format_message_example =
    parse_message-format_message station_call (codes "a{b|c") (codes "7") station_call-IsCanonical
      seven-IsNumber

abbrev last_numbers : MsgNoGen
last_numbers = msg_no_gen 99998

next_times-cycle_example :
    ((next (next_times 3 last_numbers)).1 ≢ (next last_numbers).1)
    × ((next (next_times 99999 last_numbers)).1 ≡ (next last_numbers).1)
next_times-cycle_example =
    next_times-cycle 3 last_numbers (msg_no_gen-IsMsgNo 99998 (omega arith)) (omega arith)
      (omega arith)

abbrev tcpip : Text
tcpip = codes "TCPIP*"

tcpip-IsStop : IsStop tcpip
tcpip-IsStop = record { no_comma = ground arith; no_colon = ground arith; some_text = omega arith }

hello-keeps : rstrip_crlf (codes "hi: >,") ≡ codes "hi: >,"
unfolding rstrip_crlf
hello-keeps = refl

parse_tnc2-tnc2_line_example :
    parse_tnc2
      (tnc2_line (text station_call) (text gateway_call) (codes "hi: >,") (tcpip ∷ tcpip ∷ []))
    ≡ some (record {
      source = text station_call;
      dest = text gateway_call;
      path = tcpip ∷ tcpip ∷ [];
      info = codes "hi: >,";
    })
parse_tnc2-tnc2_line_example =
    parse_tnc2-tnc2_line station_call gateway_call (codes "hi: >,") (tcpip ∷ tcpip ∷ [])
      station_call-IsCanonical gateway_call-IsCanonical (tcpip-IsStop, (tcpip-IsStop, tt))
      hello-keeps
