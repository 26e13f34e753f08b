-- ===== src/Tests/Calls.antt =====
-- The stations of the tests.
use kp4pra.Prelude.{◌≡◌, refl, codes, arith}
use kp4pra.PyText.{is_digit, is_upper}
use kp4pra.PyText.Decimal.{decimal}
use kp4pra.Ax25.Call.{call_text}
use kp4pra.Ax25.Frame.RoundTrip.{Call, text, IsCanonical}

abbrev pub gateway_call : Call
gateway_call = record { base = codes "KP4PRA"; ssid = 10 }

abbrev pub station_call : Call
station_call = record { base = codes "KP3M"; ssid = 7 }

abbrev pub digi_call : Call
digi_call = record { base = codes "WIDE1"; ssid = 1 }

writes_call : text gateway_call ≡ codes "KP4PRA-10"
unfolding call_text decimal
writes_call = refl

pub gateway_call-IsCanonical : IsCanonical gateway_call
unfolding is_upper is_digit
gateway_call-IsCanonical = ground arith

pub station_call-IsCanonical : IsCanonical station_call
unfolding is_upper is_digit
station_call-IsCanonical = ground arith

pub digi_call-IsCanonical : IsCanonical digi_call
unfolding is_upper is_digit
digi_call-IsCanonical = ground arith
