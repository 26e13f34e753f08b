-- ===== src/Clock/Time.antt =====
-- src/aprs_clock.py: `normalize_callsign`, the time stamps of packets, `circular_delta_seconds` and
-- `aprs_time_from_frame`.
pub mod Laws
use kp4pra.Prelude.{
  ℕ, ◌+◌, ◌-◌, ◌*◌, ◌%◌, Bool, true, false, not, ◌&&◌, ◌||◌, Option, none, some, [], ◌∷◌, Bytes,
  Text, leb, ltb, ◌==◌, if◌then◌else◌, length, take, drop, text_eq, bit_and, ℤ, sub_ℕ,
}
use kp4pra.PyText.{is_digit, strip, upper}
use kp4pra.Aprs.Call.{is_call_char}
use kp4pra.Ax25.Frame.Split.{Frame, Result, ok, err, split_frame}

-- The run of `[A-Z0-9]` at the head, and what follows it.
span_call : Text → Text × Text
span_call [] = ([], [])
span_call (c ∷ s) =
    let (run, rest) = span_call s in if is_call_char c then (c ∷ run, rest) else ([], c ∷ s)

-- `(?:-(?:[0-9]|1[0-5]))?`
ssid_match : Text → Bool
ssid_match [] = true
ssid_match (d ∷ x ∷ []) = d == b'-' && is_digit x
ssid_match (d ∷ x ∷ y ∷ []) = d == b'-' && (x == b'1' && (leb b'0' y && leb y b'5'))
ssid_match _ = false

-- `_CALL_RE`; a dash is no call character, so the run is as long as it can be.
unfoldable pub full_match : Text → Bool
unfolding span_call ssid_match
full_match call =
    let (run, rest) = span_call call in
    leb 1 (length run) && (leb (length run) 6 && ssid_match rest)

unfoldable pub normalize_callsign : Text → Text
normalize_callsign value = let call = upper (strip value) in if full_match call then call else []

-- `dataclass AprsTime`; the format's name is one of three.
pub data Format : Type 0 where
  ddhhmm_z ddhhmm_slash hhmmss_h : Format

pub record AprsTime : Type 0 where
  pub hour : ℕ
  pub minute : ℕ
  pub second : ℕ
  pub utc : Bool
  pub format_name : Format

unfoldable pub seconds_since_midnight : AprsTime → ℕ
seconds_since_midnight t = t.hour * 3600 + t.minute * 60 + t.second

unfoldable pub is_ascii : Bytes → Bool
is_ascii [] = true
is_ascii (b ∷ s) = ltb b 128 && is_ascii s

-- `text[0] == ";" and text[10] in "*_"`
object_mark : Text → Bool
object_mark (a ∷ _ ∷ _ ∷ _ ∷ _ ∷ _ ∷ _ ∷ _ ∷ _ ∷ _ ∷ k ∷ _) = a == b';' && (k == b'*' || k == b'_')
object_mark _ = false

is_object : Text → Bool
unfolding object_mark
is_object s = leb 18 (length s) && object_mark s

-- `len(text) >= 8 and text[0] in "/@"`
is_position : Text → Bool
is_position [] = false
is_position (a ∷ s) = leb 7 (length s) && (a == b'/' || a == b'@')

unfoldable pub timestamp_field : Bytes → Option Text
unfolding is_object is_position
timestamp_field payload =
    if not (is_ascii payload)
    then none
    else if is_position payload
    then some (take 7 (drop 1 payload))
    else if is_object payload
    then some (take 7 (drop 11 payload))
    else none

-- `int` of two digits.
abbrev pub two : ℕ → ℕ → ℕ
two a b = (a - b'0') * 10 + (b - b'0')

-- The last test of `parse_aprs_time`.
unfoldable pub in_range : AprsTime → Option AprsTime
in_range t = if leb t.hour 23 && (leb t.minute 59 && leb t.second 59) then some t else none

unfoldable pub day_time : ℕ → ℕ → ℕ → Bool → Format → Option AprsTime
day_time day hour minute utc name =
    if leb 1 day && leb day 31
    then in_range
        (record { hour = hour; minute = minute; second = 0; utc = utc; format_name = name })
    else none

-- `suffix = field[-1].lower()`, for a field that matches `_TS_RE`.
unfoldable pub by_suffix : ℕ → ℕ → ℕ → ℕ → Option AprsTime
by_suffix x p q r =
    if x == b'z' || x == b'Z'
    then day_time p q r true ddhhmm_z
    else if x == b'/'
    then day_time p q r false ddhhmm_slash
    else in_range (record { hour = p; minute = q; second = r; utc = true; format_name = hhmmss_h })

-- `[zZhH/]`
unfoldable pub is_suffix : ℕ → Bool
is_suffix x = x == b'z' || (x == b'Z' || (x == b'h' || (x == b'H' || x == b'/')))

-- `_TS_RE`, and the three numbers of two digits.
unfoldable pub parse_field : Text → Option AprsTime
parse_field (a ∷ b ∷ c ∷ d ∷ e ∷ f ∷ x ∷ []) =
    if is_digit a
      && (is_digit b && (is_digit c && (is_digit d && (is_digit e && (is_digit f && is_suffix x)))))
    then by_suffix x (two a b) (two c d) (two e f)
    else none
parse_field _ = none

parse_stamp : Option Text → Option AprsTime
parse_stamp none = none
parse_stamp (some field) = parse_field field

unfoldable pub parse_aprs_time : Bytes → Option AprsTime
unfolding parse_stamp
parse_aprs_time payload = parse_stamp (timestamp_field payload)

-- `(target - current + 43200) % 86400 - 43200` over the integers: modulo 86400, taking `current`
-- away is adding 86399 of it.
unfoldable pub circular_delta_seconds : ℕ → ℕ → ℤ
circular_delta_seconds current target = sub_ℕ ((target + 43200 + 86399 * current) % 86400) 43200

-- `(control & 0xEF) == 0x03`, and `pid == PID_NO_L3`.
unfoldable pub is_ui : Frame → Bool
is_ui f = bit_and f.ctrl 0xEF == 0x03 && elim f.pid [ none ↦ false | some p ↦ p == 0xF0 ]

unfoldable pub time_of : Text → Result Frame → Option AprsTime
time_of source (err _) = none
time_of source (ok f) =
    if not (text_eq (normalize_callsign f.src) (normalize_callsign source))
    then none
    else if not (is_ui f)
    then none
    else parse_aprs_time f.payload

unfoldable pub aprs_time_from_frame : Bytes → Text → Option AprsTime
unfolding time_of
aprs_time_from_frame frame source = time_of source (split_frame frame)
