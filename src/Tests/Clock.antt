-- ===== src/Tests/Clock.antt =====
-- Inputs for src/aprs_clock.py.
use kp4pra.Prelude.{Text}
use kp4pra.Clock.Service.{clock_values, timestamp}
use kp4pra.Prelude.{text_eq}
use kp4pra.Clock.Service.Steps.{outcome_service}
use kp4pra.Clock.Agw.{AgwMessage}
use kp4pra.Clock.Service.{set_state}
use kp4pra.Ax25.Frame.Split.{split_frame, read_addresses, read_control, has_pid}
use kp4pra.Ax25.Control.{is_i}
use kp4pra.Ax25.Call.{decode_call, call_text}
use kp4pra.PyText.{upper, strip, rstrip, lstrip, is_space, is_lower, is_upper, to_upper}
use kp4pra.PyText.Decimal.{decimal}
use kp4pra.Aprs.Call.{is_call_char}
use kp4pra.Clock.Service.{consider_time, command_done, is_recent, set_state, step_if_due}
use kp4pra.Clock.Time.{normalize_callsign, full_match, day_time, is_ui}
use kp4pra.Clock.Time.{is_suffix}
use kp4pra.PyText.{is_digit}
use kp4pra.Clock.Time.{parse_field}
use kp4pra.Clock.Time.{is_ascii}
use kp4pra.Clock.Agw.{call}
use kp4pra.Clock.Time.{timestamp_field}
use kp4pra.Prelude.{
  ℕ, ◌+◌, ◌%◌, ◌≤◌, ◌≡◌, refl, ◌⊎◌, true, false, some, List, [], ◌∷◌, ◌++◌, Bytes, Text, codes,
  arith, abs, pos_part, neg_part,
}
use kp4pra.Clock.Time.{
  AprsTime, parse_aprs_time, seconds_since_midnight, circular_delta_seconds, hhmmss_h, is_suffix,
  timestamp_field, is_ascii, parse_field, by_suffix, in_range, aprs_time_from_frame,
}
use kp4pra.Clock.Time.Laws.{circular_delta_seconds-shortest}
use kp4pra.Clock.Agw.{read_agw_message, got, refused}
use kp4pra.Clock.Agw.Stream.{agw_header, read_agw_message-agw_header, read_agw_message-refused}
use kp4pra.Clock.Service.{
  new_service, Look, Event, arrived, timed_out, Control, run_events, consider_frame,
  start_listening, listening,
}
use kp4pra.Clock.Service.Steps.{IsPaced, run_events-IsPaced}
use kp4pra.Clock.Service.Command.{consider_frame-MayStep, MayStep, commands}

abbrev noon : AprsTime
noon = record { hour = 12; minute = 15; second = 30; utc = true; format_name = hhmmss_h }

reads_noon : parse_aprs_time (codes "/121530h1824.00N") ≡ some noon
unfolding parse_aprs_time timestamp_field is_ascii parse_field is_digit is_suffix by_suffix in_range
reads_noon = refl

circular_delta_seconds-shortest_example :
    ((86390 + pos_part (circular_delta_seconds 86390 5)) % 86400
      ≡ (5 + neg_part (circular_delta_seconds 86390 5)) % 86400)
    × ((e : ℕ)
        → ((86390 + e) % 86400 ≡ 5 % 86400) ⊎ (86390 % 86400 ≡ (5 + e) % 86400)
        → abs (circular_delta_seconds 86390 5) ≤ e)
circular_delta_seconds-shortest_example = circular_delta_seconds-shortest 86390 5

abbrev field : Text → Bytes
field s = s ++ (0 ∷ 0 ∷ 0 ∷ 0 ∷ [])

read_agw_message-agw_header_example :
    read_agw_message (
      agw_header 0 b'K' 0 (field (codes "KP4PRA")) (field (codes "APRS  ")) 3 (codes "....")
      ++ (codes "abc" ++ codes "rest"))
    ≡ got
        (record {
          port = 0;
          kind = b'K';
          pid = 0;
          call_from = call (field (codes "KP4PRA"));
          call_to = call (field (codes "APRS  "));
          payload = codes "abc";
        })
        (codes "rest")
read_agw_message-agw_header_example =
    read_agw_message-agw_header 0 b'K' 0 3 (field (codes "KP4PRA")) (field (codes "APRS  "))
      (codes "....") refl refl refl (codes "abc") (codes "rest") refl (omega arith)

read_agw_message-refused_example :
    read_agw_message (
      agw_header 0 b'K' 0 (field (codes "KP4PRA")) (field (codes "APRS  ")) 5000 (codes "....")
      ++ codes "rest")
    ≡ refused
read_agw_message-refused_example =
    read_agw_message-refused 0 b'K' 0 5000 (field (codes "KP4PRA")) (field (codes "APRS  "))
      (codes "....") refl refl refl (codes "rest") (omega arith) (omega arith)

abbrev lost : Control
lost = record { synced = false; same_settings = true }

abbrev ui_frame : Bytes
ui_frame =
    (130 ∷ 160 ∷ 164 ∷ 166 ∷ 64 ∷ 64 ∷ 0x60 ∷ 150 ∷ 160 ∷ 104 ∷ 160 ∷ 164 ∷ 130 ∷ 0x61 ∷ 0x03 ∷ 0xF0
      ∷ [])
    ++ codes "/121530h1824.00N"

abbrev look : Look
look = record {
  synced = false;
  local_seconds = 72000;
  utc_seconds = 0;
  offset = 72000;
  date = codes "2026-01-02";
  before = 1000;
  works = true;
  after = 1001;
}

sets_clock :
    commands (consider_frame ui_frame (codes "kp4pra") look new_service).actions
    ≡ codes "2026-01-02 08:15:30" ∷ []
unfolding consider_frame consider_time clock_values timestamp aprs_time_from_frame split_frame
    read_addresses read_control has_pid is_i text_eq normalize_callsign full_match upper strip
    rstrip lstrip decode_call call_text is_space is_call_char command_done is_recent set_state
    step_if_due by_suffix circular_delta_seconds day_time in_range is_ascii is_suffix is_ui
    parse_aprs_time parse_field seconds_since_midnight timestamp_field decimal is_digit is_lower
    is_upper to_upper
sets_clock = refl

consider_frame-MayStep_example :
    (commands (consider_frame ui_frame (codes "kp4pra") look new_service).actions ≡ [])
    ⊎ ((stamp : Text) × MayStep ui_frame (codes "kp4pra") look new_service stamp
        × (commands (consider_frame ui_frame (codes "kp4pra") look new_service).actions
            ≡ stamp ∷ []))
consider_frame-MayStep_example = consider_frame-MayStep ui_frame (codes "kp4pra") look new_service

abbrev message : AgwMessage
message = record {
  port = 0;
  kind = b'K';
  pid = 0;
  call_from = codes "KP4PRA";
  call_to = codes "APRS";
  payload = 0 ∷ ui_frame;
}

abbrev events : List Event
events =
    arrived message look 1002 lost 1003 ∷ arrived message look 1040 lost 1041 ∷ timed_out lost ∷ []

run_events-IsPaced_example : IsPaced (
    outcome_service
      (run_events (codes "kp4pra") events (listening (start_listening 990 new_service))))
unfolding start_listening set_state
run_events-IsPaced_example =
    run_events-IsPaced (codes "kp4pra") events (listening (start_listening 990 new_service))
      (record { spaced = tt; remembered = refl })
