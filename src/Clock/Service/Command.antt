-- ===== src/Clock/Service/Command.antt =====
-- When the command that sets the clock runs, and the time that it sets.
use kp4pra.Prelude.{bit_and, ◌*◌, ◌/◌, ◌%◌, ◌++◌, if◌then◌else◌, text_eq, text_eq_iff, Option-cases}
use kp4pra.Ax25.Frame.Split.{Frame, Result, ok, err, split_frame}
use kp4pra.Clock.Time.Laws.{IsTime, parse_aprs_time-IsTime}
use kp4pra.Clock.Time.{is_ui, time_of, normalize_callsign, parse_aprs_time}
use kp4pra.Clock.Service.Steps.{IsOver, is_recent-IsOver}
use kp4pra.Clock.Service.{clock_values, timestamp, is_recent, recovered}
use kp4pra.Prelude.{◌⊎◌}
use kp4pra.Prelude.{
  ℕ, ◌+◌, ◌<◌, ◌≡◌, refl, inl, inr, Bool, true, false, Option, none, some, List, [], ◌∷◌, Bytes,
  Text, arith, leb, abs, Bool-cases,
}
use kp4pra.Clock.Time.{
  AprsTime, aprs_time_from_frame, seconds_since_midnight, circular_delta_seconds,
}
use kp4pra.Clock.Service.{
  Action, wrote, ran_date, Service, set_state, Look, recovered, is_recent, command_done,
  step_if_due, consider_time, consider_frame, step_threshold,
}

-- The commands among the actions.
abbrev pub commands : List Action → List Text
commands [] = []
commands (wrote st ∷ old) = commands old
commands (ran_date stamp before after done ∷ old) = stamp ∷ commands old

-- A time stamp that shows the second `n` of the day.
pub record Shows (date : Text) (n : ℕ) (stamp : Text) : Type 0 where
  pub hour : ℕ
  pub minute : ℕ
  pub second : ℕ
  pub written :
      stamp
      ≡ date
        ++ (b' '
            ∷ (b'0' + hour / 10)
            ∷ (b'0' + hour % 10)
            ∷ b':'
            ∷ (b'0' + minute / 10)
            ∷ (b'0' + minute % 10)
            ∷ b':'
            ∷ (b'0' + second / 10)
            ∷ (b'0' + second % 10)
            ∷ [])
  pub bounded : (hour < 24) × (minute < 60) × (second < 60)
  pub is_time : hour * 3600 + minute * 60 + second ≡ n

-- What the clock shows, in the zone of the packet's time.
abbrev pub shown : AprsTime → Look → ℕ
shown t look = if t.utc then look.utc_seconds else look.local_seconds

-- The packet's time, in the local zone.
abbrev pub local_time : AprsTime → Look → ℕ
local_time t look =
    if t.utc then (seconds_since_midnight t + look.offset) % 86400 else seconds_since_midnight t

-- The frame is a UI frame of the station with this time in it.
pub record Reports (frame : Bytes) (source : Text) (t : AprsTime) : Type 0 where
  pub f : Frame
  pub is_frame : split_frame frame ≡ ok f
  pub from_source : normalize_callsign f.src ≡ normalize_callsign source
  pub is_ui_frame : bit_and f.ctrl 0xEF ≡ 0x03
  pub no_l3 : f.pid ≡ some 0xF0
  pub time : parse_aprs_time f.payload ≡ some t

-- A packet sets the clock by one command with this stamp.
pub record MayStep (frame : Bytes) (source : Text) (look : Look) (s : Service) (stamp : Text)
    : Type 0 where
  pub t : AprsTime
  pub reports : Reports frame source t
  pub lost : look.synced ≡ false
  pub far : step_threshold < abs (circular_delta_seconds (shown t look) (seconds_since_midnight t))
  pub over : IsOver look.before s.last_step
  pub sets : Shows look.date (local_time t look) stamp

is_ui_parts : (f : Frame) → is_ui f ≡ true → (bit_and f.ctrl 0xEF ≡ 0x03) × (f.pid ≡ some 0xF0)
unfolding is_ui
is_ui_parts f h = elim (Option-cases f.pid) [
  | inl e ↦ absurd (ground (arith, e))
  | inr (p, e) ↦ (ground (arith, e), ground (arith, e))
]

time_of-Reports :
    (frame : Bytes) (source : Text) (t : AprsTime) (o : Result Frame)
    → split_frame frame ≡ o
    → time_of source o ≡ some t
    → Reports frame source t
unfolding time_of
time_of-Reports frame source t (err e) made h = absurd (cc h)
time_of-Reports frame source t (ok f) made h =
    elim (Bool-cases (text_eq (normalize_callsign f.src) (normalize_callsign source))) [
      | inr e ↦ absurd (cc (rw e at h))
      | inl e ↦ elim (Bool-cases (is_ui f)) [
        | inr g ↦ absurd (cc (rw (e, g) at h))
        | inl g ↦ record {
          f = f;
          is_frame = made;
          from_source = (text_eq_iff (normalize_callsign f.src) (normalize_callsign source)).0 e;
          is_ui_frame = (is_ui_parts f g).0;
          no_l3 = (is_ui_parts f g).1;
          time = rw (e, g) at h;
        }
      ]
    ]

aprs_time_from_frame-Reports :
    (frame : Bytes) (source : Text) (t : AprsTime)
    → aprs_time_from_frame frame source ≡ some t
    → Reports frame source t
unfolding aprs_time_from_frame
aprs_time_from_frame-Reports frame source t h =
    time_of-Reports frame source t (split_frame frame) refl h

clock_values-shown : (t : AprsTime) (look : Look) → (clock_values t look).0 ≡ shown t look
unfolding clock_values
clock_values-shown t look = ground arith

clock_values-Shows :
    (t : AprsTime) (look : Look)
    → IsTime t
    → Shows look.date (local_time t look) (clock_values t look).1
unfolding clock_values timestamp
clock_values-Shows t look v = elim (Bool-cases t.utc) [
  | inl e ↦
      let s = (seconds_since_midnight t + look.offset) % 86400 in
      simp e (record {
        hour = s / 3600;
        minute = s / 60 % 60;
        second = s % 60;
        written = refl;
        bounded = omega arith;
        is_time = omega arith;
      })
  | inr e ↦ simp e (record {
    hour = t.hour;
    minute = t.minute;
    second = t.second;
    written = refl;
    bounded = (v.hours, v.minutes, v.seconds);
    is_time = (unfold seconds_since_midnight in refl);
  })
]

commands-command_done :
    (done : Bool) (stamp : Text) (look : Look) (s : Service)
    → commands (command_done done stamp look s).actions ≡ stamp ∷ commands s.actions
unfolding command_done set_state
commands-command_done true stamp look s = refl
commands-command_done false stamp look s = refl

step_if_due-commands :
    (t : AprsTime) (look : Look) (s : Service)
    → (commands (step_if_due t look s).actions ≡ commands s.actions)
      ⊎ ((step_threshold
            < abs (circular_delta_seconds (clock_values t look).0 (seconds_since_midnight t)))
          × IsOver look.before s.last_step
          × (commands (step_if_due t look s).actions
              ≡ (clock_values t look).1 ∷ commands s.actions))
unfolding step_if_due set_state
step_if_due-commands t look s =
    elim (Bool-cases (
      leb (abs (circular_delta_seconds (clock_values t look).0 (seconds_since_midnight t)))
        step_threshold)) [
          | inl near ↦ inl (rw near refl)
          | inr far ↦ elim (Bool-cases (is_recent look.before s.last_step)) [
            | inl recent ↦ inl (rw (far, recent) refl)
            | inr over ↦ inr (
              ground (arith, far),
              is_recent-IsOver look.before s.last_step over,
              rw (far, over) (commands-command_done look.works (clock_values t look).1 look s),
            )
          ]
        ]

recovered-commands : (s : Service) → commands (recovered s).actions ≡ commands s.actions
unfolding recovered set_state
recovered-commands s = refl

consider_time-MayStep :
    (frame : Bytes) (source : Text) (look : Look) (s : Service) (o : Option AprsTime)
    → aprs_time_from_frame frame source ≡ o
    → (commands (consider_time o look s).actions ≡ commands s.actions)
      ⊎ ((stamp : Text) × MayStep frame source look s stamp
          × (commands (consider_time o look s).actions ≡ stamp ∷ commands s.actions))
unfolding consider_time
consider_time-MayStep frame source look s none e = inl refl
consider_time-MayStep frame source look s (some t) e = elim (Bool-cases look.synced) [
  | inl y ↦ inl (simp y (recovered-commands s))
  | inr y ↦ elim (step_if_due-commands t look s) [
    | inl same ↦ inl (simp y same)
    | inr (far, over, one) ↦
        let reports = aprs_time_from_frame-Reports frame source t e in
        inr (
          (clock_values t look).1,
          record {
            t = t;
            reports = reports;
            lost = y;
            far = rw (← clock_values-shown t look) far;
            over = over;
            sets =
                clock_values-Shows t look
                  (parse_aprs_time-IsTime reports.f.payload t reports.time).0;
          },
          simp y one,
        )
  ]
]

-- A frame leaves the clock alone, or runs one command. In the second case it is a UI frame without
-- layer 3 whose source is the configured station, both normalized, with an APRS time in it that is
-- more than 120 seconds off what the clock shows; NTP is lost at that moment, the cooldown after the
-- last step is over, and the stamp of the command is the local date with that time, moved by the
-- offset of the local zone if it is in UTC.
pub consider_frame-MayStep :
    (frame : Bytes) (source : Text) (look : Look) (s : Service)
    → (commands (consider_frame frame source look s).actions ≡ commands s.actions)
      ⊎ ((stamp : Text) × MayStep frame source look s stamp
          × (commands (consider_frame frame source look s).actions ≡ stamp ∷ commands s.actions))
unfolding consider_frame
consider_frame-MayStep frame source look s =
    consider_time-MayStep frame source look s (aprs_time_from_frame frame source) refl
