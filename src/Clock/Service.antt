-- ===== src/Clock/Service.antt =====
-- src/aprs_clock.py: `AprsClockService`. Between two awaits the code is one function; what it sees of
-- the world (the NTP state, the clocks, whether the command works) is an argument. `actions` has
-- what it did, the newest first. The fields of the status file beside the state are left out.
pub mod Steps
pub mod Command
use kp4pra.Prelude.{◌++◌, ◌*◌, ◌/◌, ◌%◌}
use kp4pra.Prelude.{◌%◌, ◌++◌, ◌/◌}
use kp4pra.Prelude.{
  ℕ, zero, suc, ◌+◌, ◌≤◌, Bool, true, false, not, Option, none, some, List, [], ◌∷◌, Bytes, Text,
  ltb, leb, ◌==◌, if◌then◌else◌, ℤ, pos, negsuc, abs,
}
use kp4pra.Clock.Time.{
  AprsTime, aprs_time_from_frame, seconds_since_midnight, circular_delta_seconds,
}
use kp4pra.Clock.Agw.{AgwMessage, raw_ax25_from_agw}
use kp4pra.Clock.Gate.{NtpLossGate, new_gate, observe}

abbrev pub step_threshold : ℕ
step_threshold = 120

abbrev pub step_cooldown : ℕ
step_cooldown = 300

abbrev pub ntp_check : ℕ
ntp_check = 30

pub data State : Type 0 where
  ntp_primary confirming_ntp_loss connecting watching cooldown stepped set_failed : State

-- `ran_date stamp before after ok`: the command ran with `stamp`; the monotonic clock showed
-- `before` at the test of the cooldown and `after` behind the command, which worked if `ok`.
pub data Action : Type 0 where
  wrote : State → Action
  ran_date : Text → ℕ → ℕ → Bool → Action

pub record Service : Type 0 where
  pub gate : NtpLossGate
  pub offline_confirmed : Bool
  pub last_step : ℤ
  pub last_state : Option State
  pub last_ntp_synced : Option Bool
  pub actions : List Action

abbrev pub new_service : Service
new_service = record {
  gate = new_gate;
  offline_confirmed = false;
  last_step = negsuc 299;
  last_state = none;
  last_ntp_synced = none;
  actions = [];
}

abbrev pub act : Action → Service → Service
act a s = record s { actions = a ∷ s.actions }

unfoldable pub set_state : State → Service → Service
set_state st s = act (wrote st) (record s { last_state = some st })

-- The report of `update_ntp_gate`: nothing once the loss is confirmed.
unfoldable pub report_gate : Bool → Bool → Service → Service
report_gate true confirmed s = set_state ntp_primary s
report_gate false true s = s
report_gate false false s = set_state confirming_ntp_loss s

unfoldable pub update_ntp_gate : Bool → Service → Service × Bool
update_ntp_gate synced s =
    let (gate', confirmed) = observe synced s.gate in
    (
      report_gate synced confirmed
          (record s { gate = gate'; offline_confirmed = confirmed; last_ntp_synced = some synced }),
      confirmed,
    )

-- What `consider_frame` sees: NTP just before the step, the clock, the monotonic clock, whether the
-- command worked, and the monotonic clock again. Of the clock: the seconds of the local and of the UTC
-- day, the offset of the local zone from UTC in seconds modulo a day, and the local date in the
-- form %Y-%m-%d.
pub record Look : Type 0 where
  pub synced : Bool
  pub local_seconds : ℕ
  pub utc_seconds : ℕ
  pub offset : ℕ
  pub date : Text
  pub before : ℕ
  pub works : Bool
  pub after : ℕ

-- `%02d`, for a number below 100.
abbrev pub two_digits : ℕ → Text
two_digits n = (b'0' + n / 10) ∷ (b'0' + n % 10) ∷ []

-- `strftime("%Y-%m-%d %H:%M:%S")`
unfoldable pub timestamp : Text → ℕ → ℕ → ℕ → Text
timestamp date hour minute second =
    date ++ (b' ' ∷ (two_digits hour ++ (b':' ∷ (two_digits minute ++ (b':' ∷ two_digits second)))))

-- `_clock_values`; `astimezone` adds the offset.
unfoldable pub clock_values : AprsTime → Look → ℕ × Text
clock_values t look =
    let s = (seconds_since_midnight t + look.offset) % 86400 in
    if t.utc
    then (look.utc_seconds, timestamp look.date (s / 3600) (s / 60 % 60) (s % 60))
    else (look.local_seconds, timestamp look.date t.hour t.minute t.second)

unfoldable pub recovered : Service → Service
recovered s = set_state ntp_primary (record s {
  gate = (observe true s.gate).0;
  last_ntp_synced = some true;
  offline_confirmed = false;
})

-- `time.monotonic() - self.last_step_monotonic < STEP_COOLDOWN_SECONDS`
unfoldable pub is_recent : ℕ → ℤ → Bool
is_recent now (pos last) = ltb now (last + step_cooldown)
is_recent now (negsuc n) = ltb (now + suc n) step_cooldown

-- Behind the command, which worked or did not.
unfoldable pub command_done : Bool → Text → Look → Service → Service
command_done true stamp look s =
    set_state stepped
      (record (act (ran_date stamp look.before look.after true) s) { last_step = pos look.after })
command_done false stamp look s =
    set_state set_failed (act (ran_date stamp look.before look.after false) s)

unfoldable pub step_if_due : AprsTime → Look → Service → Service
step_if_due t look s =
    let (current, stamp) = clock_values t look in
    if leb (abs (circular_delta_seconds current (seconds_since_midnight t))) step_threshold
    then set_state watching s
    else if is_recent look.before s.last_step
    then set_state cooldown s
    else command_done look.works stamp look s

unfoldable pub consider_time : Option AprsTime → Look → Service → Service
consider_time none look s = s
consider_time (some t) look s = if look.synced then recovered s else step_if_due t look s

unfoldable pub consider_frame : Bytes → Text → Look → Service → Service
consider_frame frame source look s = consider_time (aprs_time_from_frame frame source) look s

-- The loop of `listen_once`: it goes on, or returns.
pub record Listener : Type 0 where
  pub service : Service
  pub next_check : ℕ

pub data Outcome : Type 0 where
  listening : Listener → Outcome
  left : Service → Outcome

-- The NTP state, and whether the settings are still the same.
pub record Control : Type 0 where
  pub synced : Bool
  pub same_settings : Bool

-- `if not await self.update_ntp_gate(): return`, then the test of the settings.
unfoldable pub check_control : Control → ℕ → Service → Outcome
check_control c next s =
    let (s', confirmed) = update_ntp_gate c.synced s in
    if not confirmed
    then left s'
    else if not c.same_settings
    then left s'
    else listening (record { service = s'; next_check = next })

-- What the loop meets: no message for the length of the timeout, or a message, with the monotonic
-- clock behind it and at the end.
pub data Event : Type 0 where
  timed_out : Control → Event
  arrived : AgwMessage → Look → ℕ → Control → ℕ → Event

unfoldable pub consider_message : Option Bytes → Text → Look → Service → Service
consider_message none source look s = s
consider_message (some frame) source look s = consider_frame frame source look s

unfoldable pub on_event : Text → Event → Listener → Outcome
on_event source (timed_out c) l = check_control c l.next_check l.service
on_event source (arrived m look now c later) l =
    let s = consider_message (raw_ax25_from_agw m) source look l.service in
    if leb l.next_check now
    then check_control c (later + ntp_check) s
    else listening (record l { service = s })

-- The connection is open: from here the loop runs over what comes.
unfoldable pub start_listening : ℕ → Service → Listener
start_listening now s = record {
  service = set_state watching (set_state connecting s);
  next_check = now + ntp_check;
}

unfoldable pub run_events : Text → List Event → Outcome → Outcome
run_events source [] o = o
run_events source (e ∷ es) (left s) = left s
run_events source (e ∷ es) (listening l) = run_events source es (on_event source e l)
