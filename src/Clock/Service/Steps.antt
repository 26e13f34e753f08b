-- ===== src/Clock/Service/Steps.antt =====
-- When the service sets the clock, and how often.
use kp4pra.Clock.Service.{clock_values}
use kp4pra.Clock.Service.{clock_values}
use mathlib.Core.Path.{subst}
use kp4pra.Clock.Service.{confirming_ntp_loss, cooldown}
use kp4pra.Clock.Service.{ntp_check, ntp_primary, watching}
use kp4pra.Prelude.{
  ℕ, suc, ◌+◌, ◌≤◌, ◌≡◌, refl, inl, inr, Bool, true, false, Option, none, some, List, [], ◌∷◌,
  Bytes, Text, arith, leb, ℤ, pos, negsuc, abs, Bool-cases,
}
use kp4pra.Clock.Time.{
  AprsTime, aprs_time_from_frame, seconds_since_midnight, circular_delta_seconds,
}
use kp4pra.Clock.Agw.{raw_ax25_from_agw}
use kp4pra.Clock.Gate.{observe}
use kp4pra.Clock.Service.{
  State, Action, wrote, ran_date, Service, new_service, set_state, report_gate, update_ntp_gate,
  Look, recovered, is_recent, command_done, step_if_due, consider_time, consider_frame, Listener,
  Outcome, listening, left, Control, check_control, Event, timed_out, arrived, consider_message,
  on_event, run_events, step_threshold, step_cooldown,
}

-- The monotonic time of the last step that worked; at first, one that is just over.
abbrev pub last_of : List Action → ℤ
last_of [] = negsuc 299
last_of (wrote st ∷ old) = last_of old
last_of (ran_date stamp before after true ∷ old) = pos after
last_of (ran_date stamp before after false ∷ old) = last_of old

-- The cooldown has passed.
abbrev pub IsOver : ℕ → ℤ → Type 0
IsOver now (pos last) = last + step_cooldown ≤ now
IsOver now (negsuc n) = step_cooldown ≤ now + suc n

-- Each command has come a whole cooldown after the last one that worked.
abbrev pub IsSpaced : List Action → Type 0
IsSpaced [] = Unit
IsSpaced (wrote st ∷ old) = IsSpaced old
IsSpaced (ran_date stamp before after ok ∷ old) = IsOver before (last_of old) × IsSpaced old

pub record IsPaced (s : Service) : Type 0 where
  pub spaced : IsSpaced s.actions
  pub remembered : s.last_step ≡ last_of s.actions

pub new_service-IsPaced : IsPaced new_service
new_service-IsPaced = record { spaced = tt; remembered = refl }

pub is_recent-IsOver : (now : ℕ) (last : ℤ) → is_recent now last ≡ false → IsOver now last
unfolding is_recent
is_recent-IsOver now (pos last) h = ground arith
is_recent-IsOver now (negsuc n) h = ground arith

set_state-IsPaced : (st : State) (s : Service) → IsPaced s → IsPaced (set_state st s)
unfolding set_state
set_state-IsPaced st s v = record { spaced = v.spaced; remembered = v.remembered }

command_done-IsPaced :
    (ok : Bool) (stamp : Text) (look : Look) (s : Service)
    → IsPaced s
    → IsOver look.before (last_of s.actions)
    → IsPaced (command_done ok stamp look s)
unfolding command_done set_state
command_done-IsPaced true stamp look s v over = record {
  spaced = (over, v.spaced);
  remembered = refl;
}
command_done-IsPaced false stamp look s v over = record {
  spaced = (over, v.spaced);
  remembered = v.remembered;
}

step_if_due-IsPaced :
    (t : AprsTime) (look : Look) (s : Service) → IsPaced s → IsPaced (step_if_due t look s)
unfolding step_if_due
step_if_due-IsPaced t look s v =
    elim (Bool-cases (
      leb (abs (circular_delta_seconds (clock_values t look).0 (seconds_since_midnight t)))
        step_threshold)) [
          | inl near ↦ rw near (set_state-IsPaced watching s v)
          | inr far ↦ elim (Bool-cases (is_recent look.before s.last_step)) [
            | inl recent ↦ rw (far, recent) (set_state-IsPaced cooldown s v)
            | inr over ↦
                rw (far, over)
                  (command_done-IsPaced look.works (clock_values t look).1 look s v (
                    subst (IsOver look.before) v.remembered
                      (is_recent-IsOver look.before s.last_step over)))
          ]
        ]

consider_time-IsPaced :
    (o : Option AprsTime) (look : Look) (s : Service) → IsPaced s → IsPaced (consider_time o look s)
unfolding consider_time recovered
consider_time-IsPaced none look s v = v
consider_time-IsPaced (some t) look s v = elim (Bool-cases look.synced) [
  | inl e ↦
      simp e
        (set_state-IsPaced ntp_primary _ (record { spaced = v.spaced; remembered = v.remembered }))
  | inr e ↦ simp e (step_if_due-IsPaced t look s v)
]

report_gate-IsPaced :
    (synced confirmed : Bool) (s : Service) → IsPaced s → IsPaced (report_gate synced confirmed s)
unfolding report_gate
report_gate-IsPaced true confirmed s v = set_state-IsPaced ntp_primary s v
report_gate-IsPaced false true s v = v
report_gate-IsPaced false false s v = set_state-IsPaced confirming_ntp_loss s v

update_ntp_gate-IsPaced :
    (synced : Bool) (s : Service) → IsPaced s → IsPaced (update_ntp_gate synced s).0
unfolding update_ntp_gate
update_ntp_gate-IsPaced synced s v =
    report_gate-IsPaced synced (observe synced s.gate).1 _
      (record { spaced = v.spaced; remembered = v.remembered })

abbrev pub outcome_service : Outcome → Service
outcome_service (listening l) = l.service
outcome_service (left s) = s

check_control-IsPaced :
    (c : Control) (next : ℕ) (s : Service)
    → IsPaced s
    → IsPaced (outcome_service (check_control c next s))
unfolding check_control
check_control-IsPaced c next s v =
    let kept = update_ntp_gate-IsPaced c.synced s v in
    elim (Bool-cases (update_ntp_gate c.synced s).1) [
      | inr e ↦ rw e kept
      | inl e ↦ elim (Bool-cases c.same_settings) [
        | inl f ↦ rw e (simp f kept)
        | inr f ↦ rw e (simp f kept)
      ]
    ]

consider_message-IsPaced :
    (o : Option Bytes) (source : Text) (look : Look) (s : Service)
    → IsPaced s
    → IsPaced (consider_message o source look s)
unfolding consider_message consider_frame
consider_message-IsPaced none source look s v = v
consider_message-IsPaced (some frame) source look s v =
    consider_time-IsPaced (aprs_time_from_frame frame source) look s v

on_event-IsPaced :
    (source : Text) (e : Event) (l : Listener)
    → IsPaced l.service
    → IsPaced (outcome_service (on_event source e l))
unfolding on_event
on_event-IsPaced source (timed_out c) l v = check_control-IsPaced c l.next_check l.service v
on_event-IsPaced source (arrived m look now c later) l v =
    let kept = consider_message-IsPaced (raw_ax25_from_agw m) source look l.service v in
    elim (Bool-cases (leb l.next_check now)) [
      | inl due ↦ rw due (check_control-IsPaced c (later + ntp_check) _ kept)
      | inr wait ↦ rw wait kept
    ]

-- Whatever messages and timeouts come, and whatever the world looks like at each: every command that
-- sets the clock comes at least 300 seconds after the last one that worked.
pub run_events-IsPaced :
    (source : Text) (es : List Event) (o : Outcome)
    → IsPaced (outcome_service o)
    → IsPaced (outcome_service (run_events source es o))
unfolding run_events
run_events-IsPaced source [] o v = v
run_events-IsPaced source (e ∷ es) (left s) v = v
run_events-IsPaced source (e ∷ es) (listening l) v =
    run_events-IsPaced source es (on_event source e l) (on_event-IsPaced source e l v)
