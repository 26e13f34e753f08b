-- ===== src/Clock/Time/Laws.antt =====
-- The range of a parsed time, and the shortest way round the clock.
use kp4pra.Clock.Time.{ddhhmm_slash}
use kp4pra.Clock.Time.{ddhhmm_z, two}
use kp4pra.Prelude.{inr}
use kp4pra.Prelude.{inl}
use kp4pra.Prelude.{Bool-cases, if◌then◌else◌, ◌⊎◌}
use kp4pra.Clock.Time.{Bool}
use kp4pra.Prelude.{
  Bool, true, false, ◌||◌, [], ◌∷◌, if◌then◌else◌, ◌⊎◌, inl, inr, Bool-cases, ℕ, ◌+◌, ◌%◌, ◌≤◌, ◌<◌,
  ◌≡◌, Option, none, some, Bytes, Text, arith, abs, pos_part, neg_part, ◌==◌,
}
use kp4pra.Clock.Time.{
  AprsTime, Format, in_range, day_time, by_suffix, parse_field, parse_aprs_time, parse_stamp,
  timestamp_field, seconds_since_midnight, circular_delta_seconds,
}

pub record IsTime (t : AprsTime) : Type 0 where
  pub hours : t.hour < 24
  pub minutes : t.minute < 60
  pub seconds : t.second < 60

in_range-IsTime : (t u : AprsTime) → in_range t ≡ some u → IsTime u
unfolding in_range
in_range-IsTime t u e = ground arith

day_time-IsTime :
    (day hour minute : ℕ) (utc : Bool) (name : Format) (u : AprsTime)
    → day_time day hour minute utc name ≡ some u
    → IsTime u
unfolding day_time in_range
day_time-IsTime day hour minute utc name u e = ground arith

by_suffix-IsTime : (x p q r : ℕ) (u : AprsTime) → by_suffix x p q r ≡ some u → IsTime u
unfolding by_suffix
by_suffix-IsTime x p q r u e = elim (Bool-cases (x == b'z' || x == b'Z')) [
  | inl z ↦ day_time-IsTime p q r true ddhhmm_z u (rw z at e)
  | inr h ↦ elim (Bool-cases (x == b'/')) [
    | inl s ↦ day_time-IsTime p q r false ddhhmm_slash u (rw (h, s) at e)
    | inr t ↦ in_range-IsTime _ u (rw (h, t) at e)
  ]
]

field_cases :
    (c : Bool) (x p q r : ℕ) (u : AprsTime)
    → (if c then by_suffix x p q r else none) ≡ some u
    → IsTime u
field_cases true x p q r u e = by_suffix-IsTime x p q r u e
field_cases false x p q r u e = absurd (cc e)

parse_field-IsTime : (s : Text) (u : AprsTime) → parse_field s ≡ some u → IsTime u
unfolding parse_field
parse_field-IsTime (a ∷ b ∷ c ∷ d ∷ e ∷ f ∷ x ∷ []) u h =
    field_cases _ x (two a b) (two c d) (two e f) u h
parse_field-IsTime [] u h = absurd (cc h)
parse_field-IsTime (a ∷ []) u h = absurd (cc h)
parse_field-IsTime (a ∷ b ∷ []) u h = absurd (cc h)
parse_field-IsTime (a ∷ b ∷ c ∷ []) u h = absurd (cc h)
parse_field-IsTime (a ∷ b ∷ c ∷ d ∷ []) u h = absurd (cc h)
parse_field-IsTime (a ∷ b ∷ c ∷ d ∷ e ∷ []) u h = absurd (cc h)
parse_field-IsTime (a ∷ b ∷ c ∷ d ∷ e ∷ f ∷ []) u h = absurd (cc h)
parse_field-IsTime (a ∷ b ∷ c ∷ d ∷ e ∷ f ∷ x ∷ y ∷ s) u h = absurd (cc h)

parse_stamp-IsTime : (o : Option Text) (u : AprsTime) → parse_stamp o ≡ some u → IsTime u
unfolding parse_stamp
parse_stamp-IsTime none u h = absurd (cc h)
parse_stamp-IsTime (some s) u h = parse_field-IsTime s u h

-- Whatever the packet holds, a time that is read from it is one of the day.
pub parse_aprs_time-IsTime :
    (payload : Bytes) (t : AprsTime)
    → parse_aprs_time payload ≡ some t
    → IsTime t × (seconds_since_midnight t < 86400)
unfolding parse_aprs_time seconds_since_midnight
parse_aprs_time-IsTime payload t e =
    let v = parse_stamp-IsTime (timestamp_field payload) t e in
    (v, omega (arith, v.hours, v.minutes, v.seconds))

-- The difference leads from the current second of the day to the target, and no other number of
-- seconds that does so, forward or backward, is smaller.
pub circular_delta_seconds-shortest :
    (current target : ℕ)
    → ((current + pos_part (circular_delta_seconds current target)) % 86400
        ≡ (target + neg_part (circular_delta_seconds current target)) % 86400)
      × ((e : ℕ)
          → ((current + e) % 86400 ≡ target % 86400) ⊎ (current % 86400 ≡ (target + e) % 86400)
          → abs (circular_delta_seconds current target) ≤ e)
unfolding circular_delta_seconds
circular_delta_seconds-shortest current target = (ground arith, λ e h. nearest e h)
  where
    nearest :
        (e : ℕ)
        → ((current + e) % 86400 ≡ target % 86400) ⊎ (current % 86400 ≡ (target + e) % 86400)
        → abs (circular_delta_seconds current target) ≤ e
    nearest e (inl h) = ground arith
    nearest e (inr h) = ground arith
