-- ===== src/Tests/Gateway.antt =====
-- Inputs for src/rms/gateway.py: a station in a session, and its frames.
use kp4pra.Prelude.{false}
use kp4pra.Gateway.Lost.{IsLost, handle_frame-loses}
use kp4pra.Gateway.Handle.{handle_frame, raised}
use kp4pra.Gateway.Relaying.{relay_step-Keeps}
use kp4pra.Gateway.Window.{Stepped}
use kp4pra.Gateway.State.{sending}
use kp4pra.Prelude.{text_eq_refl}
use kp4pra.Prelude.{◌+◌}
use kp4pra.Prelude.{ℕ, ◌≡◌, refl, true, none, some, List, [], ◌∷◌, codes, Bytes, Text, arith, map}
use kp4pra.Ax25.Control.{LinkState, new_link, is_i, is_sabm, is_disc, ns}
use kp4pra.Ax25.Frame.Split.{Frame}
use kp4pra.Ax25.Frame.RoundTrip.{text}
use kp4pra.Gateway.State.{Gateway, idle, receiving, alone}
use kp4pra.Gateway.Relay.{bytes, relay_step}
use kp4pra.Gateway.Handle.{returned, handle_sabm}
use kp4pra.Gateway.Window.{Window, Stepped, relay_step-Window}
use kp4pra.Gateway.Accepting.{IsNumbered, InSession, forwarded}
use kp4pra.Gateway.Delivery.{Arrive, run_frames, run_frames-in_order, numbers, expected_after}
use kp4pra.Gateway.Sessions.{handle_sabm-opens, handle_sabm-reconnect}
use kp4pra.Tests.Calls.{
  gateway_call, station_call, gateway_call-IsCanonical, station_call-IsCanonical,
}

abbrev peer : Text
peer = text station_call

-- Nine frames sent and two of them acknowledged, eight frames accepted.
abbrev full_link : LinkState
full_link = record { remote = peer; vs = 1; vr = 0; va = 2 }

abbrev open_gateway : Gateway
open_gateway = record { link = some full_link; cms = some peer; relay = receiving; out = [] }

-- With four frames acknowledged, and one chunk to send.
abbrev sending_link : LinkState
sending_link = record { remote = peer; vs = 1; vr = 0; va = 4 }

abbrev sending_gateway : Gateway
sending_gateway = record {
  link = some sending_link;
  cms = some peer;
  relay = sending (codes "mail" ∷ []);
  out = [];
}

sending_link-Window : Window sending_link 9 4
sending_link-Window = omega arith

relay_step-Window_example :
    Stepped
      (text gateway_call)
      sending_link
      9
      4
      sending_gateway
      (relay_step (text gateway_call) alone (bytes []) sending_gateway)
relay_step-Window_example =
    relay_step-Window (text gateway_call) alone sending_gateway sending_link (bytes []) 9 4 refl
      sending_link-Window

-- What the peer sends under each number.
abbrev mail : ℕ → Bytes
mail k = k ∷ []

-- An I frame of the peer with N(S) = k, at k below 8.
abbrev i_frame : ℕ → ℕ → Frame
i_frame ctrl k = record {
  dest = text gateway_call;
  src = peer;
  path = [];
  ctrl = ctrl;
  pid = some 0xF0;
  payload = mail k;
}

-- Frame 8, frame 8 again, frame 10 and then the missing frame 9.
abbrev arrivals : List (ℕ × Frame)
arrivals =
    (8, i_frame 0x00 8) ∷ (8, i_frame 0x10 8) ∷ (10, i_frame 0x04 10) ∷ (9, i_frame 0x02 9) ∷ []

number_8 : IsNumbered (text gateway_call) peer mail 8 (i_frame 0x00 8)
unfolding is_sabm is_disc is_i ns
number_8 = record {
  to_us = refl;
  from_peer = refl;
  not_sabm = refl;
  not_disc = refl;
  i_frame = refl;
  number = refl;
  content = refl;
}

number_8_again : IsNumbered (text gateway_call) peer mail 8 (i_frame 0x10 8)
unfolding is_sabm is_disc is_i ns
number_8_again = record {
  to_us = refl;
  from_peer = refl;
  not_sabm = refl;
  not_disc = refl;
  i_frame = refl;
  number = refl;
  content = refl;
}

number_10 : IsNumbered (text gateway_call) peer mail 10 (i_frame 0x04 10)
unfolding is_sabm is_disc is_i ns
number_10 = record {
  to_us = refl;
  from_peer = refl;
  not_sabm = refl;
  not_disc = refl;
  i_frame = refl;
  number = refl;
  content = refl;
}

number_9 : IsNumbered (text gateway_call) peer mail 9 (i_frame 0x02 9)
unfolding is_sabm is_disc is_i ns
number_9 = record {
  to_us = refl;
  from_peer = refl;
  not_sabm = refl;
  not_disc = refl;
  i_frame = refl;
  number = refl;
  content = refl;
}

arrivals-Arrive : Arrive (IsNumbered (text gateway_call) peer mail) 8 arrivals
arrivals-Arrive = (
  (number_8, (omega arith, omega arith)),
  (
    (number_8_again, (omega arith, omega arith)),
    ((number_10, (omega arith, omega arith)), ((number_9, (omega arith, omega arith)), tt)),
  ),
)

open_gateway-InSession : InSession open_gateway peer 8
open_gateway-InSession = record {
  l = full_link;
  linked = refl;
  remote_is = refl;
  vr_is = refl;
  station = peer;
  cms_open = refl;
}

run_frames-in_order_example :
    (g' : Gateway) × (n : ℕ) × (run_frames
        (text gateway_call)
        (relay_step (text gateway_call) alone (bytes (codes "mail")))
        true
        true
        (map (λ p. p.1) arrivals)
        open_gateway
      ≡ returned g')
    × InSession g' peer (8 + n)
    × (forwarded g'.out ≡ map mail (numbers 8 n))
    × (expected_after 8 arrivals ≡ 8 + n)
run_frames-in_order_example =
    run_frames-in_order station_call gateway_call station_call-IsCanonical gateway_call-IsCanonical
      (relay_step (text gateway_call) alone (bytes (codes "mail")))
      (relay_step-Keeps station_call gateway_call station_call-IsCanonical gateway_call-IsCanonical
        alone b'm' (codes "ail"))
      true mail (λ k. refl) arrivals open_gateway 8 arrivals-Arrive open_gateway-InSession

abbrev quiet_gateway : Gateway
quiet_gateway = record { link = none; cms = none; relay = idle; out = [] }

handle_sabm-opens_example :
    (g' : Gateway) × (handle_sabm (text gateway_call) alone true peer true quiet_gateway
      ≡ returned g')
    × (g'.link ≡ some (new_link peer))
    × (g'.cms ≡ some peer)
    × ((relay_step (text gateway_call) alone (bytes []) g').relay ≡ receiving)
    × ((relay_step (text gateway_call) alone (bytes []) g').link ≡ some (new_link peer))
handle_sabm-opens_example =
    handle_sabm-opens station_call gateway_call true alone quiet_gateway (bytes [])
      station_call-IsCanonical gateway_call-IsCanonical refl refl

handle_sabm-reconnect_example :
    (g' : Gateway) × (handle_sabm (text gateway_call) alone true peer true sending_gateway
      ≡ returned g')
    × (g'.link ≡ none)
    × (g'.cms ≡ some peer)
    × ((relay_step (text gateway_call) alone (bytes []) g').cms ≡ none)
    × ((relay_step (text gateway_call) alone (bytes []) g').relay ≡ idle)
handle_sabm-reconnect_example =
    handle_sabm-reconnect station_call gateway_call true alone sending_gateway (bytes [])
      station_call-IsCanonical gateway_call-IsCanonical refl (text_eq_refl peer)

handle_frame-loses_example :
    (g1 : Gateway) × (handle_frame
        (text gateway_call)
        (relay_step (text gateway_call) alone (bytes (codes "mail")))
        true
        false
        (i_frame 0x00 8)
        open_gateway
      ≡ raised g1)
    × IsLost station_call gateway_call station_call-IsCanonical gateway_call-IsCanonical
        (relay_step (text gateway_call) alone (bytes (codes "mail")))
        (relay_step-Keeps station_call gateway_call station_call-IsCanonical
          gateway_call-IsCanonical alone b'm'
          (codes "ail"))
        true
        mail
        (λ k. refl)
        open_gateway
        g1
        8
        (i_frame 0x00 8)
handle_frame-loses_example =
    handle_frame-loses station_call gateway_call station_call-IsCanonical gateway_call-IsCanonical
      (relay_step (text gateway_call) alone (bytes (codes "mail")))
      (relay_step-Keeps station_call gateway_call station_call-IsCanonical gateway_call-IsCanonical
        alone b'm' (codes "ail"))
      true mail (λ k. refl) (i_frame 0x00 8) open_gateway 8 number_8 open_gateway-InSession
