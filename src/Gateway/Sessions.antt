-- ===== src/Gateway/Sessions.antt =====
-- A session that a SABM opens, and one that it ends.
use kp4pra.Gateway.State.{Relay, sending, alone}
use kp4pra.Gateway.Replies.{reply-response}
use kp4pra.Prelude.{codes}
use kp4pra.Gateway.State.{status}
use kp4pra.Gateway.Replies.{response}
use kp4pra.Prelude.{◌≡◌, refl, Bool, true, false, Option, none, some, arith, Text, bit_or}
use kp4pra.Ax25.Control.{LinkState, new_link, pf_bit, ua}
use kp4pra.Ax25.Frame.RoundTrip.{Call, text, IsCanonical}
use kp4pra.Gateway.State.{
  Gateway, idle, created, receiving, tx, emit, alone, close_cms, close_session,
}
use kp4pra.Gateway.Relay.{relay_step, relay_at, loop_head, Received}
use kp4pra.Gateway.Handle.{
  returned, linked_to, busy_with_other, cancel_relay, start_new_session, handle_sabm,
}

-- The state of a session that has just been opened for `s`, with the relay task not yet run.
record Opened (g : Gateway) (src : Text) (o : Option LinkState) : Type 0 where
  cms_is : g.cms ≡ some src
  relay_is : g.relay ≡ created
  link_is : g.link ≡ o

-- What the handler leaves when the CMS accepts.
accepted : Call → Call → Bool → Gateway → Gateway
accepted s c pf g =
    let answered =
      emit (tx (response s c (bit_or ua (pf_bit pf))))
        (record g { link = some (new_link (text s)) }) in
    let g' = start_new_session (text c) alone (text s) (status (codes "connecting_cms") answered) in
    record (status (codes "connected") g') { relay = created }

handle_sabm-accepted :
    (s c : Call) (pf : Bool) (g : Gateway)
    → IsCanonical s
    → IsCanonical c
    → busy_with_other g (text s) ≡ false
    → handle_sabm (text c) alone true (text s) pf g ≡ returned (accepted s c pf g)
unfolding handle_sabm accepted
handle_sabm-accepted s c pf g vs vc free = rw (
  free,
  reply-response s c alone (bit_or ua (pf_bit pf)) (record g { link = some (new_link (text s)) }) vs
      vc,
)

accepted-idle :
    (s c : Call) (pf : Bool) (g : Gateway)
    → g.cms ≡ none
    → g.relay ≡ idle
    → Opened (accepted s c pf g) (text s) (some (new_link (text s)))
unfolding accepted start_new_session cancel_relay close_cms
accepted-idle s c pf g closed quiet = record {
  cms_is = refl;
  relay_is = refl;
  link_is = simp (quiet, closed);
}

-- `cms_task` has begun and is not done.
abbrev pub is_running : Relay → Bool
is_running idle = false
is_running created = false
is_running receiving = true
is_running (sending _) = true

cancel_relay-running :
    (at : Relay) (g : Gateway)
    → is_running at ≡ true
    → cancel_relay at g ≡ record (close_session alone g) { relay = idle }
unfolding cancel_relay
cancel_relay-running idle g h = absurd (cc h)
cancel_relay-running created g h = absurd (cc h)
cancel_relay-running receiving g h = refl
cancel_relay-running (sending cs) g h = refl

accepted-running :
    (s c : Call) (pf : Bool) (g : Gateway)
    → is_running g.relay ≡ true
    → Opened (accepted s c pf g) (text s) none
unfolding accepted start_new_session close_cms close_session
accepted-running s c pf g running = record {
  cms_is = refl;
  relay_is = refl;
  link_is = simp (cancel_relay-running g.relay _ running);
}

first_step-linked :
    (cms_call : Text) (other : Gateway → Gateway) (g : Gateway) (r : Received) (src : Text)
    (l : LinkState)
    → Opened g src (some l)
    → ((relay_step cms_call other r g).relay ≡ receiving)
      × ((relay_step cms_call other r g).link ≡ some l)
unfolding relay_at loop_head
first_step-linked cms_call other g r src l o =
    (simp o.relay_is (ground arith), simp o.relay_is (ground arith))

first_step-unlinked :
    (cms_call : Text) (other : Gateway → Gateway) (g : Gateway) (r : Received) (src : Text)
    → Opened g src none
    → ((relay_step cms_call other r g).cms ≡ none) × ((relay_step cms_call other r g).relay ≡ idle)
unfolding relay_at loop_head close_session
first_step-unlinked cms_call other g r src o =
    (simp o.relay_is (ground arith), simp o.relay_is (ground arith))

not_busy-linked :
    (g : Gateway) (src : Text) → linked_to g.link src ≡ true → busy_with_other g src ≡ false
unfolding busy_with_other
not_busy-linked g src h = ground arith

not_busy-closed : (g : Gateway) (src : Text) → g.cms ≡ none → busy_with_other g src ≡ false
unfolding busy_with_other
not_busy-closed g src h = ground arith

-- From a gateway without a session, a SABM that the CMS accepts opens one: the link is fresh, the
-- CMS session is the station's, and the task's first step waits for the CMS.
pub handle_sabm-opens :
    (s c : Call) (pf : Bool) (other : Gateway → Gateway) (g : Gateway) (r : Received)
    → IsCanonical s
    → IsCanonical c
    → g.cms ≡ none
    → g.relay ≡ idle
    → (g' : Gateway) × (handle_sabm (text c) alone true (text s) pf g ≡ returned g')
      × (g'.link ≡ some (new_link (text s)))
      × (g'.cms ≡ some (text s))
      × ((relay_step (text c) other r g').relay ≡ receiving)
      × ((relay_step (text c) other r g').link ≡ some (new_link (text s)))
handle_sabm-opens s c pf other g r vs vc closed quiet =
    let o = accepted-idle s c pf g closed quiet in
    let (receives, linked) =
      first_step-linked (text c) other (accepted s c pf g) r (text s) (new_link (text s)) o in
    (
      accepted s c pf g,
      handle_sabm-accepted s c pf g vs vc (not_busy-closed g (text s) closed),
      o.link_is,
      o.cms_is,
      receives,
      linked,
    )

-- Between canonical callsigns: the linked station connects again while the relay task waits in
-- `cms.recv` or is sending chunks. If the CMS accepts the new session and no other task runs while
-- the handler waits, the handler returns with the new CMS session open and no link: cancelling the old task runs its
-- `close_session`, which clears the fresh link too. The first step of the new task then closes the
-- new CMS session and ends the task.
pub handle_sabm-reconnect :
    (s c : Call) (pf : Bool) (other : Gateway → Gateway) (g : Gateway) (r : Received)
    → IsCanonical s
    → IsCanonical c
    → is_running g.relay ≡ true
    → linked_to g.link (text s) ≡ true
    → (g' : Gateway) × (handle_sabm (text c) alone true (text s) pf g ≡ returned g')
      × (g'.link ≡ none)
      × (g'.cms ≡ some (text s))
      × ((relay_step (text c) other r g').cms ≡ none)
      × ((relay_step (text c) other r g').relay ≡ idle)
handle_sabm-reconnect s c pf other g r vs vc running linked =
    let o = accepted-running s c pf g running in
    let (closed, ended) = first_step-unlinked (text c) other (accepted s c pf g) r (text s) o in
    (
      accepted s c pf g,
      handle_sabm-accepted s c pf g vs vc (not_busy-linked g (text s) linked),
      o.link_is,
      o.cms_is,
      closed,
      ended,
    )
