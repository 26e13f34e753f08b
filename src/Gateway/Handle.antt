-- ===== src/Gateway/Handle.antt =====
-- src/rms/gateway.py: `handle`, `_busy_with_other` and `_start_new_session`.
use kp4pra.Prelude.{bit_or}
use kp4pra.Gateway.State.{alone}
use kp4pra.Prelude.{
  ℕ, ◌+◌, ◌%◌, Bool, true, false, not, ◌&&◌, ◌||◌, Option, none, some, [], Bytes, Text,
  if◌then◌else◌, ◌==◌, codes, text_eq, is_nil,
}
use kp4pra.PyText.{upper}
use kp4pra.Ax25.Kiss.{kiss_encode}
use kp4pra.Ax25.Control.{
  LinkState, new_link, is_sabm, is_disc, is_i, is_s, ns, nr, rr, poll_bit, pf_bit, ua, dm,
}
use kp4pra.Ax25.Frame.Split.{Frame, Result, ok, err, split_frame}
use kp4pra.Ax25.Frame.Make.{make_frame}
use kp4pra.Gateway.State.{
  Gateway, Relay, idle, created, receiving, sending, tx, cms_open, cms_send, emit, status,
  close_cms, close_session,
}

-- `handle` returns, or lets an exception through to `_run_rf`.
pub data Outcome : Type 0 where
  returned raised : Gateway → Outcome

infixl 5 ◌>>=◌
abbrev pub ◌>>=◌ : Outcome → (Gateway → Outcome) → Outcome
returned g >>= k = k g
raised g >>= k = raised g

-- `self.link.remote == src`, for a link that may be missing.
abbrev pub linked_to : Option LinkState → Text → Bool
linked_to none src = false
linked_to (some l) src = text_eq l.remote src

abbrev pub is_open : Option Text → Bool
is_open none = false
is_open (some _) = true

unfoldable pub busy_with_other : Gateway → Text → Bool
busy_with_other g src = is_open g.cms && not (linked_to g.link src)

-- `self.cms_task.cancel()`, awaited. A task that has not yet run is dropped; one that has runs its
-- `finally`, which is `close_session`. Both tasks of the RF side are in this wait, so no third one
-- changes the state during it.
unfoldable pub cancel_relay : Relay → Gateway → Gateway
cancel_relay idle g = g
cancel_relay created g = record g { relay = idle }
cancel_relay receiving g = record (close_session alone g) { relay = idle }
cancel_relay (sending _) g = record (close_session alone g) { relay = idle }

-- `other` is what the relay task does while `handle` awaits, `connects` whether the CMS accepts the
-- session, and `delivers` whether `cms.send` returns or raises.
module _ (cms_call : Text) (other : Gateway → Gateway) where
  -- `await self.tx(frame)`; `none` is the `ValueError` of `make_frame`.
  transmit : Option Bytes → Gateway → Outcome
  transmit none g = raised g
  transmit (some frame) g = returned (other (emit (tx (kiss_encode frame 0)) g))

  -- A response without payload from this station.
  unfoldable pub reply : Text → ℕ → Gateway → Outcome
  unfolding transmit
  reply src ctrl = transmit (make_frame src (upper cms_call) ctrl [] none true [])

  -- `_start_new_session`, up to the answer of the CMS.
  unfoldable pub start_new_session : Text → Gateway → Gateway
  start_new_session src g =
      let g' = close_cms other (cancel_relay g.relay g) in
      other (emit (cms_open src) (record g' { cms = some src }))

  connected : Bool → Text → Gateway → Outcome
  connected true src g = returned (record (status (codes "connected") g) { relay = created })
  connected false src g = do
    g' ← reply src dm (status (codes "cms_error") g)
    returned (close_session other g')

  unfoldable pub handle_sabm : Bool → Text → Bool → Gateway → Outcome
  unfolding connected
  handle_sabm connects src pf g =
      if busy_with_other g src then reply src (bit_or dm (pf_bit pf)) g else do
        g' ← reply src (bit_or ua (pf_bit pf)) (record g { link = some (new_link src) })
        connected connects src (start_new_session src (status (codes "connecting_cms") g'))

  unfoldable pub handle_disc : Text → Bool → Gateway → Outcome
  handle_disc src pf g = do
    g' ← reply src (bit_or ua (pf_bit pf)) g
    returned (close_session other g')

  -- `await self.cms.send(payload)`; a send that raises has passed nothing on.
  sent_or_raised : Bool → Bytes → Gateway → Outcome
  sent_or_raised true payload g = returned (other (emit (cms_send payload) g))
  sent_or_raised false payload g = raised (other g)

  unfoldable pub forward : Bool → Bytes → Gateway → Outcome
  unfolding sent_or_raised
  forward delivers payload g =
      if is_open g.cms && not (is_nil payload)
      then sent_or_raised delivers payload g
      else returned g

  -- The I frame that is expected is acknowledged and forwarded.
  unfoldable pub accept_i : Bool → Frame → LinkState → Gateway → Outcome
  accept_i delivers f l g = do
    g' ← reply f.src (rr l.vr (poll_bit f.ctrl)) (record g { link = some l })
    forward delivers f.payload g'

  -- Any other I frame is refused by an RR with the final bit.
  unfoldable pub handle_i : Bool → Frame → LinkState → Gateway → Outcome
  handle_i delivers f l g =
      if ns f.ctrl == l.vr
      then accept_i delivers f (record l { vr = (l.vr + 1) % 8 }) g
      else reply f.src (rr l.vr true) g

  -- A frame of the linked station that is neither SABM nor DISC.
  unfoldable pub handle_data : Bool → Frame → LinkState → Gateway → Outcome
  handle_data delivers f l g =
      let l' = if is_i f.ctrl || is_s f.ctrl then record l { va = nr f.ctrl } else l in
      if is_i f.ctrl
      then handle_i delivers f l' (record g { link = some l' })
      else returned (record g { link = some l' })

  handle_linked : Bool → Option LinkState → Frame → Gateway → Outcome
  handle_linked delivers none f g = returned g
  handle_linked delivers (some l) f g =
      if not (text_eq f.src l.remote)
      then returned g
      else if is_disc f.ctrl
      then handle_disc f.src (poll_bit f.ctrl) g
      else handle_data delivers f l g

  unfoldable pub handle_frame : Bool → Bool → Frame → Gateway → Outcome
  unfolding handle_linked
  handle_frame connects delivers f g =
      if not (text_eq (upper f.dest) (upper cms_call))
      then returned g
      else if is_sabm f.ctrl
      then handle_sabm connects f.src (poll_bit f.ctrl) g
      else handle_linked delivers g.link f g

  handle_split : Bool → Bool → Result Frame → Gateway → Outcome
  handle_split connects delivers (err _) g = returned g
  handle_split connects delivers (ok f) g = handle_frame connects delivers f g

  unfoldable pub handle : Bool → Bool → Bytes → Gateway → Outcome
  unfolding handle_split
  handle connects delivers raw = handle_split connects delivers (split_frame raw)
