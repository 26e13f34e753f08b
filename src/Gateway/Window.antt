-- ===== src/Gateway/Window.antt =====
-- The send window: modulo-8 numbers against the true counts of frames sent and acknowledged.
use kp4pra.Prelude.{
  ℕ, ◌+◌, ◌-◌, ◌%◌, ◌≤◌, ◌<◌, ◌≡◌, refl, false, inl, inr, none, some, List, [], ◌∷◌, ◌++◌, arith,
  Bytes, Text, leb, Option-cases, Bool-cases,
}
use kp4pra.Ax25.Kiss.{kiss_encode}
use kp4pra.Ax25.Control.{LinkState, iframe}
use kp4pra.Ax25.Frame.Make.{make_frame}
use kp4pra.Gateway.State.{Gateway, Relay, idle, created, receiving, sending, tx, close_session}
use kp4pra.Gateway.Relay.{
  outstanding, advance, relay_at, relay_step, send_chunk, chunk_frame, loop_head, receive, Received,
  bytes, broken, pid_no_l3,
}

-- `sent` frames were sent on the link in all, and the peer has acknowledged the first `acked`.
pub record Window (l : LinkState) (sent acked : ℕ) : Type 0 where
  pub ordered : acked ≤ sent
  pub bounded : sent ≤ acked + 7
  pub vs_is : l.vs ≡ sent % 8
  pub va_is : l.va ≡ acked % 8

pub outstanding-exact :
    {l : LinkState} (sent acked : ℕ) → Window l sent acked → outstanding l ≡ sent - acked
outstanding-exact {l} sent acked w = omega (arith, w.ordered, w.bounded, w.vs_is, w.va_is)

-- What one step of the task may come to: the session is over; it has sent nothing and left the link;
-- or there was room in the window, one frame went out with the number of frames sent before it for
-- its N(S), and the link counts it.
pub data Stepped (cms_call : Text) (l : LinkState) (sent acked : ℕ) (g g' : Gateway) : Type 0 where
  ended : g'.link ≡ none → g'.cms ≡ none → Stepped cms_call l sent acked g g'
  silent : g'.link ≡ some l → g'.out ≡ g.out → Stepped cms_call l sent acked g g'
  sent_one :
      (chunk frame : Bytes) (l' : LinkState)
      → sent < acked + 7
      → make_frame l.remote cms_call (iframe (sent % 8) l.vr false) chunk (some pid_no_l3) false []
        ≡ some frame
      → g'.out ≡ g.out ++ tx (kiss_encode frame 0) ∷ []
      → g'.link ≡ some l'
      → Window l' (sent + 1) acked
      → Stepped cms_call l sent acked g g'

module _ (cms_call : Text) (other : Gateway → Gateway) (l : LinkState) (g : Gateway)
    (linked : g.link ≡ some l) (sent acked : ℕ) (w : Window l sent acked) where
  abbrev Result : Gateway → Type 0
  Result g' = Stepped cms_call l sent acked g g'

  loop_head-Stepped : Result (loop_head other g)
  loop_head-Stepped = elim (Option-cases g.cms) [
    | inl e ↦ unfold loop_head close_session in rw (linked, e) (ended refl refl)
    | inr (c, e) ↦ silent (unfold loop_head in ground arith) (unfold loop_head in ground arith)
  ]

  receive-Stepped : (r : Received) → Result (receive other r g)
  unfolding receive close_session
  receive-Stepped broken = ended refl refl
  receive-Stepped (bytes []) = ended refl refl
  receive-Stepped (bytes (b ∷ s)) = silent linked refl

  advance-Window : outstanding l < 7 → Window (advance l) (sent + 1) acked
  advance-Window room =
      omega (arith, outstanding-exact sent acked w, w.ordered, w.bounded, w.vs_is, w.va_is)

  send_chunk-Stepped :
      (chunk : Bytes) (rest : List Bytes) → Result (send_chunk cms_call other chunk rest (some l) g)
  send_chunk-Stepped chunk rest = elim (Bool-cases (leb 7 (outstanding l))) [
    | inl full ↦ silent (unfold send_chunk in rw full linked) (unfold send_chunk in rw full)
    | inr room ↦ elim (Option-cases (chunk_frame cms_call l chunk)) [
      | inl bad ↦
          ended (unfold send_chunk close_session in rw (room, bad))
            (unfold send_chunk close_session in rw (room, bad))
      | inr (f, made) ↦
          sent_one chunk f (advance l) (ground (arith, outstanding-exact sent acked w, w.ordered))
            (unfold chunk_frame in rw (← w.vs_is) made) (unfold send_chunk in rw (room, made))
            (unfold send_chunk in rw (room, made)) (advance-Window (ground arith))
    ]
  ]

  relay_at-Stepped : (at : Relay) (r : Received) → Result (relay_at cms_call other at r g)
  unfolding relay_at
  relay_at-Stepped idle r = silent linked refl
  relay_at-Stepped created r = loop_head-Stepped
  relay_at-Stepped receiving r = receive-Stepped r
  relay_at-Stepped (sending []) r = loop_head-Stepped
  relay_at-Stepped (sending (chunk ∷ rest)) r = simp linked (send_chunk-Stepped chunk rest)

-- In a gateway whose link has sent `sent` frames, of which the peer has acknowledged the first
-- `acked`, with at most seven between them and with V(S) and V(A) those counts modulo 8, one step of
-- the relay task does one of three things. It ends the session, so that there is neither a link nor
-- a CMS session. It sends nothing and leaves the link. Or fewer than seven frames were not
-- acknowledged, exactly one I frame goes out, to the peer and with `sent` modulo 8 for its N(S), and
-- the window holds again with `sent + 1` frames sent.
pub relay_step-Window :
    (cms_call : Text) (other : Gateway → Gateway) (g : Gateway) (l : LinkState) (r : Received)
    (sent acked : ℕ)
    → g.link ≡ some l
    → Window l sent acked
    → Stepped cms_call l sent acked g (relay_step cms_call other r g)
relay_step-Window cms_call other g l r sent acked linked w =
    relay_at-Stepped cms_call other l g linked sent acked w g.relay r
