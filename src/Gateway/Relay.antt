-- ===== src/Gateway/Relay.antt =====
-- src/rms/gateway.py: `cms_to_rf`, one step between two awaits at a time.
use kp4pra.Prelude.{
  ℕ, zero, suc, ◌+◌, ◌-◌, ◌%◌, false, Option, none, some, List, [], ◌∷◌, Bytes, Text, if◌then◌else◌,
  leb, codes, take, drop, length,
}
use kp4pra.Ax25.Kiss.{kiss_encode}
use kp4pra.Ax25.Control.{LinkState, iframe}
use kp4pra.Ax25.Frame.Make.{make_frame}
use kp4pra.Gateway.State.{
  Gateway, Relay, idle, created, receiving, sending, tx, emit, status, close_session,
}

abbrev pub pid_no_l3 : ℕ
pid_no_l3 = 0xF0

-- `range(0, len(data), 200)`: the slices of at most 200 bytes. A slice takes at least one byte, so
-- fuel for each byte is enough.
chunks_loop : ℕ → Bytes → List Bytes
chunks_loop zero s = []
chunks_loop (suc f) [] = []
chunks_loop (suc f) (b ∷ s) = take 200 (b ∷ s) ∷ chunks_loop f (drop 200 (b ∷ s))

unfoldable pub chunks : Bytes → List Bytes
unfolding chunks_loop
chunks block = chunks_loop (length block) block

-- `(self.link.vs - self.link.va) & 7`
abbrev pub outstanding : LinkState → ℕ
outstanding l = (l.vs + 8 - l.va) % 8

-- `other` is what `handle` does while the task awaits `cms.close` at its end, a SABM that cancels the
-- task there left out. Between two other awaits the task runs alone.
module _ (other : Gateway → Gateway) where
  -- `finally: await self.close_session()`
  abbrev pub finish : Gateway → Gateway
  finish g = record (close_session other g) { relay = idle }

  -- `while self.link and self.cms`
  unfoldable pub loop_head : Gateway → Gateway
  loop_head g = elim g.link [
    | none ↦ finish g
    | some _ ↦ elim g.cms [ none ↦ finish g | some _ ↦ record g { relay = receiving } ]
  ]

  -- `except Exception`
  abbrev pub fail : Gateway → Gateway
  fail g = finish (status (codes "cms_error") g)

-- What `await self.cms.recv(220)` comes back with: bytes, none of them at the end of the stream, or
-- an exception.
pub data Received : Type 0 where
  bytes : Bytes → Received
  broken : Received

unfoldable pub receive : (Gateway → Gateway) → Received → Gateway → Gateway
receive other broken g = fail other g
receive other (bytes []) g = finish other g
receive other (bytes (b ∷ s)) g = record g { relay = sending (chunks (b ∷ s)) }

-- The frame of one chunk, with N(S) and N(R) of the link; `none` is a `ValueError`.
unfoldable pub chunk_frame : Text → LinkState → Bytes → Option Bytes
chunk_frame cms_call l chunk =
    make_frame l.remote cms_call (iframe l.vs l.vr false) chunk (some pid_no_l3) false []

-- `self.link.vs = (self.link.vs + 1) & 7`, before the frame is made.
abbrev pub advance : LinkState → LinkState
advance l = record l { vs = (l.vs + 1) % 8 }

module _ (cms_call : Text) (other : Gateway → Gateway) where
  transmit : Option Bytes → Gateway → Gateway
  transmit none g = fail other g
  transmit (some frame) g = emit (tx (kiss_encode frame 0)) g

  -- One chunk: `break` without a link, a sleep while seven frames are not acknowledged.
  unfoldable pub send_chunk : Bytes → List Bytes → Option LinkState → Gateway → Gateway
  unfolding transmit
  send_chunk chunk rest none g = loop_head other g
  send_chunk chunk rest (some l) g =
      if leb 7 (outstanding l)
      then g
      else transmit (chunk_frame cms_call l chunk)
          (record g { link = some (advance l); relay = sending rest })

  unfoldable pub relay_at : Relay → Received → Gateway → Gateway
  relay_at idle r g = g
  relay_at created r g = loop_head other g
  relay_at receiving r g = receive other r g
  relay_at (sending []) r g = loop_head other g
  relay_at (sending (chunk ∷ rest)) r g = send_chunk chunk rest g.link g

  -- One step of the task; `r` is what `recv` returns if the task is waiting there.
  abbrev pub relay_step : Received → Gateway → Gateway
  relay_step r g = relay_at g.relay r g
