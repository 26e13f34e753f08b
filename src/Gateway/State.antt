-- ===== src/Gateway/State.antt =====
-- src/rms/gateway.py: the state of the RF side, and `close_session`.
use kp4pra.Prelude.{Option, none, some, List, [], ◌∷◌, ◌++◌, Bytes, Text, codes}
use kp4pra.Ax25.Control.{LinkState}

pub data Action : Type 0 where
  tx : Bytes → Action
  cms_open : Text → Action
  cms_close : Action
  cms_send : Bytes → Action
  set_status : Text → Action

-- Where `cms_task` stands: there is none or it is done; made and not yet run; in `cms.recv`; or in
-- the loop over the chunks that are still to be sent.
pub data Relay : Type 0 where
  idle created receiving : Relay
  sending : List Bytes → Relay

pub record Gateway : Type 0 where
  pub link : Option LinkState
  -- the remote call of the open CMS session
  pub cms : Option Text
  pub relay : Relay
  pub out : List Action

abbrev pub emit : Action → Gateway → Gateway
emit a g = record g { out = g.out ++ a ∷ [] }

-- `write_status`
abbrev pub status : Text → Gateway → Gateway
status s = emit (set_status s)

-- `if self.cms: await self.cms.close()`; `other` is what the other task does during the wait.
unfoldable pub close_cms : (Gateway → Gateway) → Gateway → Gateway
close_cms other g = elim g.cms [ none ↦ g | some _ ↦ other (emit cms_close g) ]

unfoldable pub close_session : (Gateway → Gateway) → Gateway → Gateway
close_session other g =
    status (codes "listening") (record (close_cms other g) { link = none; cms = none })

-- Nothing happens during the waits.
abbrev pub alone : Gateway → Gateway
alone g = g
