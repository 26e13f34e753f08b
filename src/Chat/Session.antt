-- ===== src/Chat/Session.antt =====
-- src/web/aprschat.py: `AprsChat`. What goes to the transport is the trace `out`; the transport is
-- taken to accept every field. Times are whole numbers of one unit.
use kp4pra.Prelude.{
  ℕ, ◌+◌, ◌*◌, Bool, true, false, not, ◌||◌, Option, none, some, List, [], ◌∷◌, ◌++◌, Text, leb,
  if◌then◌else◌, text_eq, length,
}
use kp4pra.PyText.{partition}
use kp4pra.Aprs.Call.{normalize_call}
use kp4pra.Aprs.MsgNo.{MsgNoGen, next}
use kp4pra.Aprs.Message.Field.{
  Parsed, Kind, message, ack, reject, parse_message, format_message, format_ack, sanitize_text,
}
use kp4pra.Chat.Store.{
  Status, sending, acked, sent, failed, received, incoming, outgoing, Message, ChatStore, add,
  find_outgoing, set_status, update_at, deref,
}

pub record AprsChat : Type 0 where
  pub mycall : Text
  pub store : ChatStore
  pub path_label : Text
  pub retry_interval : ℕ
  pub max_retries : ℕ
  pub match_ssid : Bool
  pub numbers : MsgNoGen
  pub out : List Text

-- `await self.transport.send_info(info)`
abbrev pub send_info : Text → AprsChat → AprsChat
send_info info c = record c { out = c.out ++ info ∷ [] }

-- `call.split("-")[0]`
abbrev pub base_of : Text → Text
base_of call = (partition b'-' call).0

unfoldable pub for_us : AprsChat → Text → Bool
for_us c addressee =
    let a = normalize_call addressee in
    if c.match_ssid then text_eq a c.mycall else text_eq (base_of a) (base_of c.mycall)

-- The message is stored first and sent then.
unfoldable pub send_numbered :
    Text → Text → Option Text → Status → ℕ → AprsChat → AprsChat × Message
send_numbered peer text msgno status now c =
    let info = format_message peer text msgno in
    let (s, m) =
      add outgoing peer (sanitize_text text) msgno status c.path_label info now c.store in
    (send_info info (record c { store = s }), m)

unfoldable pub send_text : Text → Text → Bool → ℕ → AprsChat → AprsChat × Message
unfolding send_numbered
send_text peer text true now c =
    let (g, n) = next c.numbers in
    send_numbered (normalize_call peer) text (some n) sending now (record c { numbers = g })
send_text peer text false now c = send_numbered (normalize_call peer) text none sent now c

-- `m.status in (ST_SENDING, ST_SENT, ST_FAILED)`
unfoldable pub may_be_acked : Status → Bool
may_be_acked sending = true
may_be_acked sent = true
may_be_acked failed = true
may_be_acked acked = false
may_be_acked received = false

unfoldable pub mark_acked : Option Message → AprsChat → AprsChat
mark_acked none c = c
mark_acked (some m) c =
    if may_be_acked m.status then record c { store = set_status m.seq acked c.store } else c

unfoldable pub mark_failed : Option Message → AprsChat → AprsChat
mark_failed none c = c
mark_failed (some m) c = record c { store = set_status m.seq failed c.store }

-- `if parsed["msgno"]`
unfoldable pub send_ack : Text → Option Text → AprsChat → AprsChat
send_ack src none c = c
send_ack src (some []) c = c
send_ack src (some (d ∷ n)) c = send_info (format_ack src (d ∷ n)) c

abbrev pub or_empty : Option Text → Text
or_empty none = []
or_empty (some n) = n

unfoldable pub on_parsed : Kind → Text → Text → Parsed → ℕ → AprsChat → AprsChat
unfolding mark_acked mark_failed send_ack
on_parsed ack src info p now c = mark_acked (find_outgoing src (or_empty p.msgno) c.store) c
on_parsed reject src info p now c = mark_failed (find_outgoing src (or_empty p.msgno) c.store) c
on_parsed message src info p now c =
    let (s, m) = add incoming src p.text p.msgno received c.path_label info now c.store in
    send_ack src p.msgno (record c { store = s })

unfoldable pub on_message : Option Parsed → Text → Text → ℕ → AprsChat → AprsChat
unfolding on_parsed
on_message none src info now c = c
on_message (some p) src info now c =
    if for_us c p.addressee then on_parsed p.kind src info p now c else c

-- One decoded packet of `src`.
unfoldable pub on_frame : Text → Text → ℕ → AprsChat → AprsChat
unfolding on_message
on_frame src info now c = on_message (parse_message info) src info now c

-- `m.direction == "out" and m.status == ST_SENDING`
unfoldable pub awaits_ack : Message → Bool
awaits_ack m = elim m.direction [
  | incoming ↦ false
  | outgoing ↦ elim m.status [ sending ↦ true | _ ↦ false ]
]

-- `now - m.ts >= self.retry_interval * (m.retries + 1)`
unfoldable pub has_waited : ℕ → ℕ → Message → Bool
has_waited interval now m = leb (m.ts + interval * (m.retries + 1)) now

-- One round of the loop of `due_retries`: the message, and whether it is due.
unfoldable pub check_retry : ℕ → ℕ → ℕ → Message → Message × Bool
check_retry interval limit now m =
    if not (awaits_ack m) || not (has_waited interval now m)
    then (m, false)
    else if leb limit m.retries
    then (record m { status = failed }, false)
    else (m, true)

unfoldable pub due_loop : ℕ → ℕ → ℕ → List Message → List Message × List ℕ
due_loop interval limit now [] = ([], [])
due_loop interval limit now (m ∷ ms) =
    let (m', due) = check_retry interval limit now m in
    let (ms', refs) = due_loop interval limit now ms in
    (m' ∷ ms', if due then m'.seq ∷ refs else refs)

abbrev pub put_messages : List Message → AprsChat → AprsChat
put_messages ms c = record c { store = record c.store { messages = ms } }

unfoldable pub due_retries : ℕ → AprsChat → AprsChat × List ℕ
due_retries now c =
    let (ms, refs) = due_loop c.retry_interval c.max_retries now c.store.messages in
    (put_messages ms c, refs)

abbrev pub retried : Message → Message
retried m = record m { retries = m.retries + 1 }

abbrev info_of : Option Message → Text
info_of none = []
info_of (some m) = m.info

-- The loop of `resend_due` over the due messages.
unfoldable pub resend_loop : List ℕ → AprsChat → AprsChat
resend_loop [] c = c
resend_loop (r ∷ refs) c = resend_loop refs (
    put_messages (update_at r retried c.store.messages)
      (send_info (info_of (deref r c.store.messages)) c))

unfoldable pub resend_due : ℕ → AprsChat → AprsChat × ℕ
resend_due now c = let (c', refs) = due_retries now c in (resend_loop refs c', length refs)
