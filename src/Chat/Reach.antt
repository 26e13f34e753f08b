-- ===== src/Chat/Reach.antt =====
-- Every state that a chat session can get into, by any sequence of its operations.
use kp4pra.Prelude.{
  ℕ, ◌≤◌, ◌≡◌, refl, inl, inr, Bool, true, false, Option, none, some, List, [], ◌∷◌, map, Text,
  arith, Bool-cases, All, All-append,
}
use kp4pra.Aprs.Call.{normalize_call}
use kp4pra.Aprs.MsgNo.{next}
use kp4pra.Aprs.Message.Field.{
  Parsed, Kind, message, ack, reject, parse_message, sanitize_text, format_message,
}
use kp4pra.Chat.Store.{
  Message, Status, Direction, acked, failed, received, sending, sent, incoming, outgoing, add,
  append, set_status, with_status, update_at,
}
use kp4pra.Chat.Session.{
  AprsChat, send_text, on_frame, resend_due, for_us, may_be_acked, mark_acked, mark_failed,
  send_ack, on_parsed, on_message, send_numbered,
}
use kp4pra.Chat.Index.{IsStore, add-IsStore, set_status-IsStore, put-IsStore, shape}
use kp4pra.Chat.Retries.{resend_due-retry, retry}

pub record IsSound (c : AprsChat) : Type 0 where
  pub store_ok : IsStore c.store
  pub bounded : All (λ m. m.retries ≤ c.max_retries) c.store.messages

add-IsSound :
    (direction : Direction) (peer text : Text) (msgno : Option Text) (status : Status)
    (path info : Text) (now : ℕ) (c : AprsChat)
    → IsSound c
    → IsSound (record c { store = (add direction peer text msgno status path info now c.store).0 })
unfolding add append
add-IsSound direction peer text msgno status path info now c v = record {
  store_ok = add-IsStore direction peer text msgno status path info now c.store v.store_ok;
  bounded =
      All-append (λ m. m.retries ≤ c.max_retries) c.store.messages _ v.bounded (omega arith, tt);
}

update_at-bounded :
    (k r : ℕ) (st : Status) (ms : List Message)
    → All (λ m. m.retries ≤ k) ms
    → All (λ m. m.retries ≤ k) (update_at r (with_status st) ms)
unfolding update_at
update_at-bounded k r st [] h = tt
update_at-bounded k r st (m ∷ ms) h = (ground (arith, h.0), update_at-bounded k r st ms h.1)

set_status-IsSound :
    (r : ℕ) (st : Status) (c : AprsChat)
    → IsSound c
    → IsSound (record c { store = set_status r st c.store })
unfolding set_status
set_status-IsSound r st c v = record {
  store_ok = set_status-IsStore r st c.store v.store_ok;
  bounded = update_at-bounded c.max_retries r st c.store.messages v.bounded;
}

mark_acked-IsSound : (m : Option Message) (c : AprsChat) → IsSound c → IsSound (mark_acked m c)
unfolding mark_acked
mark_acked-IsSound none c v = v
mark_acked-IsSound (some m) c v = elim (Bool-cases (may_be_acked m.status)) [
  | inl e ↦ rw e (set_status-IsSound m.seq acked c v)
  | inr e ↦ rw e v
]

mark_failed-IsSound : (m : Option Message) (c : AprsChat) → IsSound c → IsSound (mark_failed m c)
unfolding mark_failed
mark_failed-IsSound none c v = v
mark_failed-IsSound (some m) c v = set_status-IsSound m.seq failed c v

send_ack-IsSound :
    (src : Text) (n : Option Text) (c : AprsChat) → IsSound c → IsSound (send_ack src n c)
unfolding send_ack
send_ack-IsSound src none c v = v
send_ack-IsSound src (some []) c v = v
send_ack-IsSound src (some (d ∷ n)) c v = record { store_ok = v.store_ok; bounded = v.bounded }

on_parsed-IsSound :
    (kind : Kind) (src info : Text) (p : Parsed) (now : ℕ) (c : AprsChat)
    → IsSound c
    → IsSound (on_parsed kind src info p now c)
unfolding on_parsed
on_parsed-IsSound ack src info p now c v = mark_acked-IsSound _ c v
on_parsed-IsSound reject src info p now c v = mark_failed-IsSound _ c v
on_parsed-IsSound message src info p now c v =
    send_ack-IsSound src p.msgno _
      (add-IsSound incoming src p.text p.msgno received c.path_label info now c v)

on_message-IsSound :
    (p : Option Parsed) (src info : Text) (now : ℕ) (c : AprsChat)
    → IsSound c
    → IsSound (on_message p src info now c)
unfolding on_message
on_message-IsSound none src info now c v = v
on_message-IsSound (some p) src info now c v = elim (Bool-cases (for_us c p.addressee)) [
  | inl e ↦ rw e (on_parsed-IsSound p.kind src info p now c v)
  | inr e ↦ rw e v
]

send_text-IsSound :
    (peer body : Text) (want_ack : Bool) (now : ℕ) (c : AprsChat)
    → IsSound c
    → IsSound (send_text peer body want_ack now c).0
unfolding send_text send_numbered
send_text-IsSound peer body true now c v =
    let s =
      add-IsSound outgoing (normalize_call peer) (sanitize_text body) (some (next c.numbers).1)
        sending c.path_label (format_message (normalize_call peer) body (some (next c.numbers).1))
        now c v in
    record { store_ok = s.store_ok; bounded = s.bounded }
send_text-IsSound peer body false now c v =
    let s =
      add-IsSound outgoing (normalize_call peer) (sanitize_text body) none sent c.path_label
        (format_message (normalize_call peer) body none) now c v in
    record { store_ok = s.store_ok; bounded = s.bounded }

shape-retry :
    (interval limit now : ℕ) (ms : List Message)
    → shape (map (retry interval limit now) ms) ≡ shape ms
shape-retry interval limit now [] = refl
shape-retry interval limit now (m ∷ ms) = ground (arith, shape-retry interval limit now ms)

retry-bounded :
    (interval limit now : ℕ) (ms : List Message)
    → All (λ m. m.retries ≤ limit) ms
    → All (λ m. m.retries ≤ limit) (map (retry interval limit now) ms)
retry-bounded interval limit now [] h = tt
retry-bounded interval limit now (m ∷ ms) h =
    (ground (arith, h.0), retry-bounded interval limit now ms h.1)

resend_due-IsSound : (now : ℕ) (c : AprsChat) → IsSound c → IsSound (resend_due now c).0
resend_due-IsSound now c v = rw (resend_due-retry now c v.store_ok) (record {
  store_ok =
      put-IsStore c.store (map (retry c.retry_interval c.max_retries now) c.store.messages)
        v.store_ok (shape-retry c.retry_interval c.max_retries now c.store.messages);
  bounded = retry-bounded c.retry_interval c.max_retries now c.store.messages v.bounded;
})

-- An operation of a session.
pub data Step : AprsChat → AprsChat → Type 0 where
  sends :
      {c : AprsChat} (peer body : Text) (want_ack : Bool) (now : ℕ)
      → Step c (send_text peer body want_ack now c).0
  hears : {c : AprsChat} (src info : Text) (now : ℕ) → Step c (on_frame src info now c)
  resends : {c : AprsChat} (now : ℕ) → Step c (resend_due now c).0

pub data Steps : AprsChat → AprsChat → Type 0 where
  done : {c : AprsChat} → Steps c c
  step : {c d e : AprsChat} → Step c d → Steps d e → Steps c e

Step-IsSound : {c d : AprsChat} → Step c d → IsSound c → IsSound d
unfolding on_frame
Step-IsSound (sends peer body want_ack now) v = send_text-IsSound peer body want_ack now _ v
Step-IsSound (hears src info now) v = on_message-IsSound (parse_message info) src info now _ v
Step-IsSound (resends now) v = resend_due-IsSound now _ v

-- From a sound state, whatever a session sends, hears and resends, in any order: its messages stay numbered from 1
-- without a gap and listed by their peers, and no message is retried more often than the limit.
pub Steps-IsSound : {c d : AprsChat} → Steps c d → IsSound c → IsSound d
Steps-IsSound done v = v
Steps-IsSound (step s r) v = Steps-IsSound r (Step-IsSound s v)
