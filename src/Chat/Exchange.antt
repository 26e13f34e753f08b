-- ===== src/Chat/Exchange.antt =====
-- A numbered message, its ack, and what the ack does at the sender.
use kp4pra.Chat.Index.{append-IsStore}
use mathlib.Core.Path.{subst}
use kp4pra.Prelude.{All-imp}
use kp4pra.Aprs.MsgNo.{length-next}
use kp4pra.PyText.Decimal.{IsDigit}
use kp4pra.PyText.{is_digit}
use kp4pra.PyText.Decimal.{decimal-IsDigit}
use kp4pra.PyText.{is_alnum}
use kp4pra.PyText.Decimal.{decimal}
use kp4pra.Aprs.Message.Field.{all_alnum}
use kp4pra.Aprs.MsgNo.{MsgNoGen}
use kp4pra.Chat.Store.{new_message}
use kp4pra.Chat.Session.{send_info}
use kp4pra.Prelude.{
  ℕ, ◌+◌, ◌<◌, ◌≡◌, refl, ap, ◌∙◌, true, none, some, List, [], ◌∷◌, ◌++◌, Text, arith, text_eq_refl,
  All, length,
}
use kp4pra.Ax25.Frame.RoundTrip.{Call, text, IsCanonical}
use kp4pra.Aprs.MsgNo.{next, IsMsgNo}
use kp4pra.Aprs.Message.Field.{sanitize_text, format_message, format_ack}
use kp4pra.Aprs.Message.RoundTrip.{
  parse_message-format_message, parse_message-format_reply, IsNumber, normalize_call-text,
}
use kp4pra.Chat.Store.{
  Message, acked, received, sending, incoming, outgoing, add, append, is_outgoing, option_eq,
  set_status, with_status, update_at, find_outgoing,
}
use kp4pra.Chat.Session.{
  AprsChat, send_text, on_frame, for_us, base_of, mark_acked, send_ack, on_parsed, on_message,
  send_numbered, may_be_acked,
}
use kp4pra.Chat.Index.{IsStore, first_outgoing, find_outgoing-eq-first_outgoing, shape, Numbered}
use kp4pra.Chat.Retries.{update_at-here}

-- A station hears what is addressed to its own callsign.
for_us_self :
    (c : Call) (s : AprsChat) → IsCanonical c → s.mycall ≡ text c → for_us s (text c) ≡ true
unfolding for_us
for_us_self c s v e =
    rw (normalize_call-text c v, e)
      (ground (arith, text_eq_refl (text c), text_eq_refl (base_of (text c))))

send_ack-number :
    (src n : Text) (s : AprsChat)
    → IsNumber n
    → send_ack src (some n) s ≡ send_info (format_ack src n) s
unfolding send_ack
send_ack-number src [] s w = absurd (omega (arith, w.nonempty))
send_ack-number src (c ∷ n) s w = refl

-- A message to this station's own canonical callsign, with a number of one to five letters or
-- digits, is stored as received, and its number is acked to the sender.
pub on_frame-acks :
    (b : Call) (src body n : Text) (now : ℕ) (s : AprsChat)
    → IsCanonical b
    → IsNumber n
    → s.mycall ≡ text b
    → on_frame src (format_message (text b) body (some n)) now s ≡ record s {
      store =
          (add incoming src
            (sanitize_text body)
            (some n)
            received
            s.path_label
            (format_message (text b) body (some n))
            now
            s.store).0;
      out = s.out ++ format_ack src n ∷ [];
    }
unfolding on_frame on_message on_parsed
on_frame-acks b src body n now s v w e =
    rw (parse_message-format_message b body n v w, for_us_self b s v e) (send_ack-number src n _ w)

all_alnum-digits : (s : Text) → All IsDigit s → all_alnum s ≡ true
unfolding all_alnum is_alnum is_digit
all_alnum-digits [] h = refl
all_alnum-digits (c ∷ s) h = ground (arith, h.0, all_alnum-digits s h.1)

next-IsNumber : (g : MsgNoGen) → IsMsgNo g → IsNumber (next g).1
next-IsNumber g v = record {
  alnum = unfold next in all_alnum-digits (decimal g.value) (decimal-IsDigit g.value);
  nonempty = (length-next g v).0;
  short = (length-next g v).1;
}

first_outgoing-append :
    (peer n : Text) (ms : List Message) (m : Message)
    → first_outgoing peer n ms ≡ none
    → m.peer ≡ peer
    → is_outgoing n m ≡ true
    → first_outgoing peer n (ms ++ m ∷ []) ≡ some m
first_outgoing-append peer n [] m h p o = ground (arith, p, o, text_eq_refl peer)
first_outgoing-append peer n (x ∷ ms) m h p o = ground (arith, first_outgoing-append peer n ms m)

-- The last message of a store has the greatest number.
pub last_number :
    (k : ℕ) (ms : List Message) (m : Message)
    → Numbered k (shape (ms ++ m ∷ []))
    → All (λ x. x.seq < k + length ms) ms × (m.seq ≡ k + length ms)
last_number k [] m n = (tt, omega (arith, n.0))
last_number k (x ∷ ms) m n =
    let (below, e) = last_number (k + 1) ms m n.1 in
    (
      (
        omega (arith, n.0),
        All-imp (λ y. y.seq < k + 1 + length ms) (λ y. y.seq < k + length (x ∷ ms))
            (λ y lt. omega arith) ms below,
      ),
      omega arith,
    )

-- What an ack does at the sender.
on_frame-ack :
    (a b : Call) (n : Text) (now : ℕ) (s : AprsChat)
    → IsCanonical a
    → IsCanonical b
    → IsNumber n
    → s.mycall ≡ text a
    → on_frame (text b) (format_ack (text a) n) now s
      ≡ mark_acked (find_outgoing (text b) n s.store) s
unfolding on_frame on_message on_parsed
on_frame-ack a b n now s v w u e =
    rw ((parse_message-format_reply a n v u).0, for_us_self a s v e) refl

-- The message that `send_text` stores.
abbrev numbered_message : Call → Text → ℕ → AprsChat → Message
numbered_message b body now s =
    new_message s.store outgoing (text b) (sanitize_text body) (some (next s.numbers).1) sending
      s.path_label (format_message (text b) body (some (next s.numbers).1)) now

-- The sender's session once the message is out.
abbrev after_send : Call → Text → ℕ → AprsChat → AprsChat
after_send b body now s = record s {
  store = append (numbered_message b body now s) s.store;
  numbers = (next s.numbers).0;
  out = s.out ++ format_message (text b) body (some (next s.numbers).1) ∷ [];
}

send_text-numbered :
    (b : Call) (body : Text) (now : ℕ) (s : AprsChat)
    → IsCanonical b
    → send_text (text b) body true now s ≡ (after_send b body now s, numbered_message b body now s)
unfolding send_text send_numbered add
send_text-numbered b body now s v =
    ap
      (λ q.
        send_numbered q body (some (next s.numbers).1) sending now
          (record s { numbers = (next s.numbers).0 }))
      (normalize_call-text b v)

mark_acked-last :
    (m : Message) (ms : List Message) (s : AprsChat)
    → IsStore s.store
    → s.store.messages ≡ ms ++ m ∷ []
    → m.status ≡ sending
    → (mark_acked (some m) s).store.messages ≡ ms ++ with_status acked m ∷ []
unfolding mark_acked set_status may_be_acked
mark_acked-last m ms s v e st =
    let (below, n) = last_number 1 ms m (subst (λ l. Numbered 1 (shape l)) e v.numbered) in
    rw st (
      ap (update_at m.seq (with_status acked)) e
      ∙ update_at-here (1 + length ms) (with_status acked) ms m [] below n tt)

find_outgoing-sent :
    (b : Call) (body : Text) (now : ℕ) (s : AprsChat)
    → IsCanonical b
    → IsStore s.store
    → first_outgoing (text b) (next s.numbers).1 s.store.messages ≡ none
    → find_outgoing (text b) (next s.numbers).1 (after_send b body now s).store
      ≡ some (numbered_message b body now s)
find_outgoing-sent b body now s v vs fresh =
    find_outgoing-eq-first_outgoing (text b) (next s.numbers).1 (after_send b body now s).store
      (append-IsStore s.store (numbered_message b body now s) vs refl)
    ∙ ap (λ p. first_outgoing p (next s.numbers).1 (after_send b body now s).store.messages)
        (normalize_call-text b v)
    ∙ (unfold append in
        first_outgoing-append (text b) (next s.numbers).1 s.store.messages
          (numbered_message b body now s) fresh (normalize_call-text b v)
          (unfold is_outgoing option_eq in text_eq_refl (next s.numbers).1))

ack-last :
    (a b : Call) (body : Text) (t1 t3 : ℕ) (s : AprsChat)
    → IsCanonical a
    → IsCanonical b
    → s.mycall ≡ text a
    → IsStore s.store
    → IsMsgNo s.numbers
    → first_outgoing (text b) (next s.numbers).1 s.store.messages ≡ none
    → (on_frame
        (text b)
        (format_ack (text a) (next s.numbers).1)
        t3
        (after_send b body t1 s)).store.messages
      ≡ s.store.messages ++ with_status acked (numbered_message b body t1 s) ∷ []
ack-last a b body t1 t3 s va vb ea vs vn fresh =
    ap (λ c. c.store.messages)
      (on_frame-ack a b (next s.numbers).1 t3 (after_send b body t1 s) va vb
          (next-IsNumber s.numbers vn) ea
        ∙ ap (λ m. mark_acked m (after_send b body t1 s))
            (find_outgoing-sent b body t1 s vb vs fresh))
    ∙ mark_acked-last (numbered_message b body t1 s) s.store.messages (after_send b body t1 s)
        (append-IsStore s.store (numbered_message b body t1 s) vs refl) (unfold append in refl) refl

-- A numbered message between stations of canonical callsigns, where the sender's store keeps its
-- invariant, its next number is in 1 to 99999, and it has no earlier message to that station under
-- this number: it goes out, the other station acks it, and the ack marks this message as acked, and
-- no other.
pub send_text-acked :
    (a b : Call) (body : Text) (t1 t2 t3 : ℕ) (s r : AprsChat)
    → IsCanonical a
    → IsCanonical b
    → s.mycall ≡ text a
    → r.mycall ≡ text b
    → IsStore s.store
    → IsMsgNo s.numbers
    → first_outgoing (text b) (next s.numbers).1 s.store.messages ≡ none
    → ((send_text (text b) body true t1 s).0.out
        ≡ s.out ++ (send_text (text b) body true t1 s).1.info ∷ [])
      × ((on_frame (text a) (send_text (text b) body true t1 s).1.info t2 r).out
          ≡ r.out ++ format_ack (text a) (next s.numbers).1 ∷ [])
      × ((on_frame
            (text b)
            (format_ack (text a) (next s.numbers).1)
            t3
            (send_text (text b) body true t1 s).0).store.messages
          ≡ s.store.messages ++ with_status acked (send_text (text b) body true t1 s).1 ∷ [])
send_text-acked a b body t1 t2 t3 s r va vb ea eb vs vn fresh =
    rw (send_text-numbered b body t1 s vb) (
      refl,
      ap (λ c. c.out)
          (on_frame-acks b (text a) body (next s.numbers).1 t2 r vb (next-IsNumber s.numbers vn)
            eb),
      ack-last a b body t1 t3 s va vb ea vs vn fresh,
    )
