-- ===== src/Chat/Incoming.antt =====
-- src/web/aprschat.py: what a received message leaves in the store and puts on the air.
use kp4pra.Prelude.{
  ℕ, ◌+◌, ◌<◌, ◌≡◌, refl, ◌∙◌, some, List, [], ◌∷◌, ◌++◌, Text, arith, All, text_eq_refl,
}
use kp4pra.Aprs.Call.{normalize_call}
use kp4pra.Aprs.Message.Field.{sanitize_text, format_message, format_ack}
use kp4pra.Aprs.Message.RoundTrip.{IsNumber}
use kp4pra.Ax25.Frame.RoundTrip.{Call, text, IsCanonical}
use kp4pra.Chat.Store.{
  Message, received, incoming, ChatStore, new_message, append, add, thread, deref,
}
use kp4pra.Chat.Session.{AprsChat, on_frame}
use kp4pra.Chat.Index.{IsStore, append-IsStore, thread-thread_add}
use kp4pra.Chat.Exchange.{on_frame-acks, last_number}

-- The message as it was heard.
pub record IsHeard (m : Message) (src body n : Text) (now : ℕ) : Type 0 where
  pub from : m.peer ≡ normalize_call src
  pub body_is : m.text ≡ sanitize_text body
  pub number : m.msgno ≡ some n
  pub direction_is : m.direction ≡ incoming
  pub status_is : m.status ≡ received
  pub time : m.ts ≡ now

-- `m` is the last message of `new`, behind those of `old`; its reference leads to it, and is the last
-- of its peer's thread.
pub record IsStored (m : Message) (old new : ChatStore) : Type 0 where
  pub kept : new.messages ≡ old.messages ++ m ∷ []
  pub found : deref m.seq new.messages ≡ some m
  pub in_thread : thread m.peer new.threads ≡ thread m.peer old.threads ++ m.seq ∷ []
  pub invariant : IsStore new

deref-last :
    (ms : List Message) (m : Message)
    → All (λ x. x.seq < m.seq) ms
    → deref m.seq (ms ++ m ∷ []) ≡ some m
unfolding deref
deref-last [] m h = ground arith
deref-last (x ∷ ms) m h = ground (arith, h.0, deref-last ms m h.1)

append-IsStored :
    (m : Message) (s : ChatStore) → IsStore s → m.seq ≡ s.seq + 1 → IsStored m s (append m s)
unfolding append
append-IsStored m s v e =
    let w = append-IsStore s m v e in
    let (below, n) = last_number 1 s.messages m (unfold append in w.numbered) in
    record {
      kept = refl;
      found = deref-last s.messages m (rw n below);
      in_thread = thread-thread_add m.peer m.peer m.seq s.threads ∙ rw (text_eq_refl m.peer);
      invariant = w;
    }

-- A message to this station's own canonical callsign, with a number of one to five letters or digits,
-- and a store that keeps its invariant. One message is added to the store, as received, from the
-- sender and with the text cleaned and its number; its reference finds it, the sender's thread ends
-- with that reference, and the invariant holds again. The number is acked to the sender, and nothing
-- else goes out.
pub on_frame-stores :
    (b : Call) (src body n : Text) (now : ℕ) (s : AprsChat)
    → IsCanonical b
    → IsNumber n
    → s.mycall ≡ text b
    → IsStore s.store
    → (m : Message) × IsHeard m src body n now
      × IsStored m s.store (on_frame src (format_message (text b) body (some n)) now s).store
      × ((on_frame src (format_message (text b) body (some n)) now s).out
          ≡ s.out ++ format_ack src n ∷ [])
unfolding add
on_frame-stores b src body n now s v w e invariant =
    let m =
      new_message s.store incoming src (sanitize_text body) (some n) received s.path_label
        (format_message (text b) body (some n)) now in
    rw (on_frame-acks b src body n now s v w e) (
      m,
      record {
        from = refl;
        body_is = refl;
        number = refl;
        direction_is = refl;
        status_is = refl;
        time = refl;
      },
      append-IsStored m s.store invariant refl,
      refl,
    )
