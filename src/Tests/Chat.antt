-- ===== src/Tests/Chat.antt =====
-- Inputs for src/web/aprschat.py.
use kp4pra.Chat.Index.{empty_store-IsStore}
use kp4pra.Chat.Store.{Message}
use kp4pra.Chat.Incoming.{IsHeard, IsStored, on_frame-stores}
use kp4pra.Prelude.{◌≡◌, refl, true, false, none, some, [], ◌∷◌, codes, arith}
use kp4pra.Ax25.Frame.RoundTrip.{text}
use kp4pra.Aprs.Call.{normalize_call}
use kp4pra.Aprs.Message.Field.{format_ack, format_message, all_alnum}
use kp4pra.PyText.{is_alnum}
use kp4pra.Aprs.Message.RoundTrip.{IsNumber}
use kp4pra.Aprs.MsgNo.{msg_no_gen, msg_no_gen-IsMsgNo, next}
use kp4pra.Chat.Store.{
  ChatStore, empty_store, add, find_outgoing, sending, received, acked, incoming, outgoing,
  with_status,
}
use kp4pra.Chat.Session.{AprsChat, send_text, on_frame, resend_due}
use kp4pra.Chat.Index.{
  IsStore, empty_store-IsStore, add-IsStore, first_outgoing, find_outgoing-eq-first_outgoing,
}
use kp4pra.Chat.Retries.{resend_due-retry, after_round}
use kp4pra.Chat.Reach.{IsSound, Steps, sends, hears, resends, done, step, Steps-IsSound}
use kp4pra.Chat.Exchange.{send_text-acked}
use kp4pra.Tests.Calls.{
  gateway_call, station_call, gateway_call-IsCanonical, station_call-IsCanonical,
}

-- A message to the station and one from it.
abbrev two_messages : ChatStore
two_messages =
    (add incoming (codes "kp3m-7") (codes "yo") none received (codes "rf") [] 2
      (add outgoing (codes "KP3M-7") (codes "hi") (some (codes "1")) sending (codes "rf")
        (codes ":hi") 1 empty_store).0).0

two_messages-IsStore : IsStore two_messages
two_messages-IsStore =
    add-IsStore incoming (codes "kp3m-7") (codes "yo") none received (codes "rf") [] 2 _ (
      add-IsStore outgoing (codes "KP3M-7") (codes "hi") (some (codes "1")) sending (codes "rf")
        (codes ":hi") 1 empty_store empty_store-IsStore)

find_outgoing-eq-first_outgoing_example :
    find_outgoing (codes " kp3m-7") (codes "1") two_messages
    ≡ first_outgoing (normalize_call (codes " kp3m-7")) (codes "1") two_messages.messages
find_outgoing-eq-first_outgoing_example =
    find_outgoing-eq-first_outgoing (codes " kp3m-7") (codes "1") two_messages two_messages-IsStore

abbrev with_store : ChatStore → AprsChat
with_store s = record {
  mycall = text gateway_call;
  store = s;
  path_label = codes "rf";
  retry_interval = 30;
  max_retries = 3;
  match_ssid = false;
  numbers = msg_no_gen 1;
  out = [];
}

resend_due-retry_example :
    (resend_due 40 (with_store two_messages)).0
    ≡ after_round 30 3 40 [] two_messages.messages (with_store two_messages)
resend_due-retry_example = resend_due-retry 40 (with_store two_messages) two_messages-IsStore

abbrev fresh_chat : AprsChat
fresh_chat = with_store empty_store

fresh_chat-IsSound : IsSound fresh_chat
fresh_chat-IsSound = record { store_ok = empty_store-IsStore; bounded = tt }

-- A message is sent, sent again, and acked.
abbrev retried_chat : AprsChat
retried_chat =
    on_frame (codes "KP3M-7") (codes ":KP4PRA-10:ack1") 50
      (resend_due 40 (send_text (codes "KP3M-7") (codes "hi") true 1 fresh_chat).0).0

retried_chat-Steps : Steps fresh_chat retried_chat
retried_chat-Steps =
    step (sends (codes "KP3M-7") (codes "hi") true 1)
      (step (resends 40) (step (hears (codes "KP3M-7") (codes ":KP4PRA-10:ack1") 50) done))

Steps-IsSound_example : IsSound retried_chat
Steps-IsSound_example = Steps-IsSound retried_chat-Steps fresh_chat-IsSound

seven-IsNumber : IsNumber (codes "7")
unfolding all_alnum is_alnum
seven-IsNumber = record { alnum = refl; nonempty = omega arith; short = omega arith }

on_frame-stores_example :
    (m : Message) × IsHeard m (codes "KP3M-7") (codes "yo") (codes "7") 9
    × IsStored m empty_store
        (on_frame
          (codes "KP3M-7")
          (format_message (text gateway_call) (codes "yo") (some (codes "7")))
          9
          fresh_chat).store
    × ((on_frame
          (codes "KP3M-7")
          (format_message (text gateway_call) (codes "yo") (some (codes "7")))
          9
          fresh_chat).out
        ≡ format_ack (codes "KP3M-7") (codes "7") ∷ [])
on_frame-stores_example =
    on_frame-stores gateway_call (codes "KP3M-7") (codes "yo") (codes "7") 9 fresh_chat
      gateway_call-IsCanonical seven-IsNumber refl empty_store-IsStore

abbrev station_chat : AprsChat
station_chat = record fresh_chat { mycall = text station_call }

send_text-acked_example :
    ((send_text (text station_call) (codes "hi") true 1 fresh_chat).0.out
      ≡ (send_text (text station_call) (codes "hi") true 1 fresh_chat).1.info ∷ [])
    × ((on_frame
          (text gateway_call)
          (send_text (text station_call) (codes "hi") true 1 fresh_chat).1.info
          2
          station_chat).out
        ≡ format_ack (text gateway_call) (next fresh_chat.numbers).1 ∷ [])
    × ((on_frame
          (text station_call)
          (format_ack (text gateway_call) (next fresh_chat.numbers).1)
          3
          (send_text (text station_call) (codes "hi") true 1 fresh_chat).0).store.messages
        ≡ with_status acked (send_text (text station_call) (codes "hi") true 1 fresh_chat).1 ∷ [])
send_text-acked_example =
    send_text-acked gateway_call station_call (codes "hi") 1 2 3 fresh_chat station_chat
      gateway_call-IsCanonical station_call-IsCanonical refl refl empty_store-IsStore
      (msg_no_gen-IsMsgNo 1 (omega arith)) refl
