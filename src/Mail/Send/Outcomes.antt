-- ===== src/Mail/Send/Outcomes.antt =====
-- What is left on the disk and has gone to the CMS when `send` is done.
use kp4pra.Mail.Send.Escapes.{Breaks, connect_and_run-escaped}
use kp4pra.Mail.Send.{
  Login, logged_in, login_error, login_breaks, error_of, talked, escaped, crashed,
}
use kp4pra.Mail.Talk.{timed_out, closed, broken, not_ascii, send_encoded, banner_of}
use kp4pra.Prelude.{
  ℕ, zero, suc, ◌≡◌, ◌⊎◌, inl, inr, refl, sym, ◌∙◌, Bool, true, false, Bool-cases, Option, none,
  some, List, [], ◌∷◌, ◌++◌, Bytes, Text, codes, is_nil, text_eq,
}
use mathlib.Core.Path.{subst}
use kp4pra.Mail.Queue.{Record, Disk, get, set_status, states, is_state, merge}
use kp4pra.Mail.Queue.Stored.{get-set_status}
use kp4pra.B2f.Answers.{parse_fs}
use kp4pra.Mail.Talk.{
  Banner, Cms, Io, did, failed, then_do, read_loop, read_until, is_done, send_left, send_bytes,
  cms_of, say_fq, split_at, find_fs, starts_with_send, Message, opening, Talked, frame_of, answered,
  run_b2f,
}
use kp4pra.Mail.Send.{
  Config, Ran, ran_of, connect_and_run, Sending, finished, is_delivered, settle, attempt, send,
}

-- What holds of a result, if there is one.
abbrev Ensures {ℓ κ} : {A : Type ℓ} → (A → Cms → Type κ) → Io A → Type κ
Ensures P (did a c) = P a c
Ensures P (failed f c) = Unit

then_do-Ensures {ℓ κ μ ν} :
    {A : Type ℓ} {B : Type κ} (Q : A → Cms → Type μ) (P : B → Cms → Type ν) (io : Io A)
    (k : A → Cms → Io B)
    → Ensures Q io
    → ((a : A) (c : Cms) → Q a c → Ensures P (k a c))
    → Ensures P (then_do io k)
unfolding then_do
then_do-Ensures Q P (did a c) k q next = next a c q
then_do-Ensures Q P (failed f c) k q next = tt

anything-Ensures {ℓ} : {A : Type ℓ} (io : Io A) → Ensures (λ a c. Unit {0}) io
anything-Ensures (did a c) = tt
anything-Ensures (failed f c) = tt

read_loop-Ensures :
    (needle : ℕ) (buf : Bytes) (rs : List Bytes) (left : ℕ) (sent : List Bytes)
    → Ensures (λ s c. c.sent ≡ sent) (read_loop needle buf rs left sent)
unfolding read_loop
read_loop-Ensures needle buf [] left sent = elim (Bool-cases (is_done needle buf)) [
  | inl e ↦ rw e refl
  | inr e ↦ rw e tt
]
read_loop-Ensures needle buf (r ∷ rs) left sent = elim (Bool-cases (is_done needle buf)) [
  | inl e ↦ rw e refl
  | inr e ↦ elim (Bool-cases (is_nil r)) [
    | inl n ↦ rw (e, n) tt
    | inr n ↦ rw (e, n) (read_loop-Ensures needle (buf ++ r) rs left sent)
  ]
]

read_until-Ensures :
    (needle : ℕ) (c : Cms) → Ensures (λ s c'. c'.sent ≡ c.sent) (read_until needle c)
unfolding read_until
read_until-Ensures needle c = read_loop-Ensures needle [] c.replies c.sends_left c.sent

send_left-Ensures :
    (n : ℕ) (s : Bytes) (c : Cms) → Ensures (λ u c'. c'.sent ≡ c.sent ++ s ∷ []) (send_left n s c)
unfolding send_left
send_left-Ensures zero s c = tt
send_left-Ensures (suc n) s c = refl

send_bytes-Ensures :
    (s : Bytes) (c : Cms) → Ensures (λ u c'. c'.sent ≡ c.sent ++ s ∷ []) (send_bytes s c)
unfolding send_bytes
send_bytes-Ensures s c = send_left-Ensures c.sends_left s c

-- The bytes are one of what has been sent.
abbrev pub IsSent : Bytes → List Bytes → Type 0
IsSent s [] = true ≡ false
IsSent s (t ∷ ts) = (s ≡ t) ⊎ IsSent s ts

IsSent-last : (s : Bytes) (ts : List Bytes) → IsSent s (ts ++ s ∷ [])
IsSent-last s [] = inl refl
IsSent-last s (t ∷ ts) = inr (IsSent-last s ts)

IsSent-more : (s t : Bytes) (ts : List Bytes) → IsSent s ts → IsSent s (ts ++ t ∷ [])
IsSent-more s t [] h = absurd (cc)
IsSent-more s t (u ∷ ts) (inl e) = inl e
IsSent-more s t (u ∷ ts) (inr h) = inr (IsSent-more s t ts h)

send_left-IsSent :
    (n : ℕ) (s t : Bytes) (c : Cms) → IsSent s c.sent → IsSent s (cms_of (send_left n t c)).sent
unfolding send_left cms_of
send_left-IsSent zero s t c h = h
send_left-IsSent (suc n) s t c h = IsSent-more s t c.sent h

say_fq-IsSent : (s : Bytes) (c : Cms) → IsSent s c.sent → IsSent s (say_fq c).sent
unfolding say_fq send_bytes
say_fq-IsSent s c h = send_left-IsSent c.sends_left s (codes "FQ\r") c h

-- A result that says delivered has been accepted, and the message's frame is among what was sent.
abbrev Keeps : Message → Talked → Cms → Type 0
Keeps m t c = t.delivered ≡ true → (t.accepted ≡ true) × IsSent (frame_of m) c.sent

stopped-Keeps : (m : Message) (t : Talked) (c : Cms) → t.delivered ≡ false → Keeps m t c
stopped-Keeps m t c h k = absurd (cc)

answered-Keeps :
    (send_body : Bool) (m : Message) (b : Banner) (buf : Bytes) (c : Cms)
    → Ensures (Keeps m) (answered send_body m b buf c)
unfolding answered
answered-Keeps false m b buf c = λ k. absurd (cc)
answered-Keeps true m b buf c =
    elim (Bool-cases (starts_with_send (parse_fs (find_fs (split_at 13 buf))))) [
      | inr no_send ↦ rw no_send (λ k. absurd (cc))
      | inl yes_send ↦ rw yes_send (
          then_do-Ensures _ (Keeps m) (send_bytes (frame_of m) c) _
            (send_bytes-Ensures (frame_of m) c)
            (λ u c1 e1.
              then_do-Ensures _ (Keeps m) (read_until b'F' c1) _ (read_until-Ensures b'F' c1)
                (λ s c2 e2 k. (
                  refl,
                  say_fq-IsSent (frame_of m) c2 (
                      subst (IsSent (frame_of m)) (sym (e2 ∙ e1))
                        (IsSent-last (frame_of m) c.sent)),
                ))))
    ]

run_b2f-Keeps :
    (send_body : Bool) (md5 : Bytes → Bytes) (password our_sid : Text) (m : Message) (c : Cms)
    → Ensures (Keeps m) (run_b2f send_body md5 password our_sid m c)
unfolding run_b2f
run_b2f-Keeps send_body md5 password our_sid m c =
    then_do-Ensures (λ s c'. c'.sent ≡ c.sent) (Keeps m) (read_until b'>' c) _
      (read_until-Ensures b'>' c)
      (λ banner c1 e1.
        let b = banner_of banner in
        then_do-Ensures (λ u c'. Unit {0}) (Keeps m)
          (send_encoded (opening md5 password our_sid m b) c1) _ (anything-Ensures _)
          (λ u c2 e2.
            then_do-Ensures (λ s c'. c'.sent ≡ c2.sent) (Keeps m) (read_until 13 c2) _
              (read_until-Ensures 13 c2) (λ buf c3 e3. answered-Keeps send_body m b buf c3)))

ran_of-Keeps :
    (m : Message) (io : Io Talked)
    → Ensures (Keeps m) io
    → is_delivered (ran_of io).0 ≡ true
    → IsSent (frame_of m) (ran_of io).1.sent
unfolding ran_of is_delivered
ran_of-Keeps m (did t c) h k = (h k).1
ran_of-Keeps m (failed timed_out c) h k = absurd (cc)
ran_of-Keeps m (failed closed c) h k = absurd (cc)
ran_of-Keeps m (failed broken c) h k = absurd (cc)
ran_of-Keeps m (failed not_ascii c) h k = absurd (cc)

connect_and_run-IsSent :
    (login : Login) (md5 : Bytes → Bytes) (password our_sid : Text) (m : Message) (c : Cms)
    → is_delivered (connect_and_run login true md5 password our_sid m c).0 ≡ true
    → IsSent (frame_of m) (connect_and_run login true md5 password our_sid m c).1.sent
unfolding connect_and_run is_delivered
connect_and_run-IsSent login_error md5 password our_sid m c k = absurd (cc)
connect_and_run-IsSent login_breaks md5 password our_sid m c k = absurd (cc)
connect_and_run-IsSent logged_in md5 password our_sid m c k =
    ran_of-Keeps m (run_b2f true md5 password our_sid m c)
      (run_b2f-Keeps true md5 password our_sid m c) k

-- The message is on the disk in this state.
abbrev pub IsIn : Text → Text → Disk → Type 0
IsIn mid s disk = (r : Record) × (get mid disk ≡ some r) × (r.status ≡ s)

set_status-IsIn :
    (mid s : Text) (route error : Option (Option Text)) (disk : Disk) (r : Record)
    → get mid disk ≡ some r
    → is_state states s ≡ true
    → IsIn mid s (set_status mid s route error disk)
unfolding merge
set_status-IsIn mid s route error disk r h legal =
    (_, get-set_status mid s route error disk r h legal, refl)

-- What may come out of a send that is not refused and whose message can be built, where exceptions
-- go through it only for `Reason`.
pub data Settled (mid : Text) (m : Message) (Reason : Type 0) : Sending → Type 0 where
  as_sent :
      (disk : Disk) (c : Cms)
      → IsIn mid (codes "Sent") disk
      → IsSent (frame_of m) c.sent
      → Settled mid m Reason (finished (codes "Sent") disk c)
  as_failed :
      (disk : Disk) (c : Cms)
      → IsIn mid (codes "Failed") disk
      → Settled mid m Reason (finished (codes "Failed") disk c)
  left_sending :
      (disk : Disk) (c : Cms)
      → IsIn mid (codes "Sending") disk
      → Reason
      → Settled mid m Reason (crashed disk c)

settle-Settled :
    (mid route : Text) (describe : Ran → Text) (disk : Disk) (m : Message) (Reason : Type 0)
    (ran : Ran × Cms) (r : Record)
    → get mid disk ≡ some r
    → r.status ≡ codes "Sending"
    → (is_delivered ran.0 ≡ true → IsSent (frame_of m) ran.1.sent)
    → (ran.0 ≡ escaped → Reason)
    → Settled mid m Reason (settle mid route describe disk ran)
unfolding settle is_state text_eq
settle-Settled mid route describe disk m Reason (escaped, c) r h now sent why =
    left_sending disk c (r, h, now) (why refl)
settle-Settled mid route describe disk m Reason (error_of f, c) r h now sent why =
    as_failed _ c (
      set_status-IsIn mid (codes "Failed") none (some (some (describe (error_of f)))) disk r h refl)
settle-Settled mid route describe disk m Reason (talked t, c) r h now sent why =
    elim (Bool-cases (is_delivered (talked t))) [
      | inl e ↦ rw e (
          as_sent _ c
            (set_status-IsIn mid (codes "Sent") (some (some route)) (some none) disk r h refl)
            (sent e))
      | inr e ↦ rw e (
          as_failed _ c (
            set_status-IsIn mid (codes "Failed") none (some (some (describe (talked t)))) disk r h
              refl))
    ]

attempt-Settled :
    (mid route : Text) (describe : Ran → Text) (m : Message) (login : Login) (md5 : Bytes → Bytes)
    (password our_sid : Text) (c : Cms) (disk : Disk) (r : Record)
    → get mid disk ≡ some r
    → Settled mid m
        (Breaks login md5 password our_sid m c)
        (attempt mid route describe (some m) login md5 password our_sid c disk)
unfolding attempt merge is_state text_eq
attempt-Settled mid route describe m login md5 password our_sid c disk r h =
    settle-Settled mid route describe _ m (Breaks login md5 password our_sid m c)
      (connect_and_run login true md5 password our_sid m c) _
      (get-set_status mid (codes "Sending") (some (some route)) none disk r h refl) refl
      (connect_and_run-IsSent login md5 password our_sid m c)
      (connect_and_run-escaped login md5 password our_sid m c)

-- A send of a message that is on the disk, that is not refused and whose message can be built, whatever
-- the CMS answers and wherever the connection breaks. It leaves the message there as Sent, and then
-- its binary frame has gone out; or as Failed; or an exception goes through, and the message stays
-- there as Sending. This last happens only if the login raises an exception that is not caught, or
-- if it works and the CMS sends a banner to which the opening (SID, answer to its challenge, proposal)
-- cannot be encoded as ASCII.
pub send-Settled :
    (cfg : Config) (r : Record) (identity : Text) (describe : Ran → Text) (m : Message)
    (login : Login) (md5 : Bytes → Bytes) (our_sid : Text) (c : Cms) (disk : Disk) (stored : Record)
    → get r.id disk ≡ some stored
    → cfg.dry_run ≡ false
    → text_eq r.status (codes "Sent") ≡ false
    → Settled r.id m
        (Breaks login md5 cfg.cms_password our_sid m c)
        (send cfg r identity describe (some m) login md5 our_sid c disk)
unfolding send
send-Settled cfg r identity describe m login md5 our_sid c disk stored h live unsent =
    rw (live, unsent)
      (attempt-Settled r.id (codes "cms:" ++ identity) describe m login md5 cfg.cms_password our_sid
        c disk stored h)
