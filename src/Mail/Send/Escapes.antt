-- ===== src/Mail/Send/Escapes.antt =====
-- The exceptions that go through `_connect_and_run`, and why.
use kp4pra.Mail.Send.{Login, logged_in, login_error, login_breaks, escaped}
use kp4pra.Mail.Talk.{timed_out, closed, broken, not_ascii, send_encoded, banner_of}
use kp4pra.Prelude.{
  ℕ, zero, suc, ◌≡◌, ◌⊎◌, inl, inr, refl, true, Bool-cases, Option, none, some, List, [], ◌∷◌, ◌++◌,
  Bytes, Text, is_nil,
}
use kp4pra.B2f.Answers.{parse_fs}
use kp4pra.Mail.Talk.{
  Banner, Cms, Io, did, failed, then_do, read_loop, read_until, is_done, send_left, send_bytes,
  split_at, find_fs, starts_with_send, Message, opening, Talked, frame_of, answered, run_b2f,
}
use kp4pra.Mail.Send.{ran_of, connect_and_run}

-- A `not_ascii` only with this reason.
abbrev IsTold {ℓ κ} : {A : Type ℓ} → Type κ → Io A → Type κ
IsTold Reason (did a c) = Unit
IsTold Reason (failed timed_out c) = Unit
IsTold Reason (failed closed c) = Unit
IsTold Reason (failed broken c) = Unit
IsTold Reason (failed not_ascii c) = Reason

then_do-IsTold {ℓ κ μ} :
    {A : Type ℓ} {B : Type κ} (Reason : Type μ) (io : Io A) (k : A → Cms → Io B)
    → IsTold Reason io
    → ((a : A) (c : Cms) → io ≡ did a c → IsTold Reason (k a c))
    → IsTold Reason (then_do io k)
unfolding then_do
then_do-IsTold Reason (did a c) k q next = next a c refl
then_do-IsTold Reason (failed timed_out c) k q next = tt
then_do-IsTold Reason (failed closed c) k q next = tt
then_do-IsTold Reason (failed broken c) k q next = tt
then_do-IsTold Reason (failed not_ascii c) k q next = q

read_loop-IsTold {ℓ} :
    (Reason : Type ℓ) (needle : ℕ) (buf : Bytes) (rs : List Bytes) (left : ℕ) (sent : List Bytes)
    → IsTold Reason (read_loop needle buf rs left sent)
unfolding read_loop
read_loop-IsTold Reason needle buf [] left sent = elim (Bool-cases (is_done needle buf)) [
  | inl e ↦ rw e tt
  | inr e ↦ rw e tt
]
read_loop-IsTold Reason needle buf (r ∷ rs) left sent = elim (Bool-cases (is_done needle buf)) [
  | inl e ↦ rw e tt
  | inr e ↦ elim (Bool-cases (is_nil r)) [
    | inl n ↦ rw (e, n) tt
    | inr n ↦ rw (e, n) (read_loop-IsTold Reason needle (buf ++ r) rs left sent)
  ]
]

read_until-IsTold {ℓ} :
    (Reason : Type ℓ) (needle : ℕ) (c : Cms) → IsTold Reason (read_until needle c)
unfolding read_until
read_until-IsTold Reason needle c = read_loop-IsTold Reason needle [] c.replies c.sends_left c.sent

send_left-IsTold {ℓ} :
    (Reason : Type ℓ) (n : ℕ) (s : Bytes) (c : Cms) → IsTold Reason (send_left n s c)
unfolding send_left
send_left-IsTold Reason zero s c = tt
send_left-IsTold Reason (suc n) s c = tt

send_bytes-IsTold {ℓ} : (Reason : Type ℓ) (s : Bytes) (c : Cms) → IsTold Reason (send_bytes s c)
unfolding send_bytes
send_bytes-IsTold Reason s c = send_left-IsTold Reason c.sends_left s c

answered-IsTold {ℓ} :
    (Reason : Type ℓ) (m : Message) (b : Banner) (buf : Bytes) (c : Cms)
    → IsTold Reason (answered true m b buf c)
unfolding answered
answered-IsTold Reason m b buf c =
    elim (Bool-cases (starts_with_send (parse_fs (find_fs (split_at 13 buf))))) [
      | inr no_send ↦ rw no_send tt
      | inl yes_send ↦ rw yes_send (
          then_do-IsTold Reason (send_bytes (frame_of m) c) _
            (send_bytes-IsTold Reason (frame_of m) c)
            (λ u c1 e.
              then_do-IsTold Reason (read_until b'F' c1) _ (read_until-IsTold Reason b'F' c1)
                (λ s c2 g. tt)))
    ]

-- The CMS sends a banner for which the opening cannot be encoded: a text that is not ASCII is in its
-- challenge, in the password that the answer takes, or in the SID or proposal.
abbrev pub IsUnsendable : (md5 : Bytes → Bytes) → Text → Text → Message → Cms → Type 0
IsUnsendable md5 password our_sid m c =
    (banner : Bytes) × (c1 : Cms) × (read_until b'>' c ≡ did banner c1)
    × (opening md5 password our_sid m (banner_of banner) ≡ none)

send_encoded-IsTold {ℓ} :
    (Reason : Type ℓ) (o : Option Bytes) (c : Cms)
    → (o ≡ none → Reason)
    → IsTold Reason (send_encoded o c)
unfolding send_encoded
send_encoded-IsTold Reason none c why = why refl
send_encoded-IsTold Reason (some s) c why = send_bytes-IsTold Reason s c

run_b2f-IsTold :
    (md5 : Bytes → Bytes) (password our_sid : Text) (m : Message) (c : Cms)
    → IsTold (IsUnsendable md5 password our_sid m c) (run_b2f true md5 password our_sid m c)
unfolding run_b2f
run_b2f-IsTold md5 password our_sid m c =
    let Reason = IsUnsendable md5 password our_sid m c in
    then_do-IsTold Reason (read_until b'>' c) _ (read_until-IsTold Reason b'>' c) (λ banner c1 e.
      then_do-IsTold Reason (send_encoded (opening md5 password our_sid m (banner_of banner)) c1) _
        (send_encoded-IsTold Reason (opening md5 password our_sid m (banner_of banner)) c1
          (λ k. (banner, c1, e, k)))
        (λ u c2 g.
          then_do-IsTold Reason (read_until 13 c2) _ (read_until-IsTold Reason 13 c2)
            (λ buf c3 h. answered-IsTold Reason m (banner_of banner) buf c3)))

ran_of-escaped {ℓ} :
    (Reason : Type ℓ) (io : Io Talked) → IsTold Reason io → (ran_of io).0 ≡ escaped → Reason
unfolding ran_of
ran_of-escaped Reason (did t c) h k = absurd (cc)
ran_of-escaped Reason (failed timed_out c) h k = absurd (cc)
ran_of-escaped Reason (failed closed c) h k = absurd (cc)
ran_of-escaped Reason (failed broken c) h k = absurd (cc)
ran_of-escaped Reason (failed not_ascii c) h k = h

-- Why an exception may go through `send`.
abbrev pub Breaks : Login → (md5 : Bytes → Bytes) → Text → Text → Message → Cms → Type 0
Breaks login md5 password our_sid m c =
    (login ≡ login_breaks) ⊎ ((login ≡ logged_in) × IsUnsendable md5 password our_sid m c)

pub connect_and_run-escaped :
    (login : Login) (md5 : Bytes → Bytes) (password our_sid : Text) (m : Message) (c : Cms)
    → (connect_and_run login true md5 password our_sid m c).0 ≡ escaped
    → Breaks login md5 password our_sid m c
unfolding connect_and_run
connect_and_run-escaped login_error md5 password our_sid m c k = absurd (cc)
connect_and_run-escaped login_breaks md5 password our_sid m c k = inl refl
connect_and_run-escaped logged_in md5 password our_sid m c k = inr (
  refl,
  ran_of-escaped (IsUnsendable md5 password our_sid m c) (run_b2f true md5 password our_sid m c)
      (run_b2f-IsTold md5 password our_sid m c) k,
)
