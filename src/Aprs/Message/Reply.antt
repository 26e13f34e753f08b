-- ===== src/Aprs/Message/Reply.antt =====
-- When a text is taken for an ack or a reject: never if it holds a brace.
use kp4pra.Prelude.{◌≤◌}
use kp4pra.Prelude.{
  ◌≡◌, ◌≢◌, refl, true, false, none, some, [], ◌∷◌, ◌++◌, Text, arith, ◌==◌, length, Bool-cases,
  inl, inr, All,
}
use kp4pra.PyText.{is_space, is_alnum, contains}
use kp4pra.Aprs.Message.Field.{
  span_alnum, all_space, reply_end, reply_number, match_reply, all_alnum, ack_tag, rej_tag,
  msgno_max_len,
}

all_space-contains : (s : Text) → contains b'{' s ≡ true → all_space s ≡ false
unfolding contains all_space is_space
all_space-contains [] h = cc
all_space-contains (c ∷ s) h = ground (arith, all_space-contains s)

reply_end-contains : (s : Text) → contains b'{' s ≡ true → reply_end s ≡ false
unfolding contains reply_end
reply_end-contains [] h = cc
reply_end-contains (c ∷ s) h = ground (arith, all_space-contains s, all_space-contains (c ∷ s))

span_alnum-contains : (s : Text) → contains b'{' s ≡ true → contains b'{' (span_alnum s).1 ≡ true
unfolding contains span_alnum is_alnum
span_alnum-contains [] h = cc
span_alnum-contains (c ∷ s) h = ground (arith, span_alnum-contains s)

reply_number-contains : (s : Text) → contains b'{' s ≡ true → reply_number s ≡ none
unfolding reply_number
reply_number-contains s h =
    ground (arith, reply_end-contains (span_alnum s).1 (span_alnum-contains s h))

pub match_reply-contains :
    (tag s : Text) → All (λ t. t ≢ b'{') tag → contains b'{' s ≡ true → match_reply tag s ≡ none
unfolding match_reply
match_reply-contains [] s h k = reply_number-contains s k
match_reply-contains (t ∷ tag) [] h k = refl
match_reply-contains (t ∷ tag) (c ∷ s) h k = elim (Bool-cases (c == t)) [
  | inl e ↦ rw e (match_reply-contains tag s h.1 (unfold contains in ground arith))
  | inr n ↦ rw n
]

span_alnum-all : (s : Text) → all_alnum s ≡ true → span_alnum s ≡ (s, [])
unfolding all_alnum span_alnum
span_alnum-all [] h = refl
span_alnum-all (c ∷ s) h = ground (arith, span_alnum-all s)

reply_number-all :
    (n : Text)
    → all_alnum n ≡ true
    → 1 ≤ length n
    → length n ≤ msgno_max_len
    → reply_number n ≡ some n
unfolding reply_number reply_end
reply_number-all n h low high = rw (span_alnum-all n h) (ground arith)

-- A number behind the tag is read back.
pub match_reply-number :
    (tag n : Text)
    → all_alnum n ≡ true
    → 1 ≤ length n
    → length n ≤ msgno_max_len
    → match_reply tag (tag ++ n) ≡ some n
unfolding match_reply
match_reply-number [] n h low high = reply_number-all n h low high
match_reply-number (t ∷ tag) n h low high = ground (arith, match_reply-number tag n)

-- An ack is no reject.
pub match_reply-other : (n : Text) → match_reply ack_tag (rej_tag ++ n) ≡ none
unfolding match_reply
match_reply-other n = refl
