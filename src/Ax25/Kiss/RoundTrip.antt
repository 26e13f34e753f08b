-- ===== src/Ax25/Kiss/RoundTrip.antt =====
-- What the decoder makes of an encoded frame.
use kp4pra.Prelude.{
  ℕ, ◌≡◌, ◌≢◌, refl, ap, ◌∙◌, false, [], ◌∷◌, ◌++◌, arith, append-nil, append_assoc, ◌==◌,
  if◌then◌else◌, Bool-cases, inl, inr, Bytes, All, All-append,
}
use kp4pra.Ax25.Kiss.{
  fend, fesc, tfend, tfesc, escape, kiss_command, kiss_encode, KissDecoder, fresh, complete,
  feed_byte, feed,
}

-- The escaped form of one byte.
abbrev escaped : ℕ → Bytes
escaped b = if b == fend then fesc ∷ tfend ∷ [] else if b == fesc then fesc ∷ tfesc ∷ [] else b ∷ []

escape-cons : (b : ℕ) (s : Bytes) → escape (b ∷ s) ≡ escaped b ++ escape s
unfolding escape
escape-cons b s = ground arith

-- Bytes arrive in pieces of any size: feeding two pieces is feeding their concatenation.
pub feed-append :
    (d : KissDecoder) (a b : Bytes)
    → feed d (a ++ b) ≡ ((feed (feed d a).0 b).0, (feed d a).1 ++ (feed (feed d a).0 b).1)
unfolding feed
feed-append d [] b = refl
feed-append d (x ∷ a) b = ground (
  arith,
  feed-append (feed_byte d x).0 a b,
  append_assoc (feed_byte d x).1 (feed (feed_byte d x).0 a).1
      (feed (feed (feed_byte d x).0 a).0 b).1,
)

-- One escaped byte joins the buffer.
feed-escaped :
    (buf : Bytes) (b : ℕ) (rest : Bytes)
    → feed (record { buf = buf; esc = false }) (escaped b ++ rest)
      ≡ feed (record { buf = buf ++ b ∷ []; esc = false }) rest
unfolding feed
feed-escaped buf b rest = ground arith

feed-escape :
    (buf s rest : Bytes)
    → feed (record { buf = buf; esc = false }) (escape s ++ rest)
      ≡ feed (record { buf = buf ++ s; esc = false }) rest
feed-escape buf [] rest = unfold escape in rw append-nil
feed-escape buf (b ∷ s) rest =
    rw (escape-cons, append_assoc)
      (feed-escaped buf b (escape s ++ rest) ∙ feed-escape (buf ++ b ∷ []) s rest ∙ rw append_assoc)

feed-fend :
    (d : KissDecoder) (s : Bytes)
    → feed d (fend ∷ s) ≡ ((feed fresh s).0, complete d.buf ++ (feed fresh s).1)
unfolding feed
feed-fend d s = refl

complete-kiss_command :
    (port : ℕ) (frame : Bytes) → complete (kiss_command port ∷ frame) ≡ frame ∷ []
unfolding complete
complete-kiss_command port frame = ground arith

-- What stands between the FENDs joins an empty buffer, and the closing FEND hands it out.
feed-body :
    (frame : Bytes) (port : ℕ) (rest : Bytes)
    → feed fresh ((escape (kiss_command port ∷ frame) ++ fend ∷ []) ++ rest)
      ≡ ((feed fresh rest).0, frame ∷ (feed fresh rest).1)
feed-body frame port rest =
    ap (feed fresh) (append_assoc (escape (kiss_command port ∷ frame)) (fend ∷ []) rest)
    ∙ feed-escape [] (kiss_command port ∷ frame) (fend ∷ rest)
    ∙ feed-fend (record { buf = kiss_command port ∷ frame; esc = false }) rest
    ∙ ap (λ out. ((feed fresh rest).0, out ++ (feed fresh rest).1))
        (complete-kiss_command port frame)

-- A decoder in any state, in the middle of garbage or of another frame, hands out what it had
-- pending, then exactly the encoded frame, and is fresh for what follows.
pub feed-kiss_encode :
    (d : KissDecoder) (frame : Bytes) (port : ℕ) (rest : Bytes)
    → feed d (kiss_encode frame port ++ rest)
      ≡ ((feed fresh rest).0, complete d.buf ++ frame ∷ (feed fresh rest).1)
unfolding kiss_encode
feed-kiss_encode d frame port rest =
    feed-fend d ((escape (kiss_command port ∷ frame) ++ fend ∷ []) ++ rest) ∙ rw feed-body

escaped-ne-fend : (b : ℕ) → All (λ x. x ≢ fend) (escaped b)
escaped-ne-fend b = elim (Bool-cases (b == fend)) [
  | inl e ↦ rw e (omega arith, (omega arith, tt))
  | inr n ↦ rw n (elim (Bool-cases (b == fesc)) [
    | inl e ↦ rw e (omega arith, (omega arith, tt))
    | inr m ↦ rw m (ground arith, tt)
  ])
]

-- Between the two FENDs of an encoded frame there is no FEND.
pub escape-ne-fend : (s : Bytes) → All (λ b. b ≢ fend) (escape s)
escape-ne-fend [] = unfold escape in tt
escape-ne-fend (b ∷ s) =
    rw escape-cons
      (All-append (λ b. b ≢ fend) (escaped b) (escape s) (escaped-ne-fend b) (escape-ne-fend s))
