-- ===== src/Gateway/Delivery.antt =====
-- The receive side: I frames of the linked station reach the CMS in order, each one once.
use kp4pra.Gateway.Accepting.{
  forwarded, InSession, Keeps, IsNumbered, Delivered, news, next_expected, handle_frame-Delivered,
}
use kp4pra.Prelude.{Bool}
use kp4pra.Prelude.{
  ℕ, zero, suc, ◌+◌, ◌≤◌, ◌≡◌, refl, sym, ap, ◌∙◌, inl, inr, true, false, List, [], ◌∷◌, ◌++◌, map,
  arith, Bytes, Text, ◌==◌, Bool-cases, append_assoc, append-nil, is_nil,
}
use kp4pra.Ax25.Frame.Split.{Frame}
use kp4pra.Ax25.Frame.RoundTrip.{Call, text, IsCanonical}
use kp4pra.Gateway.State.{Gateway}
use kp4pra.Gateway.Handle.{Outcome, returned, ◌>>=◌, handle_frame}

-- The loop of `_run_rf` over received frames. `other` is what the relay task does in each wait.
pub run_frames : Text → (Gateway → Gateway) → Bool → Bool → List Frame → Gateway → Outcome
run_frames cms_call other connects delivers [] g = returned g
run_frames cms_call other connects delivers (f ∷ fs) g = do
  g' ← handle_frame cms_call other connects delivers f g
  run_frames cms_call other connects delivers fs g'

abbrev pub expected_after : ℕ → List (ℕ × Frame) → ℕ
expected_after e [] = e
expected_after e ((k, f) ∷ fs) = expected_after (next_expected e k) fs

-- Each number is less than eight away from the one expected when it arrives: duplicates, frames
-- behind a lost one and retransmissions are allowed.
abbrev pub Arrive : (ℕ → Frame → Type 0) → ℕ → List (ℕ × Frame) → Type 0
Arrive P e [] = Unit {0}
Arrive P e ((k, f) ∷ fs) = (P k f × ((k ≤ e + 7) × (e ≤ k + 7))) × Arrive P (next_expected e k) fs

abbrev pub numbers : ℕ → ℕ → List ℕ
numbers e zero = []
numbers e (suc n) = e ∷ numbers (e + 1) n

module _ (s c : Call) (vs : IsCanonical s) (vc : IsCanonical c) (other : Gateway → Gateway)
    (keeps : Keeps (text s) other) where
  module _ (connects : Bool) (sent : ℕ → Bytes)
      (not_empty : (k : ℕ) → is_nil (sent k) ≡ false) where
    -- What is passed on is a run of consecutive numbers.
    abbrev stream : ℕ → List (ℕ × Frame) → List Bytes
    stream e [] = []
    stream e ((k, f) ∷ fs) =
        news s c vs vc other keeps connects sent not_empty e k ++ stream (next_expected e k) fs

    run_frames-Delivered :
        (fs : List (ℕ × Frame)) (g : Gateway) (e : ℕ)
        → Arrive (IsNumbered (text c) (text s) sent) e fs
        → InSession g (text s) e
        → Delivered
            (run_frames (text c) other connects true (map (λ p. p.1) fs) g)
            g
            (text s)
            (expected_after e fs)
            (stream e fs)
    unfolding run_frames
    run_frames-Delivered [] g e h v = record {
      after = g;
      came_back = refl;
      session = v;
      passed = sym (append-nil (forwarded g.out));
    }
    run_frames-Delivered ((k, f) ∷ fs) g e h v =
        let d =
          handle_frame-Delivered s c vs vc other keeps connects sent not_empty f g e k h.0.0 h.0.1.0
            h.0.1.1 v in
        let r = run_frames-Delivered fs d.after (next_expected e k) h.1 d.session in
        record {
          after = r.after;
          came_back = rw d.came_back r.came_back;
          session = r.session;
          passed =
              r.passed
              ∙ ap (λ t. t ++ stream (next_expected e k) fs) d.passed
              ∙ append_assoc (forwarded g.out)
                  (news s c vs vc other keeps connects sent not_empty e k)
                  (stream (next_expected e k) fs);
        }

    stream-numbers :
        (fs : List (ℕ × Frame)) (e : ℕ)
        → (n : ℕ) × (stream e fs ≡ map sent (numbers e n)) × (expected_after e fs ≡ e + n)
    stream-numbers [] e = (0, refl, omega arith)
    stream-numbers ((k, f) ∷ fs) e = elim (Bool-cases (k == e)) [
      | inl same ↦
          let (n, as_stream, count) = stream-numbers fs (e + 1) in
          (suc n, rw same (ap (◌∷◌ (sent e)) as_stream), rw same (omega (arith, count)))
      | inr other ↦
          let (n, as_stream, count) = stream-numbers fs e in (n, rw other as_stream, rw other count)
    ]

    -- Between canonical callsigns, in a session where `e` frames were accepted, only I frames of the
    -- linked station come in, with
    -- payloads that are not empty and numbers less than eight away from the one expected:
    -- duplicates, gaps and repetitions are among them. Every `cms.send` and every
    -- write to Dire Wolf returns, and the relay task,
    -- which may run in each wait, neither ends the session nor changes the count. Then the handler
    -- returns from all of them, the session is still open, and what it has passed to the CMS is what
    -- the peer sent under the next `n` numbers, in order, each once, where `n` is the number of
    -- frames that it has accepted.
    pub run_frames-in_order :
        (fs : List (ℕ × Frame)) (g : Gateway) (e : ℕ)
        → Arrive (IsNumbered (text c) (text s) sent) e fs
        → InSession g (text s) e
        → (g' : Gateway) × (n : ℕ) × (run_frames (text c) other connects true (map (λ p. p.1) fs) g
            ≡ returned g')
          × InSession g' (text s) (e + n)
          × (forwarded g'.out ≡ forwarded g.out ++ map sent (numbers e n))
          × (expected_after e fs ≡ e + n)
    run_frames-in_order fs g e h v =
        let d = run_frames-Delivered fs g e h v in
        let (n, as_stream, count) = stream-numbers fs e in
        (
          d.after,
          n,
          d.came_back,
          rw (← count) d.session,
          d.passed ∙ ap (λ t. forwarded g.out ++ t) as_stream,
          count,
        )
