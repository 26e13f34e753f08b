-- ===== src/Gateway/Lost.antt =====
-- src/rms/gateway.py: an I frame whose `cms.send` raises.
use kp4pra.Gateway.Accepting.{
  forwarded, InSession, Keeps, IsNumbered, wait-InSession, handle_frame-Delivered,
  handle_frame-handle_i, handle_i-expected,
}
use kp4pra.Gateway.Handle.{raised}
use kp4pra.Gateway.Replies.{response, reply-response}
use kp4pra.Prelude.{Bool}
use kp4pra.Prelude.{
  ℕ, ◌+◌, ◌%◌, ◌≡◌, refl, ◌∙◌, true, false, some, arith, Bytes, ◌==◌, append-nil, is_nil,
}
use kp4pra.Ax25.Control.{LinkState, nr, rr, poll_bit}
use kp4pra.Ax25.Frame.Split.{Frame}
use kp4pra.Ax25.Frame.RoundTrip.{Call, text, IsCanonical}
use kp4pra.Gateway.State.{Gateway, tx, emit}
use kp4pra.Gateway.Handle.{returned, forward, accept_i, handle_frame}

module _ (s c : Call) (vs : IsCanonical s) (vc : IsCanonical c) (other : Gateway → Gateway)
    (keeps : Keeps (text s) other) (connects : Bool) (sent : ℕ → Bytes)
    (not_empty : (k : ℕ) → is_nil (sent k) ≡ false) where
  -- The handler has acknowledged the frame when the send raises.
  accept_i-raised :
      (f : Frame) (l : LinkState) (g : Gateway) (e : ℕ)
      → f.src ≡ text s
      → f.payload ≡ sent e
      → InSession (record g { link = some l }) (text s) (e + 1)
      → accept_i (text c) other false f l g
        ≡ raised (
            other (
              other (
                emit (tx (response s c (rr l.vr (poll_bit f.ctrl)))) (record g { link = some l }))))
  unfolding accept_i forward
  accept_i-raised f l g e from payload v =
      let g' = record g { link = some l } in
      let (v1, out1) =
        wait-InSession s c vs vc other keeps (tx (response s c (rr l.vr (poll_bit f.ctrl)))) g'
          (e + 1) v in
      rw (
        from,
        payload,
        reply-response s c other (rr l.vr (poll_bit f.ctrl)) g' vs vc,
        v1.cms_open,
        not_empty e,
      )

  -- The gateway after the exception.
  pub record IsLost (g g1 : Gateway) (e : ℕ) (f : Frame) : Type 0 where
    pub accepted : InSession g1 (text s) (e + 1)
    pub not_passed : forwarded g1.out ≡ forwarded g.out
    pub again : Gateway
    pub refused : handle_frame (text c) other connects true f g1 ≡ returned again
    pub still_open : InSession again (text s) (e + 1)
    pub never_passed : forwarded again.out ≡ forwarded g.out

  -- Between canonical callsigns, in a session with `e` frames accepted, the next I frame comes,
  -- its payload is not empty, and `cms.send` raises; the relay task may run in the waits but
  -- neither ends the session nor changes the count. Then `handle` raises, the session is still
  -- open with the frame counted as accepted, and nothing is passed to the CMS. When the peer sends
  -- the frame again, `handle` returns and passes nothing on even if the CMS would take it now: the
  -- payload is lost.
  pub handle_frame-loses :
      (f : Frame) (g : Gateway) (e : ℕ)
      → IsNumbered (text c) (text s) sent e f
      → InSession g (text s) e
      → (g1 : Gateway) × (handle_frame (text c) other connects false f g ≡ raised g1)
        × IsLost g g1 e f
  handle_frame-loses f g e n v =
      let l = record v.l { va = nr f.ctrl } in
      let l' = record l { vr = (l.vr + 1) % 8 } in
      let g' = record g { link = some l } in
      let v' : InSession (record g' { link = some l' }) (text s) (e + 1) = record {
        l = l';
        linked = refl;
        remote_is = v.remote_is;
        vr_is = omega (arith, v.vr_is);
        station = v.station;
        cms_open = v.cms_open;
      } in
      let a = tx (response s c (rr l'.vr (poll_bit f.ctrl))) in
      let (v1, out1) =
        wait-InSession s c vs vc other keeps a (record g' { link = some l' }) (e + 1) v' in
      let g1 = other (other (emit a (record g' { link = some l' }))) in
      let v2 = keeps.session (other (emit a (record g' { link = some l' }))) (e + 1) v1 in
      let d =
        handle_frame-Delivered s c vs vc other keeps connects sent not_empty f g1 (e + 1) e n
          (omega arith) (omega arith) v2 in
      let silent =
        keeps.silent (other (emit a (record g' { link = some l' }))) (e + 1) v1
        ∙ out1
        ∙ append-nil (forwarded g.out) in
      let behind : (e == e + 1) ≡ false = ground arith in
      (
        g1,
        handle_frame-handle_i s c vs vc other keeps connects sent not_empty false f g e v.l n
              v.linked v.remote_is
            ∙ handle_i-expected s c vs vc other keeps connects sent not_empty false f l g'
                (ground (arith, n.number, v.vr_is))
            ∙ accept_i-raised f l' g' e n.from_peer n.content v',
        record {
          accepted = v2;
          not_passed = silent;
          again = d.after;
          refused = d.came_back;
          still_open = rw behind at d.session;
          never_passed = d.passed ∙ rw behind (append-nil (forwarded g1.out)) ∙ silent;
        },
      )
