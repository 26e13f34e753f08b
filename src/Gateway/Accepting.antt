-- ===== src/Gateway/Accepting.antt =====
-- src/rms/gateway.py: what one I frame of the linked station does in a session.
use kp4pra.Gateway.Replies.{response, reply-response}
use kp4pra.Prelude.{Bool}
use kp4pra.Prelude.{text_eq_iff}
use kp4pra.Prelude.{==_iff}
use kp4pra.Prelude.{
  ℕ, ◌+◌, ◌%◌, ◌≤◌, ◌≡◌, refl, sym, ap, ◌∙◌, inl, inr, true, false, some, List, [], ◌∷◌, ◌++◌,
  arith, Bytes, Text, if◌then◌else◌, ◌==◌, Bool-cases, append-nil, is_nil,
}
use kp4pra.PyText.{upper}
use kp4pra.Ax25.Control.{LinkState, is_sabm, is_disc, is_i, ns, nr, rr, poll_bit}
use kp4pra.Ax25.Frame.Split.{Frame}
use kp4pra.Ax25.Frame.RoundTrip.{Call, text, IsCanonical}
use kp4pra.Gateway.State.{Gateway, Action, tx, cms_open, cms_close, cms_send, set_status, emit}
use kp4pra.Gateway.Handle.{
  Outcome, returned, reply, forward, accept_i, handle_i, handle_data, handle_frame,
}

-- What a trace passes to the CMS.
abbrev pub forwarded : List Action → List Bytes
forwarded [] = []
forwarded (cms_send b ∷ rest) = b ∷ forwarded rest
forwarded (tx _ ∷ rest) = forwarded rest
forwarded (cms_open _ ∷ rest) = forwarded rest
forwarded (cms_close ∷ rest) = forwarded rest
forwarded (set_status _ ∷ rest) = forwarded rest

pub forwarded-append : (a b : List Action) → forwarded (a ++ b) ≡ forwarded a ++ forwarded b
forwarded-append [] b = refl
forwarded-append (cms_send x ∷ a) b = ap (◌∷◌ x) (forwarded-append a b)
forwarded-append (tx x ∷ a) b = forwarded-append a b
forwarded-append (cms_open x ∷ a) b = forwarded-append a b
forwarded-append (cms_close ∷ a) b = forwarded-append a b
forwarded-append (set_status x ∷ a) b = forwarded-append a b

-- A frame that the peer numbered `k`, with what it sends under that number.
pub record IsNumbered (cms_call src : Text) (sent : ℕ → Bytes) (k : ℕ) (f : Frame) : Type 0 where
  pub to_us : upper f.dest ≡ upper cms_call
  pub from_peer : f.src ≡ src
  pub not_sabm : is_sabm f.ctrl ≡ false
  pub not_disc : is_disc f.ctrl ≡ false
  pub i_frame : is_i f.ctrl ≡ true
  pub number : ns f.ctrl ≡ k % 8
  pub content : f.payload ≡ sent k

-- The count of frames accepted when `e` were and number `k` arrives.
abbrev pub next_expected : ℕ → ℕ → ℕ
next_expected e k = if k == e then e + 1 else e

-- An established session with the peer, `e` of whose frames were accepted.
pub record InSession (g : Gateway) (src : Text) (e : ℕ) : Type 0 where
  pub l : LinkState
  pub linked : g.link ≡ some l
  pub remote_is : l.remote ≡ src
  pub vr_is : l.vr ≡ e % 8
  pub station : Text
  pub cms_open : g.cms ≡ some station

-- The other task leaves the session open, with as many frames accepted, and passes nothing to the
-- CMS.
pub record Keeps (src : Text) (other : Gateway → Gateway) : Type 0 where
  pub session : (g : Gateway) (e : ℕ) → InSession g src e → InSession (other g) src e
  pub silent : (g : Gateway) (e : ℕ) → InSession g src e → forwarded (other g).out ≡ forwarded g.out

-- The outcome of one frame.
pub record Delivered (o : Outcome) (g : Gateway) (src : Text) (e : ℕ) (more : List Bytes)
    : Type 0 where
  pub after : Gateway
  pub came_back : o ≡ returned after
  pub session : InSession after src e
  pub passed : forwarded after.out ≡ forwarded g.out ++ more

module _ (s c : Call) (vs : IsCanonical s) (vc : IsCanonical c) (other : Gateway → Gateway)
    (keeps : Keeps (text s) other) where
  -- One action of the handler in a session, and the wait after it.
  pub wait-InSession :
      (a : Action) (g : Gateway) (e : ℕ)
      → InSession g (text s) e
      → InSession (other (emit a g)) (text s) e
        × (forwarded (other (emit a g)).out ≡ forwarded g.out ++ forwarded (a ∷ []))
  wait-InSession a g e v =
      let v' : InSession (emit a g) (text s) e = record {
        l = v.l;
        linked = v.linked;
        remote_is = v.remote_is;
        vr_is = v.vr_is;
        station = v.station;
        cms_open = v.cms_open;
      } in
      (
        keeps.session (emit a g) e v',
        keeps.silent (emit a g) e v' ∙ forwarded-append g.out (a ∷ []),
      )

  module _ (connects : Bool) (sent : ℕ → Bytes)
      (not_empty : (k : ℕ) → is_nil (sent k) ≡ false) where
    forward-opened :
        (k : ℕ) (g : Gateway) {w : Text}
        → g.cms ≡ some w
        → forward (text c) other true (sent k) g ≡ returned (other (emit (cms_send (sent k)) g))
    unfolding forward
    forward-opened k g h = rw (h, not_empty k)

    -- The frame that is expected.
    accept_i-Delivered :
        (f : Frame) (l : LinkState) (g : Gateway) (e : ℕ)
        → f.src ≡ text s
        → f.payload ≡ sent e
        → InSession (record g { link = some l }) (text s) (e + 1)
        → Delivered (accept_i (text c) other true f l g) g (text s) (e + 1) (sent e ∷ [])
    unfolding accept_i
    accept_i-Delivered f l g e from payload v =
        let ctrl = rr l.vr (poll_bit f.ctrl) in
        let g' = record g { link = some l } in
        let a = tx (response s c ctrl) in
        let (v1, out1) = wait-InSession a g' (e + 1) v in
        let g1 = other (emit a g') in
        let (v2, out2) = wait-InSession (cms_send (sent e)) g1 (e + 1) v1 in
        record {
          after = other (emit (cms_send (sent e)) g1);
          came_back = rw (
            from,
            payload,
            reply-response s c other ctrl g' vs vc,
            forward-opened e g1 v1.cms_open,
          );
          session = v2;
          passed = out2 ∙ ap (λ t. t ++ sent e ∷ []) (out1 ∙ append-nil (forwarded g.out));
        }

    -- Any other frame.
    refuse-Delivered :
        (f : Frame) (ctrl : ℕ) (g : Gateway) (e : ℕ)
        → f.src ≡ text s
        → InSession g (text s) e
        → Delivered (reply (text c) other f.src ctrl g) g (text s) e []
    refuse-Delivered f ctrl g e from v =
        let a = tx (response s c ctrl) in
        let (v1, out1) = wait-InSession a g e v in
        record {
          after = other (emit a g);
          came_back = rw from (reply-response s c other ctrl g vs vc);
          session = v1;
          passed = out1;
        }

    pub handle_i-expected :
        (delivers : Bool) (f : Frame) (l : LinkState) (g : Gateway)
        → (ns f.ctrl == l.vr) ≡ true
        → handle_i (text c) other delivers f l g
          ≡ accept_i (text c) other delivers f (record l { vr = (l.vr + 1) % 8 }) g
    unfolding handle_i
    handle_i-expected delivers f l g h = rw h

    handle_i-other :
        (f : Frame) (l : LinkState) (g : Gateway)
        → (ns f.ctrl == l.vr) ≡ false
        → handle_i (text c) other true f l g ≡ reply (text c) other f.src (rr l.vr true) g
    unfolding handle_i
    handle_i-other f l g h = rw h

    abbrev pub news : ℕ → ℕ → List Bytes
    news e k = if k == e then sent e ∷ [] else []

    handle_i-Delivered :
        (f : Frame) (l : LinkState) (g : Gateway) (e k : ℕ)
        → IsNumbered (text c) (text s) sent k f
        → k ≤ e + 7
        → e ≤ k + 7
        → g.link ≡ some l
        → l.remote ≡ text s
        → l.vr ≡ e % 8
        → (w : Text) → g.cms ≡ some w
        → Delivered (handle_i (text c) other true f l g) g (text s) (next_expected e k) (news e k)
    handle_i-Delivered f l g e k n above below linked remote vr w opened =
        elim (Bool-cases (k == e)) [
          | inl same ↦
              rw (same, handle_i-expected true f l g (ground (arith, n.number)))
                (accept_i-Delivered f (record l { vr = (l.vr + 1) % 8 }) g e n.from_peer
                  (n.content ∙ ap sent ((==_iff k e).0 same))
                  (record {
                    l = record l { vr = (l.vr + 1) % 8 };
                    linked = refl;
                    remote_is = remote;
                    vr_is = omega arith;
                    station = w;
                    cms_open = opened;
                  }))
          | inr other ↦
              rw (other, handle_i-other f l g (ground (arith, n.number)))
                (refuse-Delivered f (rr l.vr true) g e n.from_peer (record {
                  l = l;
                  linked = linked;
                  remote_is = remote;
                  vr_is = vr;
                  station = w;
                  cms_open = opened;
                }))
        ]

    pub handle_frame-handle_i :
        (delivers : Bool) (f : Frame) (g : Gateway) (k : ℕ) (l : LinkState)
        → IsNumbered (text c) (text s) sent k f
        → g.link ≡ some l
        → l.remote ≡ text s
        → handle_frame (text c) other connects delivers f g
          ≡ handle_i
              (text c)
              other
              delivers
              f
              (record l { va = nr f.ctrl })
              (record g { link = some (record l { va = nr f.ctrl }) })
    unfolding handle_frame handle_data
    handle_frame-handle_i delivers f g k l n linked remote = simp (
      (text_eq_iff (upper f.dest) (upper (text c))).1 n.to_us,
      n.not_sabm,
      linked,
      (text_eq_iff f.src l.remote).1 (n.from_peer ∙ sym remote),
      n.not_disc,
      n.i_frame,
    )

    pub handle_frame-Delivered :
        (f : Frame) (g : Gateway) (e k : ℕ)
        → IsNumbered (text c) (text s) sent k f
        → k ≤ e + 7
        → e ≤ k + 7
        → InSession g (text s) e
        → Delivered
            (handle_frame (text c) other connects true f g)
            g
            (text s)
            (next_expected e k)
            (news e k)
    handle_frame-Delivered f g e k n above below v =
        rw (handle_frame-handle_i true f g k v.l n v.linked v.remote_is) (
          let l' = record v.l { va = nr f.ctrl } in
          let d =
            handle_i-Delivered f l' (record g { link = some l' }) e k n above below refl v.remote_is
              v.vr_is v.station v.cms_open in
          record {
            after = d.after;
            came_back = d.came_back;
            session = d.session;
            passed = d.passed;
          })
