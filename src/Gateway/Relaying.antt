-- ===== src/Gateway/Relaying.antt =====
-- The relay task during the waits of the handler: it keeps the session while the CMS sends data.
use kp4pra.Gateway.Accepting.{forwarded, forwarded-append, InSession, Keeps}
use kp4pra.Ax25.Frame.RoundTrip.{frame_bytes}
use kp4pra.Ax25.Frame.RoundTrip.{make_frame-frame_bytes}
use kp4pra.Gateway.Relay.{
  outstanding, advance, relay_at, relay_step, send_chunk, chunk_frame, loop_head, receive, bytes,
  pid_no_l3,
}
use kp4pra.Gateway.State.{Relay, idle, created, receiving, sending}
use kp4pra.Ax25.Control.{iframe}
use kp4pra.Prelude.{leb}
use kp4pra.Prelude.{
  ℕ, ◌%◌, ◌≡◌, refl, ◌∙◌, inl, inr, false, some, List, [], ◌∷◌, arith, Bytes, Text, Bool-cases,
  append-nil,
}
use kp4pra.Ax25.Control.{LinkState}
use kp4pra.Ax25.Frame.RoundTrip.{Call, text, IsCanonical}
use kp4pra.Gateway.State.{Gateway}

-- The relay task is such a task as long as the CMS sends it data.
module _ (s c : Call) (vs : IsCanonical s) (vc : IsCanonical c) (closing : Gateway → Gateway) where
  chunk_frame-made :
      (chunk : Bytes) (l : LinkState)
      → l.remote ≡ text s
      → chunk_frame (text c) l chunk
        ≡ some (frame_bytes s c (iframe l.vs l.vr false) chunk (some pid_no_l3) false [])
  unfolding chunk_frame
  chunk_frame-made chunk l remote =
      rw remote (
        make_frame-frame_bytes s c (iframe l.vs l.vr false) chunk (some pid_no_l3) false [] vs vc
          tt)

  send_chunk-session :
      (chunk : Bytes) (rest : List Bytes) (l : LinkState) (g : Gateway) (e : ℕ)
      → InSession g (text s) e
      → g.link ≡ some l
      → l.remote ≡ text s
      → l.vr ≡ e % 8
      → InSession (send_chunk (text c) closing chunk rest (some l) g) (text s) e
        × (forwarded (send_chunk (text c) closing chunk rest (some l) g).out ≡ forwarded g.out)
  unfolding send_chunk
  send_chunk-session chunk rest l g e v linked remote vr =
      let made = chunk_frame-made chunk l remote in
      elim (Bool-cases (leb 7 (outstanding l))) [
        | inl full ↦ rw full (v, refl)
        | inr room ↦
            rw (room, made)
              (
                record {
                  l = advance l;
                  linked = refl;
                  remote_is = remote;
                  vr_is = vr;
                  station = v.station;
                  cms_open = v.cms_open;
                },
                forwarded-append g.out _ ∙ append-nil (forwarded g.out),
              )
      ]

  loop_head-open :
      (g : Gateway) (l : LinkState) (w : Text)
      → g.link ≡ some l
      → g.cms ≡ some w
      → loop_head closing g ≡ record g { relay = receiving }
  unfolding loop_head
  loop_head-open g l w linked opened = ground arith

  loop_head-session :
      (g : Gateway) (e : ℕ)
      → InSession g (text s) e
      → InSession (loop_head closing g) (text s) e
        × (forwarded (loop_head closing g).out ≡ forwarded g.out)
  loop_head-session g e v = rw (loop_head-open g v.l v.station v.linked v.cms_open) (
    record {
      l = v.l;
      linked = v.linked;
      remote_is = v.remote_is;
      vr_is = v.vr_is;
      station = v.station;
      cms_open = v.cms_open;
    },
    refl,
  )

  relay_at-session :
      (at : Relay) (b : ℕ) (data_left : Bytes) (g : Gateway) (e : ℕ)
      → InSession g (text s) e
      → InSession (relay_at (text c) closing at (bytes (b ∷ data_left)) g) (text s) e
        × (forwarded (relay_at (text c) closing at (bytes (b ∷ data_left)) g).out ≡ forwarded g.out)
  unfolding relay_at receive
  relay_at-session idle b r g e v = (v, refl)
  relay_at-session created b r g e v = loop_head-session g e v
  relay_at-session receiving b r g e v = (
    record {
      l = v.l;
      linked = v.linked;
      remote_is = v.remote_is;
      vr_is = v.vr_is;
      station = v.station;
      cms_open = v.cms_open;
    },
    refl,
  )
  relay_at-session (sending []) b r g e v = loop_head-session g e v
  relay_at-session (sending (chunk ∷ rest)) b r g e v =
      simp v.linked (send_chunk-session chunk rest v.l g e v v.linked v.remote_is v.vr_is)

  pub relay_step-Keeps :
      (b : ℕ) (rest : Bytes) → Keeps (text s) (relay_step (text c) closing (bytes (b ∷ rest)))
  relay_step-Keeps b rest = record {
    session = λ g e v. (relay_at-session g.relay b rest g e v).0;
    silent = λ g e v. (relay_at-session g.relay b rest g e v).1;
  }
