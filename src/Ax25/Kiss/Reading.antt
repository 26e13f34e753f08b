-- ===== src/Ax25/Kiss/Reading.antt =====
-- src/rms/gateway.py: the loop of `_run_rf` that feeds what it reads to the decoder, and the frames
-- that come out of it.
use kp4pra.Prelude.{ℕ, ◌≡◌, refl, ap, ◌∙◌, List, [], ◌∷◌, ◌++◌, map, Bytes}
use kp4pra.Ax25.Kiss.{kiss_encode, KissDecoder, fresh, feed, complete}
use kp4pra.Ax25.Kiss.RoundTrip.{feed-append, feed-kiss_encode}

-- `for frame in dec.feed(data)`, for one read after the other.
pub read_all : KissDecoder → List Bytes → KissDecoder × List Bytes
read_all d [] = (d, [])
read_all d (s ∷ ss) =
    let (d', out) = feed d s in let (d'', more) = read_all d' ss in (d'', out ++ more)

abbrev pub joined : List Bytes → Bytes
joined [] = []
joined (s ∷ ss) = s ++ joined ss

-- Frames with their ports, one behind the other.
abbrev pub encoded : List (ℕ × Bytes) → Bytes
encoded [] = []
encoded ((port, frame) ∷ fs) = kiss_encode frame port ++ encoded fs

read_all-joined : (d : KissDecoder) (ss : List Bytes) → read_all d ss ≡ feed d (joined ss)
unfolding read_all
read_all-joined d [] = unfold feed in refl
read_all-joined d (s ∷ ss) = rw (read_all-joined (feed d s).0 ss, feed-append d s (joined ss))

feed-encoded : (fs : List (ℕ × Bytes)) → feed fresh (encoded fs) ≡ (fresh, map (λ p. p.1) fs)
feed-encoded [] = unfold feed in refl
feed-encoded ((port, frame) ∷ fs) =
    feed-kiss_encode fresh frame port (encoded fs) ∙ rw (feed-encoded fs) (unfold complete in refl)

-- Frames are encoded one behind the other, and their bytes are read in pieces of any size, with
-- boundaries anywhere. The decoder hands out exactly these frames in their order, and is then fresh.
pub read_all-encoded :
    (frames : List (ℕ × Bytes)) (pieces : List Bytes)
    → joined pieces ≡ encoded frames
    → read_all fresh pieces ≡ (fresh, map (λ p. p.1) frames)
read_all-encoded frames pieces e =
    read_all-joined fresh pieces ∙ ap (feed fresh) e ∙ feed-encoded frames
