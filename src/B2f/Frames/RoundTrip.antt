-- ===== src/B2f/Frames/RoundTrip.antt =====
-- A framed message is recovered, and its checksum cancels the sum of its bytes.
use kp4pra.Prelude.{
  ℕ, zero, suc, ◌+◌, ◌%◌, ◌<◌, ◌≤◌, ◌≡◌, refl, sym, ap, ◌∙◌, [], ◌∷◌, ◌++◌, Bytes, Text, arith,
  take, drop, length, sum, take-append, drop-append, length-append, length-take, length-drop,
  take-append-drop, append_assoc, append-nil,
}
use kp4pra.B2f.Frames.{
  title_bytes, checksum_of, chunk_frames, header, frame_binary, unframed, goes_on, unframe_round,
  unframe_loop, unframe_binary, skip_header, take_chunk, stx, soh, eot,
}

length-chunk_frames : (f : ℕ) (s : Bytes) → length s ≤ f → length s ≤ length (chunk_frames f s)
unfolding chunk_frames
length-chunk_frames zero s h = omega arith
length-chunk_frames (suc f) [] h = omega arith
length-chunk_frames (suc f) (b ∷ s) h = omega (
  arith,
  length-append (take 249 s) (chunk_frames f (drop 249 s)),
  length-append (take 249 s) (drop 249 s),
  ap length (take-append-drop 249 s),
  length-chunk_frames f (drop 249 s) (omega (arith, length-drop 249 s)),
)

-- One chunk, whatever follows.
unframe_round-chunk :
    (out chunk rest : Bytes)
    → length chunk ≤ 250
    → unframe_round out (stx ∷ length chunk % 256 ∷ (chunk ++ rest)) ≡ goes_on (out ++ chunk) rest
unfolding unframe_round take_chunk
unframe_round-chunk out chunk rest h =
    let e : length chunk % 256 ≡ length chunk = omega arith in
    rw (e, take-append chunk rest, drop-append chunk rest) refl

loop_goes_on :
    (g : ℕ) (out s out' s' : Bytes)
    → unframe_round out s ≡ goes_on out' s'
    → unframe_loop (suc g) out s ≡ unframe_loop g out' s'
unfolding unframe_loop
loop_goes_on g out s out' s' e = rw (unframe_loop, e) refl

loop_ends :
    (g : ℕ) (out : Bytes) (check : ℕ)
    → unframe_loop (suc g) out (eot ∷ check ∷ []) ≡ unframed (out ++ [])
unfolding unframe_loop unframe_round
loop_ends g out check = ap unframed (sym (append-nil out))

unframe_loop-chunk_frames :
    (f g : ℕ) (out s : Bytes) (check : ℕ)
    → length s ≤ f
    → f < g
    → unframe_loop g out (chunk_frames f s ++ eot ∷ check ∷ []) ≡ unframed (out ++ s)
unfolding chunk_frames
unframe_loop-chunk_frames f zero out s check h lt = absurd (omega arith)
unframe_loop-chunk_frames zero (suc g) out [] check h lt = loop_ends g out check
unframe_loop-chunk_frames zero (suc g) out (b ∷ s) check h lt = absurd (omega arith)
unframe_loop-chunk_frames (suc f) (suc g) out [] check h lt = loop_ends g out check
unframe_loop-chunk_frames (suc f) (suc g) out (b ∷ s) check h lt =
    let chunk = take 250 (b ∷ s) in
    let rest = drop 250 (b ∷ s) in
    let tail = chunk_frames f rest ++ eot ∷ check ∷ [] in
    ap (λ t. unframe_loop (suc g) out (stx ∷ length chunk % 256 ∷ t))
      (append_assoc chunk (chunk_frames f rest) (eot ∷ check ∷ []))
    ∙ loop_goes_on g out (stx ∷ length chunk % 256 ∷ (chunk ++ tail)) (out ++ chunk) tail
        (unframe_round-chunk out chunk tail (length-take 250 (b ∷ s)))
    ∙ unframe_loop-chunk_frames f g (out ++ chunk) rest check (omega (arith, length-drop 249 s))
        (omega arith)
    ∙ ap unframed (append_assoc out chunk rest ∙ ap (◌++◌ out) (take-append-drop 250 (b ∷ s)))

length-title_bytes : (title : Text) → length (title_bytes title) ≤ 80
unfolding title_bytes
length-title_bytes title = length-take 80 _

unframe_round-header :
    (title : Text) (rest : Bytes)
    → unframe_round [] (soh ∷ (length (title_bytes title) + 1 + 2) % 256 ∷ (header title ++ rest))
      ≡ goes_on [] rest
unfolding unframe_round skip_header
unframe_round-header title rest =
    let e : (length (title_bytes title) + 1 + 2) % 256 ≡ length (header title) = omega (
      arith,
      length-title_bytes title,
      length-append (title_bytes title) (0x00 ∷ b'0' ∷ 0x00 ∷ []),
    ) in
    ap (λ n. goes_on [] (drop n (header title ++ rest))) e
    ∙ ap (goes_on []) (drop-append (header title) rest)

-- Whatever the title and the data: a framed message is recovered whole. Its last two bytes are EOT and
-- the checksum that `frame_binary` returns, and this byte makes the sum of the data a multiple of 256.
pub unframe_binary-frame_binary :
    (title : Text) (compressed : Bytes)
    → (unframe_binary (frame_binary title compressed).bytes ≡ unframed compressed)
      × ((front : Bytes) × (c : ℕ) × ((frame_binary title compressed).bytes ≡ front ++ eot ∷ c ∷ [])
          × ((frame_binary title compressed).checksum ≡ c)
          × (c < 256)
          × ((sum compressed + c) % 256 ≡ 0))
unfolding unframe_binary frame_binary
unframe_binary-frame_binary title compressed =
    let data_part = chunk_frames (length compressed) compressed in
    let body = data_part ++ eot ∷ checksum_of compressed ∷ [] in
    let n = (length (title_bytes title) + 1 + 2) % 256 in
    (
      loop_goes_on _ [] (soh ∷ n ∷ (header title ++ body)) [] body (unframe_round-header title body)
          ∙ unframe_loop-chunk_frames (length compressed) (suc (length (header title ++ body))) []
              compressed (checksum_of compressed) (omega arith)
              (omega (
                arith,
                length-append (header title) body,
                length-append data_part (eot ∷ checksum_of compressed ∷ []),
                length-chunk_frames (length compressed) compressed (omega arith),
              )),
      (
        soh ∷ n ∷ (header title ++ data_part),
        checksum_of compressed,
        ap (λ t. soh ∷ n ∷ t)
            (sym (append_assoc (header title) data_part (eot ∷ checksum_of compressed ∷ []))),
        refl,
        (unfold checksum_of in omega arith),
        (unfold checksum_of in omega arith),
      ),
    )
