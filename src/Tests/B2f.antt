-- ===== src/Tests/B2f.antt =====
-- Inputs for src/web/b2f.py.
use kp4pra.B2f.Frames.{eot}
use kp4pra.Prelude.{ℕ, Bytes, ◌++◌, ◌<◌}
use kp4pra.PyText.{to_upper}
use kp4pra.PyText.{is_space}
use kp4pra.PyText.{lstrip}
use kp4pra.PyText.{rstrip}
use kp4pra.Prelude.{text_eq}
use kp4pra.Prelude.{◌+◌, ◌%◌, ◌≡◌, refl, [], ◌∷◌, codes, sum}
use kp4pra.PyText.{strip, upper}
use kp4pra.B2f.Answers.{parse_fs, disposition, send, skip, hold, resume, unknown}
use kp4pra.B2f.Frames.{frame_binary, unframe_binary, unframed}
use kp4pra.B2f.Frames.RoundTrip.{unframe_binary-frame_binary}

reads_answers : parse_fs (codes " fs YnH=!x") ≡ send ∷ skip ∷ hold ∷ hold ∷ resume ∷ unknown ∷ []
unfolding parse_fs disposition strip upper text_eq rstrip lstrip is_space to_upper
reads_answers = refl

unframe_binary-frame_binary_example :
    (unframe_binary (frame_binary (codes "Hi") (1 ∷ 4 ∷ 2 ∷ [])).bytes ≡ unframed (1 ∷ 4 ∷ 2 ∷ []))
    × ((front : Bytes) × (c : ℕ) × ((frame_binary (codes "Hi") (1 ∷ 4 ∷ 2 ∷ [])).bytes
          ≡ front ++ eot ∷ c ∷ [])
        × ((frame_binary (codes "Hi") (1 ∷ 4 ∷ 2 ∷ [])).checksum ≡ c)
        × (c < 256)
        × ((sum (1 ∷ 4 ∷ 2 ∷ []) + c) % 256 ≡ 0))
unframe_binary-frame_binary_example = unframe_binary-frame_binary (codes "Hi") (1 ∷ 4 ∷ 2 ∷ [])
