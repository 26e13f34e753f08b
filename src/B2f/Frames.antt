-- ===== src/B2f/Frames.antt =====
-- src/web/b2f.py: `frame_binary` and `unframe_binary`. The loops run on the bytes that are left.
pub mod RoundTrip
use kp4pra.Prelude.{
  ℕ, zero, suc, ◌+◌, ◌-◌, ◌%◌, List, [], ◌∷◌, ◌++◌, map, Bytes, Text, ltb, ◌==◌, if◌then◌else◌,
  is_nil, codes, take, drop, length, sum,
}

abbrev pub soh : ℕ
soh = 0x01

abbrev pub stx : ℕ
stx = 0x02

abbrev pub eot : ℕ
eot = 0x04

-- `title or "No subject"`, encoded with `?` for what is not ASCII, and cut.
unfoldable pub title_bytes : Text → Bytes
title_bytes title =
    take 80 (
      map (λ c. if ltb c 128 then c else b'?') (if is_nil title then codes "No subject" else title))

-- `(-sum(s)) & 0xFF`
unfoldable pub checksum_of : Bytes → ℕ
checksum_of s = (256 - sum s % 256) % 256

-- The loop over the data; each round takes at least one byte.
unfoldable pub chunk_frames : ℕ → Bytes → Bytes
chunk_frames zero s = []
chunk_frames (suc f) [] = []
chunk_frames (suc f) (b ∷ s) =
    let chunk = take 250 (b ∷ s) in
    stx ∷ length chunk % 256 ∷ (chunk ++ chunk_frames f (drop 250 (b ∷ s)))

-- The number of rounds of that loop.
unfoldable pub count_chunks : ℕ → Bytes → ℕ
count_chunks zero s = 0
count_chunks (suc f) [] = 0
count_chunks (suc f) (b ∷ s) = suc (count_chunks f (drop 250 (b ∷ s)))

pub record Framed : Type 0 where
  pub bytes : Bytes
  pub checksum : ℕ
  pub data_frames : ℕ
  pub header_len : ℕ

-- The header between its length and the first chunk.
abbrev pub header : Text → Bytes
header title = title_bytes title ++ 0x00 ∷ b'0' ∷ 0x00 ∷ []

unfoldable pub frame_binary : Text → Bytes → Framed
frame_binary title compressed =
    let header_len = length (title_bytes title) + 1 + 2 in
    record {
      bytes =
          soh
          ∷ header_len % 256
          ∷ (header title
              ++ (chunk_frames (length compressed) compressed
                  ++ eot ∷ checksum_of compressed ∷ []));
      checksum = checksum_of compressed;
      data_frames = count_chunks (length compressed) compressed;
      header_len = header_len;
    }

-- What `unframe_binary` returns, or raises: the `IndexError` of a missing length byte, or the
-- `ValueError` of a byte that starts nothing.
pub data Unframed : Type 0 where
  unframed : Bytes → Unframed
  index_error : Unframed
  bad_control : ℕ → Unframed

pub data Round : Type 0 where
  goes_on : Bytes → Bytes → Round
  ends : Unframed → Round

-- Behind the control byte of a header, and of a chunk.
skip_header : Bytes → Bytes → Round
skip_header out [] = ends index_error
skip_header out (n ∷ s) = goes_on out (drop n s)

take_chunk : Bytes → Bytes → Round
take_chunk out [] = ends index_error
take_chunk out (n ∷ s) = goes_on (out ++ take n s) (drop n s)

-- One round of the loop of `unframe_binary`.
unfoldable pub unframe_round : Bytes → Bytes → Round
unfolding skip_header take_chunk
unframe_round out [] = ends (unframed out)
unframe_round out (c ∷ s) =
    if c == soh
    then skip_header out s
    else if c == stx
    then take_chunk out s
    else if c == eot
    then ends (unframed out)
    else ends (bad_control c)

-- The loop; a round that goes on takes at least two bytes.
unfoldable pub unframe_loop : ℕ → Bytes → Bytes → Unframed
unframe_loop zero out s = unframed out
unframe_loop (suc f) out s = elim (unframe_round out s) [
  | ends r ↦ r
  | goes_on out' s' ↦ unframe_loop f out' s'
]

unfoldable pub unframe_binary : Bytes → Unframed
unframe_binary framed = unframe_loop (length framed) [] framed
