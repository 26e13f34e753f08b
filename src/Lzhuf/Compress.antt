-- ===== src/Lzhuf/Compress.antt =====
-- src/web/lzhuf.py: the main part of `_lzss_encode`, and `compress`. `none` is an exception, or the
-- end of the fuel.
pub mod Copies
pub mod Ring
pub mod Sliding
pub mod Advance
pub mod Rounds
pub mod Begin
pub mod RoundTrip
use kp4pra.Prelude.{
  ℕ, zero, suc, ◌+◌, ◌-◌, ◌*◌, ◌%◌, Option, none, some, [], ◌∷◌, Bytes, length, take, drop, ltb,
  leb, ◌==◌, if◌then◌else◌, is_nil,
}
use kp4pra.Prelude.Maybe.{◌>>=◌}
use kp4pra.Lzhuf.Tables.{ring_size, max_match, threshold}
use kp4pra.Lzhuf.Bits.{BitWriter, new_writer, flush}
use kp4pra.Lzhuf.Huffman.{Array, set, Huff, start}
use kp4pra.Lzhuf.Token.{Token, literal, copy, put_token}
use kp4pra.Lzhuf.Encode.{Dict, nil, insert_node, delete_node}
use kp4pra.Lzhuf.Envelope.{le_bytes, envelope}

-- The local variables; `src` is what has not been read.
pub record Coder : Type 0 where
  pub dict : Dict
  pub s : ℕ
  pub r : ℕ
  pub length : ℕ
  pub src : Bytes
  pub huff : Huff
  pub bw : BitWriter

-- `text_buf[s] = c`, and its copy behind the ring.
abbrev pub write_byte : ℕ → ℕ → Array → Array
write_byte s c text =
    let here = set text s c in if ltb s (max_match - 1) then set here (s + ring_size) c else here

-- The body of the first inner loop, for a byte of the source.
unfoldable pub slide_in : ℕ → ℕ → Coder → Option Coder
slide_in f c z = do
  d ← delete_node f z.s z.dict
  let r = (z.r + 1) % ring_size
  e ← insert_node f r (record d { text_buf = write_byte z.s c d.text_buf })
  some (record z { dict = e; s = (z.s + 1) % ring_size; r = r })

-- The body of the second inner loop.
unfoldable pub slide_out : ℕ → Coder → Option Coder
slide_out f z = do
  d ← delete_node f z.s z.dict
  let r = (z.r + 1) % ring_size
  e ← if z.length - 1 == 0 then some d else insert_node f r d
  some (record z { dict = e; s = (z.s + 1) % ring_size; r = r; length = z.length - 1 })

unfoldable pub slide : ℕ → Bytes → Coder → Option Coder
slide f [] z = slide_out f z
slide f (c ∷ src) z = slide_in f c (record z { src = src })

-- Both inner loops: once the source is read, it stays so.
unfoldable pub advance : ℕ → ℕ → Coder → Option Coder
advance zero f z = some z
advance (suc k) f z = slide f z.src z >>= advance k f

-- `match_length` cut to what is left.
abbrev pub cut_length : Coder → ℕ
cut_length z = if ltb z.length z.dict.match_length then z.length else z.dict.match_length

abbrev pub next_token : Coder → Token
next_token z =
    if leb (cut_length z) threshold
    then literal (z.dict.text_buf z.r)
    else copy (cut_length z) z.dict.match_position

-- `last_match_length`
abbrev pub token_length : Coder → ℕ
token_length z = if leb (cut_length z) threshold then 1 else cut_length z

-- One round of the main loop; `f` is the fuel of the searches.
unfoldable pub encode_round : ℕ → Coder → Option Coder
encode_round f z = do
  (h, w) ← put_token (next_token z) z.huff z.bw
  advance (token_length z) f (record z { huff = h; bw = w })

unfoldable pub encode_loop : ℕ → ℕ → Coder → Option Coder
encode_loop zero f z = none
encode_loop (suc k) f z =
    let more = encode_round f z >>= encode_loop k f in if z.length == 0 then some z else more

-- `text_buf[r + length] = src[src_pos]`, from the place `i` on.
unfoldable pub load_from : ℕ → Bytes → Array → Array
load_from i [] text = text
load_from i (c ∷ src) text = load_from (i + 1) src (set text i c)

unfoldable pub first_dict : Bytes → Dict
first_dict src = record {
  text_buf =
      load_from (ring_size - max_match) (take max_match src)
        (λ i. if ltb i (ring_size - max_match) then 0x20 else 0);
  lson = λ i. 0;
  rson = λ i. if ltb ring_size i then nil else 0;
  dad = λ i. if ltb i ring_size then nil else 0;
  match_position = 0;
  match_length = 0;
}

-- `for i in range(1, F + 1): insert_node(r - i)`, for `i` up to the argument.
unfoldable pub insert_before : ℕ → ℕ → ℕ → Dict → Option Dict
insert_before zero f r d = some d
insert_before (suc n) f r d = insert_before n f r d >>= insert_node f (r - suc n)

unfoldable pub first_coder : ℕ → Bytes → Option Coder
first_coder f src = do
  let r : ℕ = ring_size - max_match
  d ← insert_before max_match f r (first_dict src)
  e ← insert_node f r d
  some (record {
    dict = e;
    s = 0;
    r = r;
    length = length (take max_match src);
    src = drop max_match src;
    huff = start;
    bw = new_writer;
  })

-- A tree grows by one rank at each insertion: the fuel is more than the number of insertions.
unfoldable pub lzss_encode : Bytes → Option Bytes
lzss_encode src =
    let f = length src + 2 * max_match in
    let coded = first_coder f src >>= encode_loop (length src + 1) f in
    if is_nil src then some (flush new_writer).out else coded >>= λ z. some (flush z.bw).out

-- `to_bytes` raises `OverflowError` for a length of more than four bytes.
unfoldable pub compress : Bytes → Option Bytes
compress s = do
  body ← lzss_encode s
  if ltb (length s) 0x100000000 then some (envelope (le_bytes 4 (length s)) body) else none
