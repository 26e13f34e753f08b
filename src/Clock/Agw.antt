-- ===== src/Clock/Agw.antt =====
-- src/aprs_clock.py: `AgwMessage`, `build_agw_command`, `parse_agw_message`, `read_agw_message` and
-- `raw_ax25_from_agw`. A stream is the bytes that it will bring before it ends.
pub mod Stream
use kp4pra.Prelude.{
  ℕ, zero, suc, ◌+◌, ◌*◌, Option, none, some, List, [], ◌∷◌, ◌++◌, Bytes, Text, ltb, ◌==◌,
  if◌then◌else◌, length, take, drop, replicate,
}
use mathlib.Core.List.{filter}
use kp4pra.PyText.{partition, strip, upper}

abbrev pub agw_max_data : ℕ
agw_max_data = 4096

abbrev pub header_size : ℕ
header_size = 36

pub record AgwMessage : Type 0 where
  pub port : ℕ
  pub kind : ℕ
  pub pid : ℕ
  pub call_from : Text
  pub call_to : Text
  pub payload : Bytes

-- `AGW_HEADER.pack(0, 0, 0, 0, ord(kind), 0, ...)`; `none` is the `ValueError` of a kind that is not
-- one character.
unfoldable pub build_agw_command : Text → Option Bytes
build_agw_command (kind ∷ []) = some (replicate 4 0 ++ (kind ∷ replicate 31 0))
build_agw_command _ = none

-- `errors="ignore"`
unfoldable pub ascii_only : Bytes → Text
ascii_only [] = []
ascii_only (b ∷ s) = if ltb b 128 then b ∷ ascii_only s else ascii_only s

-- `raw.split(b"\x00", 1)[0].decode("ascii", errors="ignore").strip().upper()`
unfoldable pub call : Bytes → Text
call raw = upper (strip (ascii_only (partition 0 raw).0))

-- The `I` of a struct without padding: four bytes, the lowest first.
unfoldable pub le32 : Bytes → ℕ
le32 (a ∷ b ∷ c ∷ d ∷ _) = a + 0x100 * b + 0x10000 * c + 0x1000000 * d
le32 _ = 0

-- `AGW_HEADER.unpack(header)[10]`
unfoldable pub data_len : Bytes → ℕ
data_len header = le32 (drop 28 header)

-- A header's byte, at an index below 8.
unfoldable pub byte_at : ℕ → Bytes → ℕ
byte_at n [] = 0
byte_at zero (b ∷ s) = b
byte_at (suc n) (b ∷ s) = byte_at n s

abbrev pub unpacked : Bytes → Bytes → AgwMessage
unpacked header payload = record {
  port = byte_at 0 header;
  kind = byte_at 4 header;
  pid = byte_at 6 header;
  call_from = call (take 10 (drop 8 header));
  call_to = call (take 10 (drop 18 header));
  payload = payload;
}

-- `none` is the `ValueError` of a header of another size, or of another length in the header.
unfoldable pub parse_agw_message : Bytes → Bytes → Option AgwMessage
parse_agw_message header payload =
    if length header == header_size
    then if data_len header == length payload then some (unpacked header payload) else none
    else none

-- What reading gives: a value and the rest of the stream, `IncompleteReadError`, or `ValueError`.
pub data Read {ℓ} (A : Type ℓ) : Type ℓ where
  got : A → Bytes → Read A
  incomplete : Read A
  refused : Read A

-- `await reader.readexactly(n)`
unfoldable pub readexactly : ℕ → Bytes → Read Bytes
readexactly n s = if ltb (length s) n then incomplete else got (take n s) (drop n s)

parsed : Option AgwMessage → Bytes → Read AgwMessage
parsed none s = refused
parsed (some m) s = got m s

-- `if data_len else b""`: reading no bytes gives none.
read_data : Bytes → Read Bytes → Read AgwMessage
unfolding parsed
read_data header (got payload s) = parsed (parse_agw_message header payload) s
read_data header incomplete = incomplete
read_data header refused = refused

unfoldable pub read_body : Read Bytes → Read AgwMessage
unfolding read_data
read_body (got header s) =
    if ltb agw_max_data (data_len header)
    then refused
    else read_data header (readexactly (data_len header) s)
read_body incomplete = incomplete
read_body refused = refused

unfoldable pub read_agw_message : Bytes → Read AgwMessage
read_agw_message s = read_body (readexactly header_size s)

-- Of a `K` message, what stands behind the byte of the port.
unfoldable pub raw_ax25_from_agw : AgwMessage → Option Bytes
raw_ax25_from_agw m =
    if m.kind == b'K'
    then if ltb (length m.payload) 2 then none else some (drop 1 m.payload)
    else none
