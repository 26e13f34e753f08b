-- ===== src/Ax25/Kiss.antt =====
-- src/rms/ax25.py: `kiss_encode` and `KissDecoder`.
pub mod RoundTrip
pub mod Reading
use kp4pra.Prelude.{
  ℕ, ◌*◌, ◌%◌, Bool, true, false, ◌&&◌, List, [], ◌∷◌, ◌++◌, ◌==◌, if◌then◌else◌, Bytes,
}

abbrev pub fend : ℕ
fend = 0xC0

abbrev pub fesc : ℕ
fesc = 0xDB

abbrev pub tfend : ℕ
tfend = 0xDC

abbrev pub tfesc : ℕ
tfesc = 0xDD

-- `s.replace(bytes([b]), new)` for one byte `b`.
unfoldable pub replace : ℕ → Bytes → Bytes → Bytes
replace b new [] = []
replace b new (x ∷ xs) = (if x == b then new else x ∷ []) ++ replace b new xs

-- The two replacements of the source, in its order.
unfoldable pub escape : Bytes → Bytes
unfolding replace
escape s = replace fend (fesc ∷ tfend ∷ []) (replace fesc (fesc ∷ tfesc ∷ []) s)

-- `(port & 0x0F) << 4`
abbrev pub kiss_command : ℕ → ℕ
kiss_command port = port % 16 * 16

unfoldable pub kiss_encode : Bytes → ℕ → Bytes
kiss_encode frame port = fend ∷ (escape (kiss_command port ∷ frame) ++ fend ∷ [])

pub record KissDecoder : Type 0 where
  pub buf : Bytes
  pub esc : Bool

abbrev pub fresh : KissDecoder
fresh = record { buf = []; esc = false }

-- What a FEND hands out: nothing for an empty buffer, or for a command byte that is not data.
unfoldable pub complete : Bytes → List Bytes
complete [] = []
complete (command ∷ frame) = if command % 16 == 0 then frame ∷ [] else []

-- One round of the loop of `feed`: the decoder, and the frames that it hands out.
unfoldable pub feed_byte : KissDecoder → ℕ → KissDecoder × List Bytes
unfolding complete
feed_byte d b =
    if b == fend
    then (fresh, complete d.buf)
    else if d.esc
    then (
      record d {
        buf = d.buf ++ (if b == tfend then fend else if b == tfesc then fesc else b) ∷ [];
        esc = false;
      },
      [],
    )
    else if b == fesc
    then (record d { esc = true }, [])
    else (record d { buf = d.buf ++ b ∷ [] }, [])

unfoldable pub feed : KissDecoder → Bytes → KissDecoder × List Bytes
unfolding feed_byte
feed d [] = (d, [])
feed d (b ∷ bs) =
    let (d', out) = feed_byte d b in let (d'', more) = feed d' bs in (d'', out ++ more)
